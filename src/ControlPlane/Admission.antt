-- ===== src/ControlPlane/Admission.antt =====
-- What `update_config` of src/pg_replica/observability.py accepts, and that it leaves the settings alone.
use postgres_search_replica.Prelude.{
  ℕ, suc, String, string_eq, ◌≡◌, refl, ap, ◌⊎◌, inl, inr, some, List, [], ◌∷◌, arith, length,
  Option-cases, eq_iff,
}
use postgres_search_replica.Prelude.Dict.{Dict, lookup, insert}
use postgres_search_replica.Prelude.Effects.{Result, ok, err, Exn}
use postgres_search_replica.Config.{SearchPipeline, Settings}
use postgres_search_replica.Config.Json.{Json}
use postgres_search_replica.Config.Hash.{get_config_hash, get_version_id}
use postgres_search_replica.Control.History.{max_generation, save_table_config}
use postgres_search_replica.Reconciler.{Action, SinkState, SourceState}
use postgres_search_replica.ControlPlane.Endpoints.{
  Process, Response, answered, http_error, raised, Accepted, set_pipeline, proposed_plan,
  after_plan, after_inspect, update_config,
}

-- Setting a key and setting it back leaves the dictionary.
pub insert-insert_back :
    (k : String) (v old : SearchPipeline) (d : Dict String SearchPipeline)
    → lookup k d ≡ some old
    → insert k old (insert k v d) ≡ d
insert-insert_back k v old [] h = cc
insert-insert_back k v old ((j, w) ∷ d) h = ground (arith, eq_iff j k, insert-insert_back k v old d)

pub restored :
    (target : String) (config original : SearchPipeline) (settings : Settings)
    → lookup target settings.pipelines ≡ some original
    → set_pipeline target original (set_pipeline target config settings) ≡ settings
restored target config original settings h =
    ap {A = Dict String SearchPipeline} {B = Settings} (λ d. record settings { pipelines = d })
      (insert-insert_back target config original settings.pipelines h)

module _ {J : Type 0} (hexdigest : Json → String) (dump : SearchPipeline → J) where
  -- The proposal was planned over the discovered states and is stored with the next generation.
  pub record IsAccepted (target : String) (config : SearchPipeline)
      (inspect : Result (Dict String SourceState × SinkState)) (p : Process J)
      (r : Process J × Response Accepted) : Type 0 where
    pub states : Dict String SourceState × SinkState
    pub discovered : inspect ≡ ok states
    pub actions : List Action
    pub planned : proposed_plan hexdigest dump inspect target config p.settings states ≡ ok actions
    pub response :
        r.1
        ≡ answered (record {
          generation = suc (max_generation target p.history);
          config_hash = get_config_hash hexdigest config;
          actions_planned = length actions;
        })
    pub stored :
        r.0.history
        ≡ (save_table_config target (dump config) (get_version_id hexdigest config) p.history).0

  -- nothing is stored, and the caller is told so
  abbrev pub IsRefused : Process J → Process J × Response Accepted → Type 0
  IsRefused p r =
      (r.0.history ≡ p.history)
      × (((status : ℕ) × (r.1 ≡ http_error status)) ⊎ ((x : Exn) × (r.1 ≡ raised x)))

  -- the settings are as before, and the proposal is accepted or refused
  abbrev pub Admits :
      Result (Dict String SourceState × SinkState)
      → String
      → SearchPipeline
      → Process J
      → Process J × Response Accepted
      → Type 0
  Admits inspect target config p r =
      (r.0.settings ≡ p.settings) × (IsAccepted target config inspect p r ⊎ IsRefused p r)

  after_plan-Admits :
      (states : Dict String SourceState × SinkState) (target : String)
      (original config : SearchPipeline) (p : Process J)
      → lookup target p.settings.pipelines ≡ some original
      → (inspect : Result (Dict String SourceState × SinkState)) → inspect ≡ ok states
      → (r : Result (List Action))
      → proposed_plan hexdigest dump inspect target config p.settings states ≡ r
      → Admits inspect target config p
          (after_plan hexdigest dump inspect target original config r p)
  unfolding after_plan save_table_config
  after_plan-Admits states target original config p s inspect d (err x) e =
      (restored target config original p.settings s, inr (refl, inl (400, refl)))
  after_plan-Admits states target original config p s inspect d (ok actions) e = (
    restored target config original p.settings s,
    inl (record {
      states = states;
      discovered = d;
      actions = actions;
      planned = e;
      response = refl;
      stored = refl;
    }),
  )

  after_inspect-Admits :
      (target : String) (original config : SearchPipeline) (p : Process J)
      → lookup target p.settings.pipelines ≡ some original
      → (inspect found : Result (Dict String SourceState × SinkState)) → inspect ≡ found
      → Admits inspect target config p
          (after_inspect hexdigest dump inspect target original config found p)
  unfolding after_inspect
  after_inspect-Admits target original config p s inspect (err x) d =
      (refl, inr (refl, inr (x, refl)))
  after_inspect-Admits target original config p s inspect (ok states) d =
      after_plan-Admits states target original config p s inspect d
        (proposed_plan hexdigest dump inspect target config p.settings states) refl

  -- An update leaves the settings of the process as they were, whatever happens. It is either accepted,
  -- where the planner returns a plan for the settings with the proposal in place, and is then stored
  -- with the next generation of the target; or it is refused and nothing is stored.
  pub update_config-Admits :
      (inspect : Result (Dict String SourceState × SinkState)) (target : String)
      (config : SearchPipeline) (p : Process J)
      → Admits inspect target config p (update_config hexdigest dump inspect target config p)
  unfolding update_config
  update_config-Admits inspect target config p =
      elim (Option-cases (lookup target p.settings.pipelines)) [
        | inl n ↦ rw (update_config, n) (refl, inr (refl, inl (404, refl)))
        | inr (original, s) ↦
            rw (update_config, s)
              (after_inspect-Admits target original config p s inspect inspect refl)
      ]
