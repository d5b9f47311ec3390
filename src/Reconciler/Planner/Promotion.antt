-- ===== src/Reconciler/Planner/Promotion.antt =====
-- When `plan` of reconciler.py sets up or swaps a search view.
use postgres_search_replica.Prelude.{
  ℕ, ◌≤◌, String, ◌≡◌, ◌≢◌, refl, ◌⊎◌, inl, inr, Bool, true, false, Option, none, some, List, [],
  ◌∷◌, arith, Elem, All, sym, ◌∙◌, &&-true, ◌&&◌, All-append, All-Elem, or_else, Bool-cases,
  string_eq, nat_eq, pair_eq,
}
use postgres_search_replica.Prelude.Dict.{Dict, lookup, member}
use postgres_search_replica.Prelude.Effects.{ok}
use postgres_search_replica.Config.{SearchPipeline, Settings}
use postgres_search_replica.Config.Json.{Json}
use postgres_search_replica.Config.Hash.{get_config_hash, get_version_id}
use postgres_search_replica.Reconciler.{
  ActionType, source_setup, sink_table_evolve, sink_vectorizer_setup, sink_recovery,
  sink_cache_setup, sink_outbox_setup, Action, sink_view_setup, Vectorizer, Params, SinkState,
  SourceState,
}
use postgres_search_replica.Reconciler.Planner.Shape.{Emits, plan_known-All, plan-All}
use postgres_search_replica.Reconciler.Planner.Blocks.{state_table_actions, outbox_actions}
use postgres_search_replica.Reconciler.Planner.Names.{store_name, view_name, live_target}
use postgres_search_replica.Reconciler.Planner.Plan.{
  mirrors_caught_up, is_synced, should_promote, view_actions, cleanup_actions, plan,
}

-- Every mirror of the pipeline has processed the outbox up to the watermark.
abbrev pub MirrorsCaughtUp : SinkState → String → ℕ → List String → Type 0
MirrorsCaughtUp sink name watermark =
    All (λ m. watermark ≤ or_else (lookup (m, name) sink.mirror_progress) 0)

mirrors_caught_up_lem :
    (sink : SinkState) (name : String) (w : ℕ) (ms : List String)
    → mirrors_caught_up sink name w ms ≡ true
    → MirrorsCaughtUp sink name w ms
unfolding mirrors_caught_up
mirrors_caught_up_lem sink name w [] h = tt
mirrors_caught_up_lem sink name w (m ∷ ms) h = ground (arith, mirrors_caught_up_lem sink name w ms)

-- The new index has no pending item, and the mirrors have followed.
pub record IsSynced (sink : SinkState) (name : String) (config : SearchPipeline) (version : String)
    : Type 0 where
  pub done : lookup (store_name config.ingest.table version) sink.vectorizer_statuses ≡ some 0
  pub mirrored :
      MirrorsCaughtUp sink name
        (or_else (lookup version sink.outbox_watermarks) 0)
        config.storage.mirrors

pub is_synced_lem :
    (sink : SinkState) (name : String) (config : SearchPipeline) (version : String)
    → is_synced sink name config version ≡ true
    → IsSynced sink name config version
unfolding is_synced
is_synced_lem sink name config version h =
    let w = or_else (lookup version sink.outbox_watermarks) 0 in
    let s = lookup (store_name config.ingest.table version) sink.vectorizer_statuses in
    record {
      done = ground arith;
      mirrored = mirrors_caught_up_lem sink name w config.storage.mirrors (ground arith);
    }

-- Why a view may be set up or swapped: there is none, it points nowhere, or the new index is ready.
abbrev pub MayPromote : SinkState → String → SearchPipeline → String → Type 0
MayPromote sink name config version =
    (member (view_name name) sink.views ≡ false)
    ⊎ ((live_target sink name ≡ none) ⊎ IsSynced sink name config version)

should_promote_lem :
    (sink : SinkState) (name : String) (config : SearchPipeline) (version desired : String)
    (current : Option String)
    → should_promote sink name config version desired current ≡ true
    → MayPromote sink name config version
unfolding should_promote
should_promote_lem sink name config version desired current h =
    ground (arith, is_synced_lem sink name config version)

-- A view action comes from an active pipeline, for its own version, when it may be promoted.
pub record Promotes (hexdigest : Json → String) (settings : Settings) (sink : SinkState)
    (a : Action) : Type 0 where
  pub name : String
  pub config : SearchPipeline
  pub known : Elem (name, config) settings.pipelines
  pub target : a.target_name ≡ some name
  pub params :
      a.params
      ≡ Params.view (get_config_hash hexdigest config) (get_version_id hexdigest config) none
  pub active : config.active ≡ true
  pub ready : MayPromote sink name config (get_version_id hexdigest config)

module _ (hexdigest : Json → String) (settings : Settings) (sources : Dict String SourceState)
    (sink : SinkState) where
  abbrev Fine : Action → Type 0
  Fine a = a.type ≡ sink_view_setup → Promotes hexdigest settings sink a

  other_kind :
      (t : ActionType) (name : String)
      → t ≢ sink_view_setup
      → (a : Action) → Emits t name a
      → Fine a
  other_kind t name ne a e v = absurd (ne (sym e.kind ∙ v))

  view_actions-Fine :
      (name : String) (config : SearchPipeline) (current : Option String)
      → Elem (name, config) settings.pipelines
      → All Fine (
          view_actions sink name config
            (get_version_id hexdigest config)
            (get_config_hash hexdigest config)
            current)
  unfolding view_actions
  view_actions-Fine name config current m =
      let version = get_version_id hexdigest config in
      let desired = get_config_hash hexdigest config in
      let promoted : Bool = should_promote sink name config version desired current in
      elim (Bool-cases (config.active && promoted)) [
        | inr f ↦ rw f tt
        | inl t ↦
            let (on, yes_) = &&-true config.active promoted t in
            rw t (
              λ _. record {
                name = name;
                config = config;
                known = m;
                target = refl;
                params = refl;
                active = on;
                ready = should_promote_lem sink name config version desired current yes_;
              },
              tt,
            )
      ]

  cleanup_actions-Fine :
      (managed : List String) (name : String) (vs : List Vectorizer)
      → All Fine (cleanup_actions sink managed name vs)
  unfolding cleanup_actions
  cleanup_actions-Fine managed name [] = tt
  cleanup_actions-Fine managed name (v ∷ vs) =
      All-append Fine _ _ (ground arith) (cleanup_actions-Fine managed name vs)

  view_steps :
      (actions : List Action) → plan hexdigest settings sources sink ≡ ok actions → All Fine actions
  view_steps actions h =
      plan-All hexdigest settings sources sink Fine actions h
        (globals (lookup "_replica_state" sink.tables)) (unfold outbox_actions in ground arith)
        λ name config m. (
          other_kind sink_cache_setup name (λ e. cc),
          λ current state r.
              plan_known-All hexdigest settings sources sink Fine name config current state
                (other_kind source_setup name (λ e. cc))
                (other_kind sink_table_evolve name (λ e. cc))
                (other_kind sink_recovery name (λ e. cc))
                (other_kind sink_vectorizer_setup name (λ e. cc))
                (other_kind sink_outbox_setup name (λ e. cc))
                (view_actions-Fine name config current m) (cleanup_actions-Fine _ name _),
        )
    where
      globals : (o : Option (List String)) → All Fine (state_table_actions o)
      globals o = unfold state_table_actions in ground arith

  -- Every view action of a plan is a promotion that is allowed: it comes from an active pipeline of
  -- the settings, it points the view to that pipeline's own version, and either there is no view
  -- yet, or the view points nowhere, or the new index has no pending item and every mirror of the
  -- pipeline has reached the outbox watermark.
  pub plan-Promotes :
      (actions : List Action) (a : Action)
      → plan hexdigest settings sources sink ≡ ok actions
      → Elem a actions
      → a.type ≡ sink_view_setup
      → Promotes hexdigest settings sink a
  plan-Promotes actions a h m = All-Elem Fine a actions (view_steps actions h) m

module _ (sink : SinkState) (name : String) (config : SearchPipeline) (version : String) where
  mirrors_caught_up_iff :
      (w : ℕ) (ms : List String)
      → MirrorsCaughtUp sink name w ms
      → mirrors_caught_up sink name w ms ≡ true
  unfolding mirrors_caught_up
  mirrors_caught_up_iff w [] h = refl
  mirrors_caught_up_iff w (m ∷ ms) h = ground (arith, mirrors_caught_up_iff w ms)

  pub IsSynced-is_synced :
      IsSynced sink name config version → is_synced sink name config version ≡ true
  unfolding is_synced
  IsSynced-is_synced h = ground (
    arith,
    mirrors_caught_up_iff (or_else (lookup version sink.outbox_watermarks) 0) config.storage.mirrors
        h.mirrored,
  )
