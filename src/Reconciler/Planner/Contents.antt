-- ===== src/Reconciler/Planner/Contents.antt =====
-- What a plan of reconciler.py contains: the actions of every pipeline whose source is known.
use postgres_search_replica.Prelude.{
  String, ◌≡◌, inl, inr, Bool, false, Option, some, List, [], ◌∷◌, ◌++◌, Elem, sym,
  Elem-append_left, Elem-append_right, not, ◌||◌, string_eq,
}
use mathlib.Core.Path.{subst}
use postgres_search_replica.Prelude.Dict.{Dict, lookup, contains}
use postgres_search_replica.Prelude.Effects.{ok, >>=-eq-ok, ok_inj}
use postgres_search_replica.Config.{SearchPipeline, Settings}
use postgres_search_replica.Config.Json.{Json}
use postgres_search_replica.Reconciler.{Action, SinkState, SourceState}
use postgres_search_replica.Reconciler.Planner.Blocks.{
  state_table_actions, outbox_actions, cache_actions, read_config_hash, vectorizers_of,
}
use postgres_search_replica.Reconciler.Planner.Plan.{
  cleanup_actions, managed_vectorizers, plan_known, plan_pipeline, plan_pipelines, plan,
}

module _ (hexdigest : Json → String) (settings : Settings) (sources : Dict String SourceState)
    (sink : SinkState) where
  -- the actions of a plan include those of a known pipeline
  pub record Includes (name : String) (config : SearchPipeline) (state : SourceState)
      (actions : List Action) : Type 0 where
    pub current : Option String
    pub read : read_config_hash (lookup name sink.replica_states) ≡ ok current
    pub all :
        (a : Action)
        → Elem a (plan_known hexdigest settings sources sink name config current state)
        → Elem a actions

  module _ (name : String) (config : SearchPipeline) (state : SourceState)
      (found : lookup config.ingest.source sources ≡ some state) where
    plan_pipeline-Includes :
        (actions : List Action)
        → plan_pipeline hexdigest settings sources sink name config ≡ ok actions
        → Includes name config state actions
    unfolding plan_pipeline
    plan_pipeline-Includes actions h =
        let (current, read, e) =
          >>=-eq-ok (read_config_hash (lookup name sink.replica_states)) _ h in
        record { current = current; read = read; all = λ a m. rw (← ok_inj e) (rw found m) }

    plan_pipelines-Includes :
        (added : Bool) (pipelines : Dict String SearchPipeline) (actions : List Action)
        → Elem (name, config) pipelines
        → plan_pipelines hexdigest settings sources sink added pipelines ≡ ok actions
        → Includes name config state actions
    unfolding plan_pipelines
    plan_pipelines-Includes added [] actions m h = elim m [ ]
    plan_pipelines-Includes added ((n, c) ∷ rest) actions m h =
        let (here, e, h₁) = >>=-eq-ok (plan_pipeline hexdigest settings sources sink n c) _ h in
        let (more, e', h₂) =
          >>=-eq-ok (plan_pipelines hexdigest settings sources sink _ rest) _ h₁ in
        elim m [
          | inl same ↦
              let i = plan_pipeline-Includes here (
                subst (λ p. plan_pipeline hexdigest settings sources sink p.0 p.1 ≡ ok here)
                  (sym same) e) in
              record {
                current = i.current;
                read = i.read;
                all = λ a k. rw (← ok_inj h₂) (
                    Elem-append_right a (cache_actions sink added n) (here ++ more)
                      (Elem-append_left a here more (i.all a k)));
              }
          | inr later ↦
              let i =
                plan_pipelines-Includes (added || not (contains "_embedding_cache" sink.tables))
                  rest more later e' in
              record {
                current = i.current;
                read = i.read;
                all = λ a k. rw (← ok_inj h₂) (
                    Elem-append_right a (cache_actions sink added n) (here ++ more)
                      (Elem-append_right a here more (i.all a k)));
              }
        ]

    pub plan-Includes :
        (actions : List Action)
        → Elem (name, config) settings.pipelines
        → plan hexdigest settings sources sink ≡ ok actions
        → Includes name config state actions
    unfolding plan
    plan-Includes actions m h =
        let pipelines = settings.pipelines in
        let (rest, e, h₁) =
          >>=-eq-ok (plan_pipelines hexdigest settings sources sink false pipelines) _ h in
        let i = plan_pipelines-Includes false pipelines rest m e in
        record {
          current = i.current;
          read = i.read;
          all = λ a k. rw (← ok_inj h₁) (
              Elem-append_right a (state_table_actions (lookup "_replica_state" sink.tables))
                (outbox_actions sink ++ rest)
                (Elem-append_right a (outbox_actions sink) rest (i.all a k)));
        }

  -- The body of the loop ends in the promotion and the clean-up.
  pub plan_known_ends :
      (name : String) (config : SearchPipeline) (current : Option String) (state : SourceState)
      (a : Action)
      → Elem a (
          cleanup_actions sink
            (managed_vectorizers hexdigest settings.pipelines)
            name
            (vectorizers_of sink config.ingest.table))
      → Elem a (plan_known hexdigest settings sources sink name config current state)
  unfolding plan_known
  plan_known_ends name config current state a m = search (Elem-append_right, m) depth 9
