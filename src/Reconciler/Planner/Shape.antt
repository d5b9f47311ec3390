-- ===== src/Reconciler/Planner/Shape.antt =====
-- What each block of `plan` of reconciler.py emits, and the rule by which a property of every
-- planned action is proved block by block.
use postgres_search_replica.Prelude.{
  String, ◌≡◌, refl, inl, inr, Bool, false, Option, none, some, List, [], ◌∷◌, arith, Elem, All,
  All-append, All-imp, Bool-cases, string_eq, ◌||◌, not,
}
use postgres_search_replica.Prelude.Dict.{Dict, lookup, contains}
use postgres_search_replica.Prelude.Effects.{ok, >>=-eq-ok, ok_inj}
use postgres_search_replica.Config.{SourceConfig, SearchPipeline, Settings}
use postgres_search_replica.Config.Json.{Json}
use postgres_search_replica.Config.Hash.{get_config_hash, get_version_id}
use postgres_search_replica.Reconciler.{
  ActionType, source_setup, sink_table_evolve, sink_vectorizer_setup, sink_recovery,
  sink_cache_setup, sink_outbox_setup, Action, SinkState, SourceState,
}
use postgres_search_replica.Reconciler.Planner.Blocks.{
  state_table_actions, outbox_actions, cache_actions, read_config_hash, source_actions,
  table_actions, add_missing, recovery_actions, vectorizers_of, vectorizer_actions, trigger_actions,
}
use postgres_search_replica.Reconciler.Planner.Plan.{
  view_actions, cleanup_actions, managed_vectorizers, reachable_actions, plan_known, plan_pipeline,
  plan_pipelines, plan,
}

-- an action of this type for this target, with no ephemeral configuration
pub record Emits (type : ActionType) (name : String) (a : Action) : Type 0 where
  pub kind : a.type ≡ type
  pub target : a.target_name ≡ some name
  pub main : a.ephemeral_config ≡ none

module _ (name : String) where
  pub source_actions-Emits :
      (settings : Settings) (s : SourceState) (config : SearchPipeline) (c : Option SourceConfig)
      → All (Emits source_setup name) (source_actions settings s name config c)
  unfolding source_actions
  source_actions-Emits settings s config none = tt
  source_actions-Emits settings s config (some c) = ground arith

  add_missing-Emits :
      (table : String) (cs : List String)
      → All (Emits sink_table_evolve name) (add_missing name table cs)
  add_missing-Emits table [] = tt
  add_missing-Emits table (c ∷ cs) = ground arith

  pub table_actions-Emits :
      (sink : SinkState) (config : SearchPipeline)
      → All (Emits sink_table_evolve name) (table_actions sink name config)
  unfolding table_actions
  table_actions-Emits sink config = at (lookup config.ingest.table sink.tables) refl
    where
      at :
          (o : Option (List String))
          → lookup config.ingest.table sink.tables ≡ o
          → All (Emits sink_table_evolve name) (table_actions sink name config)
      at none e = rw (e, table_actions) (ground arith)
      at (some cols) e = rw (e, table_actions) (add_missing-Emits _ _)

  pub cache_actions-Emits :
      (sink : SinkState) (added : Bool)
      → All (Emits sink_cache_setup name) (cache_actions sink added name)
  unfolding cache_actions
  cache_actions-Emits sink added = ground arith

  pub recovery_actions-Emits :
      (s : SourceState) (sink : SinkState) (c : Option SourceConfig)
      → All (Emits sink_recovery name) (recovery_actions s sink name c)
  unfolding recovery_actions
  recovery_actions-Emits s sink c = ground arith

  pub vectorizer_actions-Emits :
      (sink : SinkState) (table version : String)
      → All (Emits sink_vectorizer_setup name) (vectorizer_actions sink name table version)
  unfolding vectorizer_actions
  vectorizer_actions-Emits sink table version = ground arith

  pub trigger_actions-Emits :
      (sink : SinkState) (table version : String)
      → All (Emits sink_outbox_setup name) (trigger_actions sink name table version)
  unfolding trigger_actions
  trigger_actions-Emits sink table version = ground arith

reachable-All :
    (P : Action → Type 0) (state : SourceState) (f : SourceState → List Action)
    → All P (f state)
    → All P (reachable_actions state f)
unfolding reachable_actions
reachable-All P state f h = elim (Bool-cases state.is_reachable) [
  | inl t ↦ simp t h
  | inr t ↦ simp t tt
]

module _ (hexdigest : Json → String) (settings : Settings) (sources : Dict String SourceState)
    (sink : SinkState) where
  -- The body of the loop has a property if it holds of what the blocks can emit, of the promotion
  -- and of the clean-up.
  module _ (P : Action → Type 0) (name : String) (config : SearchPipeline) where
    pub plan_known-All :
        (current : Option String) (state : SourceState)
        → ((a : Action) → Emits source_setup name a → P a)
        → ((a : Action) → Emits sink_table_evolve name a → P a)
        → ((a : Action) → Emits sink_recovery name a → P a)
        → ((a : Action) → Emits sink_vectorizer_setup name a → P a)
        → ((a : Action) → Emits sink_outbox_setup name a → P a)
        → All P (
            view_actions sink name config
              (get_version_id hexdigest config)
              (get_config_hash hexdigest config)
              current)
        → All P (
            cleanup_actions sink
              (managed_vectorizers hexdigest settings.pipelines)
              name
              (vectorizers_of sink config.ingest.table))
        → All P (plan_known hexdigest settings sources sink name config current state)
    unfolding plan_known
    plan_known-All current state fs ft fr fv fo hv hc =
        let c = lookup config.ingest.source settings.sources in
        let table = config.ingest.table in
        let version = get_version_id hexdigest config in
        All-append P _ _
          (reachable-All P state _
            (All-imp fs _ (source_actions-Emits name settings state config c)))
          (All-append P _ _ (All-imp ft _ (table_actions-Emits name sink config)) (
            All-append P _ _
              (reachable-All P state _ (All-imp fr _ (recovery_actions-Emits name state sink c)))
              (All-append P _ _ (All-imp fv _ (vectorizer_actions-Emits name sink table version)) (
                All-append P _ _ (All-imp fo _ (trigger_actions-Emits name sink table version))
                  (All-append P _ _ hv hc)))))

  module _ (P : Action → Type 0) where
    Body : String → SearchPipeline → Type 0
    Body name config =
        ((a : Action) → Emits sink_cache_setup name a → P a)
        × ((current : Option String) (state : SourceState)
            → read_config_hash (lookup name sink.replica_states) ≡ ok current
            → All P (plan_known hexdigest settings sources sink name config current state))

    plan_pipeline-All :
        (name : String) (config : SearchPipeline) (actions : List Action)
        → Body name config
        → plan_pipeline hexdigest settings sources sink name config ≡ ok actions
        → All P actions
    unfolding plan_pipeline Body
    plan_pipeline-All name config actions body h =
        let (current, read, e) =
          >>=-eq-ok (read_config_hash (lookup name sink.replica_states)) _ h in
        from (lookup config.ingest.source sources) current read (ok_inj e)
      where
        from :
            (o : Option SourceState) (current : Option String)
            → read_config_hash (lookup name sink.replica_states) ≡ ok current
            → elim o [
              | none ↦ []
              | some state ↦ plan_known hexdigest settings sources sink name config current state
            ]
              ≡ actions
            → All P actions
        from none current read e = rw (← e) tt
        from (some state) current read e = rw (← e) (body.1 current state read)

    plan_pipelines-All :
        (added : Bool) (pipelines : Dict String SearchPipeline) (actions : List Action)
        → ((name : String) (config : SearchPipeline)
            → Elem (name, config) pipelines
            → Body name config)
        → plan_pipelines hexdigest settings sources sink added pipelines ≡ ok actions
        → All P actions
    unfolding plan_pipelines Body
    plan_pipelines-All added [] actions body h = rw (← ok_inj h) tt
    plan_pipelines-All added ((name, config) ∷ rest) actions body h =
        let (here, e, h₁) =
          >>=-eq-ok (plan_pipeline hexdigest settings sources sink name config) _ h in
        let (more, e', h₂) =
          >>=-eq-ok (plan_pipelines hexdigest settings sources sink _ rest) _ h₁ in
        let first = body name config (inl refl) in
        rw (← ok_inj h₂) (
          All-append P _ _ (All-imp first.0 _ (cache_actions-Emits name sink added)) (
            All-append P _ _ (plan_pipeline-All name config here first e) (
              plan_pipelines-All (added || not (contains "_embedding_cache" sink.tables)) rest more
                (λ n c m. body n c (inr m)) e')))

    -- A property of every planned action: of the two global blocks, and of the body of the loop.
    pub plan-All :
        (actions : List Action)
        → plan hexdigest settings sources sink ≡ ok actions
        → All P (state_table_actions (lookup "_replica_state" sink.tables))
        → All P (outbox_actions sink)
        → ((name : String) (config : SearchPipeline)
            → Elem (name, config) settings.pipelines
            → ((a : Action) → Emits sink_cache_setup name a → P a)
              × ((current : Option String) (state : SourceState)
                  → read_config_hash (lookup name sink.replica_states) ≡ ok current
                  → All P (plan_known hexdigest settings sources sink name config current state)))
        → All P actions
    unfolding plan Body
    plan-All actions h hs ho body =
        let pipelines = settings.pipelines in
        let (rest, e, h₁) =
          >>=-eq-ok (plan_pipelines hexdigest settings sources sink false pipelines) _ h in
        rw (← ok_inj h₁) (
          All-append P _ _ hs
            (All-append P _ _ ho (plan_pipelines-All false pipelines rest body e)))
