-- ===== src/Reconciler/Planner/Plan.antt =====
-- `Planner.plan` of reconciler.py: promotion, the clean-up of orphans, and the loop over pipelines.
use postgres_search_replica.Prelude.{
  ℕ, String, Bool, true, false, ◌&&◌, ◌||◌, not, Option, none, some, List, [], ◌∷◌, ◌++◌, ◌==◌, leb,
  string_eq, nat_eq, pair_eq, or_else, if◌then◌else◌,
}
use postgres_search_replica.Prelude.Dict.{Dict, lookup, contains, member}
use postgres_search_replica.Prelude.Effects.{Result, ok, ◌>>=◌}
use postgres_search_replica.Config.{BranchConfig, SearchPipeline, Settings, with_pipeline}
use postgres_search_replica.Config.Json.{Json}
use postgres_search_replica.Config.Hash.{get_config_hash, get_version_id}
use postgres_search_replica.Reconciler.{
  sink_view_setup, sink_table_cleanup, Params, orphan, Action, Vectorizer, ReplicaState, SinkState,
  SourceState,
}
use postgres_search_replica.Reconciler.Planner.Names.{
  action, store_name, view_name, branch_name, live_target, is_target,
}
use postgres_search_replica.Reconciler.Planner.Blocks.{
  state_table_actions, outbox_actions, cache_actions, read_config_hash, source_actions,
  table_actions, recovery_actions, vectorizers_of, vectorizer_actions, trigger_actions,
}

-- The mirror handshake: every mirror of the pipeline has reached the outbox watermark.
unfoldable pub mirrors_caught_up : SinkState → String → ℕ → List String → Bool
mirrors_caught_up sink name watermark [] = true
mirrors_caught_up sink name watermark (m ∷ ms) =
    if leb watermark (or_else (lookup (m, name) sink.mirror_progress) 0)
    then mirrors_caught_up sink name watermark ms
    else false

-- An unknown vectorizer counts as 9999 pending items.
unfoldable pub is_synced : SinkState → String → SearchPipeline → String → Bool
is_synced sink name config version =
    or_else (lookup (store_name config.ingest.table version) sink.vectorizer_statuses) 9999 == 0
    && mirrors_caught_up sink name (or_else (lookup version sink.outbox_watermarks) 0)
        config.storage.mirrors

-- the stored hash is there and is another one
abbrev pub hash_differs : Option ReplicaState → Option String → String → Bool
hash_differs none current desired = false
hash_differs (some r) current desired = not (is_target desired current)

unfoldable pub should_promote :
    SinkState → String → SearchPipeline → String → String → Option String → Bool
should_promote sink name config version desired current =
    if not (member (view_name name) sink.views)
    then true
    else if not (is_target (store_name config.ingest.table version) (live_target sink name))
        || hash_differs (lookup name sink.replica_states) current desired
    then elim (live_target sink name) [ none ↦ true | some t ↦ is_synced sink name config version ]
    else false

unfoldable pub view_actions :
    SinkState → String → SearchPipeline → String → String → Option String → List Action
view_actions sink name config version desired current =
    if config.active && should_promote sink name config version desired current
    then action sink_view_setup (Params.view desired version none) (some name) ∷ []
    else []

abbrev pub same_target : Option String → Option String → Bool
same_target none none = true
same_target none (some b) = false
same_target (some a) b = is_target a b

abbrev pub in_targets : Option String → List String → Bool
in_targets none managed = false
in_targets (some t) managed = member t managed

-- 2.6: a vectorizer on the raw table that no pipeline manages and whose store is not live
unfoldable pub cleanup_actions : SinkState → List String → String → List Vectorizer → List Action
cleanup_actions sink managed name [] = []
cleanup_actions sink managed name (v ∷ vs) =
    (if not (in_targets v.target_table managed)
        && not (same_target v.target_table (live_target sink name))
      then action sink_table_cleanup (orphan v.id v.target_table) (some name) ∷ []
      else [])
    ++ cleanup_actions sink managed name vs

-- The actions that need the source are left out while it cannot be reached.
unfoldable pub reachable_actions : SourceState → (SourceState → List Action) → List Action
reachable_actions state f = if state.is_reachable then f state else []

module _ (hexdigest : Json → String) where
  unfoldable pub managed_branches : String → SearchPipeline → List BranchConfig → List String
  managed_branches name config [] = []
  managed_branches name config (b ∷ bs) =
      store_name (branch_name name b) (get_version_id hexdigest (with_pipeline config b.pipeline))
      ∷ managed_branches name config bs

  -- the stores that the settings call for
  unfoldable pub managed_vectorizers : Dict String SearchPipeline → List String
  managed_vectorizers [] = []
  managed_vectorizers ((name, config) ∷ rest) =
      (store_name config.ingest.table (get_version_id hexdigest config)
        ∷ managed_branches name config config.storage.branches)
      ++ managed_vectorizers rest

  module _ (settings : Settings) (sources : Dict String SourceState) (sink : SinkState) where
    -- the body of the loop, for a pipeline whose source is in the discovered state
    unfoldable pub plan_known : String → SearchPipeline → Option String → SourceState → List Action
    plan_known name config current state =
        let source_config = lookup config.ingest.source settings.sources in
        let table = config.ingest.table in
        let version = get_version_id hexdigest config in
        reachable_actions state (λ s. source_actions settings s name config source_config)
        ++ (table_actions sink name config
            ++ (reachable_actions state (λ s. recovery_actions s sink name source_config)
                ++ (vectorizer_actions sink name table version
                    ++ (trigger_actions sink name table version
                        ++ (view_actions sink name config version (get_config_hash hexdigest config)
                              current
                            ++ cleanup_actions sink (managed_vectorizers settings.pipelines) name
                                (vectorizers_of sink table))))))

    -- `continue` on a source that is not in the discovered state
    unfoldable pub plan_pipeline : String → SearchPipeline → Result (List Action)
    plan_pipeline name config = do
      current ← read_config_hash (lookup name sink.replica_states)
      ok (elim (lookup config.ingest.source sources) [
        | none ↦ []
        | some state ↦ plan_known name config current state
      ])

    unfoldable pub plan_pipelines : Bool → Dict String SearchPipeline → Result (List Action)
    plan_pipelines added [] = ok []
    plan_pipelines added ((name, config) ∷ rest) = do
      here ← plan_pipeline name config
      more ← plan_pipelines (added || not (contains "_embedding_cache" sink.tables)) rest
      ok (cache_actions sink added name ++ (here ++ more))

    unfoldable pub plan : Result (List Action)
    plan = do
      actions ← plan_pipelines false settings.pipelines
      ok (
          state_table_actions (lookup "_replica_state" sink.tables)
          ++ (outbox_actions sink ++ actions))
