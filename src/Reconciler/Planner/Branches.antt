-- ===== src/Reconciler/Planner/Branches.antt =====
-- `Planner._expand_branches` of reconciler.py: the actions for the shadow index of each branch.
use postgres_search_replica.Prelude.{
  String, Bool, true, ◌||◌, not, Option, none, some, List, [], ◌∷◌, ◌++◌, concat, string_eq,
  if◌then◌else◌,
}
use postgres_search_replica.Prelude.Dict.{Dict, lookup, contains, member}
use postgres_search_replica.Prelude.Effects.{Result, ok, err, key_error, ◌>>=◌}
use postgres_search_replica.Config.{BranchConfig, SearchPipeline, with_pipeline}
use postgres_search_replica.Config.Json.{Json}
use postgres_search_replica.Config.Hash.{get_config_hash, get_version_id}
use postgres_search_replica.Reconciler.{
  ActionType, source_setup, sink_table_evolve, sink_vectorizer_setup, sink_view_setup, Params,
  create_table, Action, SinkState, SourceState,
}
use postgres_search_replica.Reconciler.Planner.Names.{
  store_name, view_name, branch_name, live_target, is_target,
}
use postgres_search_replica.Reconciler.Planner.Blocks.{vectorizer_exists}

-- the clone of the parent, with the branch's pipeline, marked active
abbrev pub shadow_of : SearchPipeline → BranchConfig → SearchPipeline
shadow_of parent branch = record (with_pipeline parent branch.pipeline) { active = true }

abbrev pub shadow_action : ActionType → Params → String → SearchPipeline → Action
shadow_action type params target shadow = record {
  type = type;
  params = params;
  target_name = some target;
  ephemeral_config = some shadow;
}

-- is the branch's publication missing, or without the table?
abbrev pub lacks_table : String → Option (Dict String (Option String)) → Bool
lacks_table table none = true
lacks_table table (some tables) = not (contains table tables)

-- `this_source_state["publications"]` raises for a reachable source that has no such key.
unfoldable pub needs_branch_pub : Option SourceState → String → String → Result Bool
needs_branch_pub none target table = ok true
needs_branch_pub (some state) target table =
    if state.is_reachable
    then elim state.publications [
      | none ↦ err key_error
      | some pubs ↦ ok (lacks_table table (lookup (concat ("pub_" ∷ target ∷ [])) pubs))
    ]
    else ok true

unfoldable pub branch_source_actions : Bool → String → SearchPipeline → List Action
branch_source_actions needed target shadow =
    if needed then shadow_action source_setup Params.empty target shadow ∷ [] else []

unfoldable pub branch_table_actions : SinkState → String → SearchPipeline → List Action
branch_table_actions sink target shadow =
    if contains shadow.ingest.table sink.tables
    then []
    else shadow_action sink_table_evolve (create_table shadow.ingest.table) target shadow ∷ []

unfoldable pub branch_vectorizer_actions :
    SinkState → String → String → SearchPipeline → String → List Action
branch_vectorizer_actions sink parent target shadow version =
    if vectorizer_exists sink shadow.ingest.table (store_name target version)
    then []
    else shadow_action sink_vectorizer_setup
        (Params.vectorizer version (some (store_name target version))
          (some (concat ("pub_" ∷ parent ∷ []))))
        target shadow
      ∷ []

unfoldable pub branch_view_actions :
    SinkState → String → SearchPipeline → String → String → List Action
branch_view_actions sink target shadow version hash =
    if not (member (view_name target) sink.views)
      || not (is_target (store_name target version) (live_target sink target))
    then shadow_action sink_view_setup (Params.view hash version (some (store_name target version)))
        target shadow
      ∷ []
    else []

module _ (hexdigest : Json → String) (sources : Dict String SourceState) (sink : SinkState) where
  unfoldable pub expand_branch : String → SearchPipeline → BranchConfig → Result (List Action)
  expand_branch parent config branch = do
    let shadow = shadow_of config branch
    let target = branch_name parent branch
    let version = get_version_id hexdigest shadow
    needed ← needs_branch_pub (lookup shadow.ingest.source sources) target shadow.ingest.table
    ok (
        branch_source_actions needed target shadow
        ++ (branch_table_actions sink target shadow
            ++ (branch_vectorizer_actions sink parent target shadow version
                ++ branch_view_actions sink target shadow version
                    (get_config_hash hexdigest shadow))))

  unfoldable pub expand_pipeline :
      String → SearchPipeline → List BranchConfig → Result (List Action)
  expand_pipeline parent config [] = ok []
  expand_pipeline parent config (b ∷ bs) = do
    here ← expand_branch parent config b
    more ← expand_pipeline parent config bs
    ok (here ++ more)

  unfoldable pub expand_branches : Dict String SearchPipeline → Result (List Action)
  expand_branches [] = ok []
  expand_branches ((name, config) ∷ rest) = do
    here ← expand_pipeline name config config.storage.branches
    more ← expand_branches rest
    ok (here ++ more)
