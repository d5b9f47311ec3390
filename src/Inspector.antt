-- ===== src/Inspector.antt =====
-- `Inspector.get_sink_state` of src/pg_replica/reconciler.py: what discovery reads from the catalog and the
-- tables of the sink. The latest configurations that it reads as well are left to the reconciler.
pub mod ViewTarget
pub mod Vectorizers
use postgres_search_replica.Prelude.{
  ℕ, String, string_eq, ◌==◌, ◌&&◌, Bool, true, Option, none, some, or_else, List, [], ◌∷◌, ◌++◌,
  concat, map, keep, has, ends_with, before_text, after_dot, if◌then◌else◌,
}
use postgres_search_replica.Prelude.Dict.{Dict, lookup, insert, keys, contains, member}
use postgres_search_replica.Config.{Settings, SearchPipeline, BranchConfig, with_pipeline}
use postgres_search_replica.Config.Json.{Json}
use postgres_search_replica.Config.Hash.{get_version_id}
use postgres_search_replica.Control.Replica.{StateRow, sub_name}
use postgres_search_replica.Mirror.Outbox.{OutboxRow, Registry}
use postgres_search_replica.Handshake.{watermarks_of, progress_of}
use postgres_search_replica.Reconciler.{SinkState, ReplicaState, Vectorizer}
use postgres_search_replica.Reconciler.Planner.Names.{view_name, branch_name}

-- What the statements of discovery find. `view_usage` is information_schema.view_table_usage, by
-- view; `statuses` is ai.vectorizer_status, if there is such a view.
pub record SinkCatalog : Type 0 where
  pub extensions : List String
  pub base_tables : Dict String (List String)
  pub views : List String
  -- with the table of each
  pub triggers : Dict String String
  pub view_usage : Dict String (List String)
  pub states : Dict String StateRow
  pub outbox : List (ℕ × OutboxRow)
  pub registry : Registry
  -- ai.vectorizer, each row with its source table
  pub vectorizers : List (String × Vectorizer)
  pub statuses : Option (List (String × ℕ))

-- `for (t,) in rows: if p(t): … break`
abbrev pub first : (String → Bool) → List String → Option String
first p [] = none
first p (x ∷ xs) = if p x then some x else first p xs

-- `a or b`
abbrev pub or_other : Option String → Option String → Option String
or_other none b = b
or_other (some a) b = some a

-- the relation that a search view is taken to point to
unfoldable pub view_target : String → List String → Option String
view_target version rows =
    or_other (first (λ t. ends_with (concat ("_v" ∷ version ∷ [])) t && has "_store_" t) rows)
      (or_other (first (has "_store_v") rows) (first (λ t. true) rows))

-- the columns that the query names, as a dictionary
unfoldable pub replica_state_of : List String → StateRow → ReplicaState
replica_state_of columns row = record {
  last_id = row.last_id;
  last_lsn = row.last_lsn;
  config_hash = if member "config_hash" columns then some row.config_hash else none;
}

-- a vectorizer joins the others of its source table
abbrev pub add_vectorizer :
    String → Vectorizer → Dict String (List Vectorizer) → Dict String (List Vectorizer)
add_vectorizer table v groups = insert table (or_else (lookup table groups) [] ++ v ∷ []) groups

unfoldable pub group_vectorizers :
    List (String × Vectorizer) → Dict String (List Vectorizer) → Dict String (List Vectorizer)
group_vectorizers [] groups = groups
group_vectorizers ((source, v) ∷ rows) groups =
    group_vectorizers rows (add_vectorizer (after_dot source) v groups)

-- `statuses[table] = pending`, for each row in turn
unfoldable pub collect_statuses : List (String × ℕ) → Dict String ℕ → Dict String ℕ
collect_statuses [] found = found
collect_statuses ((table, pending) ∷ rows) found =
    collect_statuses rows (insert table pending found)

-- a missing view is an error that is swallowed
unfoldable pub get_vectorizer_statuses : Option (List (String × ℕ)) → Dict String ℕ
get_vectorizer_statuses none = []
get_vectorizer_statuses (some rows) = collect_statuses rows []

-- the branches of a pipeline, under their own names and with their own pipeline
abbrev pub branch_targets :
    String → SearchPipeline → List BranchConfig → List (String × SearchPipeline)
branch_targets name config [] = []
branch_targets name config (b ∷ bs) =
    (branch_name name b, with_pipeline config b.pipeline) ∷ branch_targets name config bs

unfoldable pub all_targets : Dict String SearchPipeline → List (String × SearchPipeline)
all_targets [] = []
all_targets ((name, config) ∷ rest) =
    (name, config) ∷ (branch_targets name config config.storage.branches ++ all_targets rest)

module _ (hexdigest : Json → String) (catalog : SinkCatalog) where
  unfoldable pub view_targets_of :
      List (String × SearchPipeline) → Dict String (Option String) → Dict String (Option String)
  view_targets_of [] found = found
  view_targets_of ((target, config) ∷ rest) found = view_targets_of rest (
      if member (view_name target) catalog.views
      then insert target
          (view_target (get_version_id hexdigest config)
            (or_else (lookup (view_name target) catalog.view_usage) []))
          found
      else found)

  -- a branch has the row of its parent
  abbrev pub parent_of : String → String
  parent_of target = before_text "_branch_" target

  abbrev pub add_state :
      List String → String → Option StateRow → Dict String ReplicaState → Dict String ReplicaState
  add_state columns target none found = found
  add_state columns target (some row) found = insert target (replica_state_of columns row) found

  unfoldable pub replica_states_of :
      List String
      → List (String × SearchPipeline)
      → Dict String ReplicaState
      → Dict String ReplicaState
  replica_states_of columns [] found = found
  replica_states_of columns ((target, config) ∷ rest) found =
      replica_states_of columns rest
        (add_state columns target (lookup (sub_name (parent_of target)) catalog.states) found)

  abbrev pub states_where :
      Option (List String) → List (String × SearchPipeline) → Dict String ReplicaState
  states_where none targets = []
  states_where (some columns) targets = replica_states_of columns targets []

  unfoldable pub get_sink_state : Settings → SinkState
  get_sink_state settings = record {
    tables = catalog.base_tables;
    views = catalog.views;
    view_targets = view_targets_of (all_targets settings.pipelines) [];
    triggers = keys catalog.triggers;
    replica_states =
        states_where (lookup "_replica_state" catalog.base_tables) (all_targets settings.pipelines);
    vectorizers =
        if member "ai" catalog.extensions then group_vectorizers catalog.vectorizers [] else [];
    vectorizer_statuses = get_vectorizer_statuses catalog.statuses;
    outbox_watermarks =
        if contains "_sink_outbox" catalog.base_tables then watermarks_of catalog.outbox else [];
    mirror_progress =
        if contains "_sink_mirror_registry" catalog.base_tables
        then progress_of catalog.registry
        else [];
  }
