-- ===== src/Reconciler/Planner/Blocks.antt =====
-- `plan` of reconciler.py collects its actions block by block; each block is a function that
-- returns the actions which it appends. The order of a set of missing columns is the config's.
use postgres_search_replica.Prelude.{
  String, Bool, true, false, ◌&&◌, not, Option, none, some, List, [], ◌∷◌, ◌==◌, string_eq, or_else,
  any, keep, concat, if◌then◌else◌,
}
use postgres_search_replica.Prelude.Dict.{lookup, contains, member, dedup}
use postgres_search_replica.Prelude.Effects.{Result, ok, err, key_error}
use postgres_search_replica.Config.{
  Strategy, cdc, polling, SourceConfig, strategy_of, SearchPipeline, Settings, truthy,
}
use postgres_search_replica.Reconciler.{
  source_setup, sink_table_evolve, sink_vectorizer_setup, sink_state_init, sink_recovery,
  sink_cache_setup, sink_outbox_setup, Params, create_table, add_columns, outbox_trigger, Action,
  Vectorizer, ReplicaState, SinkState, SourceState,
}
use postgres_search_replica.Reconciler.Planner.Names.{action, store_name, trigger_name, is_target}

-- 1: the table of replica states
unfoldable pub state_table_actions : Option (List String) → List Action
state_table_actions none = action sink_state_init Params.empty none ∷ []
state_table_actions (some cols) =
    if member "config_hash" cols
    then []
    else action sink_table_evolve (add_columns "_replica_state" ("config_hash" ∷ [])) none ∷ []

-- 1.5: the outbox
unfoldable pub outbox_actions : SinkState → List Action
outbox_actions sink =
    if contains "_sink_outbox" sink.tables
    then []
    else action sink_outbox_setup Params.empty none ∷ []

-- the first test of the loop over the pipelines
unfoldable pub cache_actions : SinkState → Bool → String → List Action
cache_actions sink added name =
    if not (contains "_embedding_cache" sink.tables) && not added
    then action sink_cache_setup Params.empty (some name) ∷ []
    else []

-- `replica_state["config_hash"] if replica_state else None`
unfoldable pub read_config_hash : Option ReplicaState → Result (Option String)
read_config_hash none = ok none
read_config_hash (some r) = elim r.config_hash [ none ↦ err key_error | some h ↦ ok h ]

-- 2.1: does the publication of a CDC source differ from what the pipeline wants?
abbrev pub desired_filter : SearchPipeline → Option String
desired_filter config =
    if truthy config.ingest.filter
    then some (concat ("(" ∷ or_else config.ingest.filter "" ∷ ")" ∷ []))
    else none

abbrev pub same_filter : Option String → Option String → Bool
same_filter none none = true
same_filter none (some b) = false
same_filter (some a) none = false
same_filter (some a) (some b) = a == b

unfoldable pub publication_drift : SourceState → String → SearchPipeline → Bool
publication_drift state name config =
    elim (lookup (concat ("pub_" ∷ name ∷ [])) (or_else state.publications [])) [
      | none ↦ true
      | some tables ↦ elim (lookup config.ingest.table tables) [
        | none ↦ true
        | some current ↦ not (same_filter current (desired_filter config))
      ]
    ]

abbrev pub is_cdc : Option Strategy → Bool
is_cdc none = false
is_cdc (some cdc) = true
is_cdc (some polling) = false

unfoldable pub source_actions :
    Settings → SourceState → String → SearchPipeline → Option SourceConfig → List Action
source_actions settings state name config none = []
source_actions settings state name config (some source_config) =
    if is_cdc (strategy_of source_config)
    then (if publication_drift state name config && not settings.source_managed_by_admin
        then action source_setup Params.empty (some name) ∷ []
        else [])
    else action source_setup Params.empty (some name) ∷ []

-- 2.2: the raw table
unfoldable pub missing_columns : SearchPipeline → List String → List String
missing_columns config current = dedup (keep (λ c. not (member c current)) config.ingest.columns)

abbrev pub add_missing : String → String → List String → List Action
add_missing name table [] = []
add_missing name table (c ∷ cs) =
    action sink_table_evolve (add_columns table (c ∷ cs)) (some name) ∷ []

unfoldable pub table_actions : SinkState → String → SearchPipeline → List Action
table_actions sink name config = elim (lookup config.ingest.table sink.tables) [
  | none ↦ action sink_table_evolve (create_table config.ingest.table) (some name) ∷ []
  | some current ↦ add_missing name config.ingest.table (missing_columns config current)
]

-- 2.3: recovery, for a CDC source without a slot and for any other without a synced row
abbrev pub never_synced : Option ReplicaState → Bool
never_synced none = true
never_synced (some r) = elim r.last_id [ none ↦ true | some id ↦ id == "0" ]

unfoldable pub needs_recovery : SourceState → SinkState → String → Option SourceConfig → Bool
needs_recovery state sink name source_config =
    if elim source_config [ none ↦ true | some c ↦ is_cdc (strategy_of c) ]
    then not (member (concat ("sub_" ∷ name ∷ [])) (or_else state.slots []))
    else never_synced (lookup name sink.replica_states)

unfoldable pub recovery_actions :
    SourceState → SinkState → String → Option SourceConfig → List Action
recovery_actions state sink name source_config =
    if needs_recovery state sink name source_config
    then action sink_recovery Params.empty (some name) ∷ []
    else []

-- 2.4: the vectorizer of this version, and the outbox trigger on it
abbrev pub vectorizers_of : SinkState → String → List Vectorizer
vectorizers_of sink table = or_else (lookup table sink.vectorizers) []

unfoldable pub vectorizer_exists : SinkState → String → String → Bool
vectorizer_exists sink table target =
    any (λ v. is_target target v.target_table) (vectorizers_of sink table)

unfoldable pub vectorizer_actions : SinkState → String → String → String → List Action
vectorizer_actions sink name table version =
    if vectorizer_exists sink table (store_name table version)
    then []
    else action sink_vectorizer_setup (Params.vectorizer version none none) (some name) ∷ []

unfoldable pub trigger_actions : SinkState → String → String → String → List Action
trigger_actions sink name table version =
    let target = store_name table version in
    if vectorizer_exists sink table target && not (member (trigger_name name version) sink.triggers)
    then action sink_outbox_setup (outbox_trigger target (trigger_name name version) version)
        (some name)
      ∷ []
    else []
