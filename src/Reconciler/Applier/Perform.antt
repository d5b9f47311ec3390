-- ===== src/Reconciler/Applier/Perform.antt =====
-- What the Applier calls for each type of action (reconciler.py). The statements that the calls send to the
-- databases are an interface here, `Operations`; the catch-up of `recover` is in Sync.
use postgres_search_replica.Prelude.{String, string_eq, Option, none, some, List, if◌then◌else◌}
use postgres_search_replica.Prelude.Dict.{lookup}
use postgres_search_replica.Prelude.Effects.{attribute_error, key_error, Result, ok, err, and_then}
use postgres_search_replica.Config.{SearchPipeline, Settings, truthy}
use postgres_search_replica.Reconciler.{
  source_setup, sink_table_evolve, sink_vectorizer_setup, sink_view_setup, sink_state_init,
  sink_recovery, sink_cache_setup, sink_table_cleanup, sink_outbox_setup, Params, create_table,
  add_columns, outbox_trigger, orphan, Action,
}
use postgres_search_replica.Reconciler.Planner.Names.{store_name}

-- A call changes the state S of the databases and may raise.
abbrev pub Call : Type 0 → Type 0
Call S = S → S × Result (Unit {0})

-- The functions of database.py and of the source adapters that the Applier calls. A target may be
-- None.
pub record Operations (S : Type 0) : Type 0 where
  pub prepare_sync : Option String → SearchPipeline → Call S
  pub setup_state_table : String → Call S
  pub create_sink_table : String → SearchPipeline → Call S
  pub add_sink_columns : String → List String → SearchPipeline → Call S
  pub cleanup_vectorizer_infrastructure : SearchPipeline → Option String → String → Call S
  pub setup_sink : SearchPipeline → Option String → String → Call S
  pub warm_up_from_cache : SearchPipeline → String → String → Call S
  pub setup_outbox_trigger : Option String → String → Option SearchPipeline → Call S
  pub log_experiment_start : Option String → String → Call S
  pub ensure_outbox_infrastructure : Call S
  pub atomic_view_swap : SearchPipeline → Option String → String → String → String → Call S
  pub log_experiment_finish : Option String → String → Call S
  pub recover : SearchPipeline → Option String → Call S
  pub ensure_embedding_cache_table : Option SearchPipeline → Call S

-- `pipelines[target] if target and target in pipelines else None`
abbrev pub known_config : Settings → Option String → Option SearchPipeline
known_config settings none = none
known_config settings (some t) = if truthy (some t) then lookup t settings.pipelines else none

-- the ephemeral configuration of a branch, or that of the settings
unfoldable pub config_of : Settings → Action → Option SearchPipeline
config_of settings a = elim a.ephemeral_config [
  | some c ↦ some c
  | none ↦ known_config settings a.target_name
]

-- `target_name or "global"`
abbrev pub or_global : Option String → String
or_global none = "global"
or_global (some t) = if truthy (some t) then t else "global"

-- `params.get("vectorizer_target_name") or f"{table}_store_v{version_id}"`
abbrev pub store_of : Option String → SearchPipeline → String → String
store_of none config version = store_name config.ingest.table version
store_of (some t) config version =
    if truthy (some t) then t else store_name config.ingest.table version

module _ {S : Type 0} (ops : Operations S) where
  -- an attribute of None
  abbrev pub with_config : Option SearchPipeline → (SearchPipeline → Call S) → Call S
  with_config none f s = (s, err attribute_error)
  with_config (some c) f s = f c s

  -- SINK_TABLE_EVOLVE: `params["table"]` is read first
  unfoldable pub evolve : Params → Option SearchPipeline → Call S
  evolve (create_table table) config = with_config config (ops.create_sink_table table)
  evolve (add_columns table columns) config =
      with_config config (ops.add_sink_columns table columns)
  evolve _ config = λ s. (s, err key_error)

  unfoldable pub set_up_vectorizer : Params → Option String → Option SearchPipeline → Call S
  set_up_vectorizer (Params.vectorizer version name publication) target config =
      with_config config (λ c s.
        let store = store_of name c version in
        and_then
          (and_then
            (and_then
              (and_then (ops.cleanup_vectorizer_infrastructure c target store s)
                (ops.setup_sink c target store))
              (ops.warm_up_from_cache c c.ingest.table store))
            (ops.setup_outbox_trigger target store (some c)))
          (ops.log_experiment_start target version))
  set_up_vectorizer _ target config = λ s. (s, err key_error)

  unfoldable pub set_up_outbox : Params → Option String → Option SearchPipeline → Call S
  set_up_outbox params target config =
      if truthy target
      then elim params [
        | outbox_trigger store trigger version ↦ ops.setup_outbox_trigger target store config
        | _ ↦ λ s. (s, err key_error)
      ]
      else ops.ensure_outbox_infrastructure

  unfoldable pub set_up_view : Params → Option String → Option SearchPipeline → Call S
  set_up_view (Params.view hash version name) target config = with_config config (λ c s.
      and_then (ops.atomic_view_swap c target hash c.ingest.table (store_of name c version) s)
        (ops.log_experiment_finish target version))
  set_up_view _ target config = λ s. (s, err key_error)

  -- The clean-up of an orphan is a placeholder: it does nothing.
  unfoldable pub clean_up : Params → Call S
  clean_up (orphan id target) = λ s. (s, ok tt)
  clean_up _ = λ s. (s, err key_error)

  unfoldable pub perform : Settings → Action → Call S
  perform settings a = elim a.type [
    | source_setup ↦ with_config (config_of settings a) (ops.prepare_sync a.target_name)
    | sink_state_init ↦ ops.setup_state_table (or_global a.target_name)
    | sink_table_evolve ↦ evolve a.params (config_of settings a)
    | sink_vectorizer_setup ↦ set_up_vectorizer a.params a.target_name (config_of settings a)
    | sink_outbox_setup ↦ set_up_outbox a.params a.target_name (config_of settings a)
    | sink_view_setup ↦ set_up_view a.params a.target_name (config_of settings a)
    | sink_recovery ↦ with_config (config_of settings a) (λ c. ops.recover c a.target_name)
    | sink_cache_setup ↦ ops.ensure_embedding_cache_table (config_of settings a)
    | sink_table_cleanup ↦ clean_up a.params
  ]
