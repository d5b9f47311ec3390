-- ===== src/Reconciler/Loop/Tests.antt =====
-- A pass of the reconciler over a small control plane, with databases that count the calls.
use postgres_search_replica.Prelude.{
  ℕ, suc, ◌≡◌, refl, inl, String, string_eq, nat_eq, true, none, some, List, [], ◌∷◌,
}
use postgres_search_replica.Prelude.Dict.{Dict}
use postgres_search_replica.Prelude.Effects.{Exn, runtime_error, key_error, Result, ok, err}
use postgres_search_replica.Config.{SearchPipeline, Settings}
use postgres_search_replica.Config.Json.{Json}
use postgres_search_replica.Config.Samples.{books, book_settings}
use postgres_search_replica.Control.History.{pending, HistoryRow, get_latest_table_config}
use postgres_search_replica.Reconciler.{
  sink_state_init, sink_cache_setup, sink_recovery, Params, Action, ReplicaState, SinkState,
  SourceState,
}
use postgres_search_replica.Reconciler.Planner.Names.{action}
use postgres_search_replica.Reconciler.Applier.Perform.{Call, Operations}
use postgres_search_replica.Reconciler.Applier.Apply.{Plane}
use postgres_search_replica.Reconciler.Loop.{plan_all, load_overrides, load_from, load_override}
use postgres_search_replica.Reconciler.Loop.Stuck.{loaded, pass, reconcile-stuck}

abbrev count : Call ℕ
count n = (suc n, ok tt)

abbrev broken : Call ℕ
broken n = (n, err (runtime_error "down"))

-- every call is counted, and a recovery is refused
abbrev counters : Operations ℕ
counters = record {
  prepare_sync = λ t c. count;
  setup_state_table = λ t. count;
  create_sink_table = λ t c. count;
  add_sink_columns = λ t cs c. count;
  cleanup_vectorizer_infrastructure = λ c t s. count;
  setup_sink = λ c t s. count;
  warm_up_from_cache = λ c t s. count;
  setup_outbox_trigger = λ t s c. count;
  log_experiment_start = λ t v. count;
  ensure_outbox_infrastructure = count;
  atomic_view_swap = λ c t h r s. count;
  log_experiment_finish = λ t v. count;
  recover = λ c t. broken;
  ensure_embedding_cache_table = λ c. count;
}

abbrev message : Exn → String
message x = "down"

abbrev digest : Json → String
digest j = "0123456789abcdef"

abbrev second : HistoryRow SearchPipeline
second = record {
  target_name = "books";
  config_json = books;
  config_hash = "01234567";
  generation = 2;
  status = pending;
  error_message = none;
  observed_generation = 1;
}

abbrev plane : Plane ℕ SearchPipeline
plane = record { databases = 0; history = second ∷ [] }

abbrev reached : SourceState
reached = record {
  is_reachable = true;
  publications =
      some (
        ("pub_books", ("books", none) ∷ [])
        ∷ ("pub_books_branch_small", ("books", none) ∷ [])
        ∷ []);
  slots = some [];
}

abbrev sources : Dict String SourceState
sources = ("default", reached) ∷ []

abbrev empty_sink : SinkState
empty_sink = record {
  tables = [];
  views = [];
  view_targets = [];
  triggers = [];
  replica_states = [];
  vectorizers = [];
  vectorizer_statuses = [];
  outbox_watermarks = [];
  mirror_progress = [];
}

abbrev discovered : Settings → ℕ → Result (Dict String SourceState × SinkState)
discovered settings n = ok (sources, empty_sink)

abbrev recovery : Action
recovery = action sink_recovery Params.empty (some "books")

abbrev cache : Action
cache = action sink_cache_setup Params.empty (some "books")

-- a state table from before the column `config_hash`
abbrev old_row : ReplicaState
old_row = record { last_id = some "7"; last_lsn = none; config_hash = none }

abbrev outdated : SinkState
outdated = record empty_sink { replica_states = ("books", old_row) ∷ [] }

abbrev found_outdated : Settings → ℕ → Result (Dict String SourceState × SinkState)
found_outdated settings n = ok (sources, outdated)

reconcile-stuck_example :
    pass counters message digest ok found_outdated count book_settings plane
    ≡ (record plane { databases = 1 }, err key_error)
unfolding load_overrides load_from load_override get_latest_table_config
reconcile-stuck_example =
    reconcile-stuck counters message digest ok found_outdated count book_settings plane "books"
      (record books { generation = some 2 }) sources outdated refl refl (inl refl)
      (record { row = old_row; found = refl; old = refl })

abbrev in_use : Settings
in_use = loaded counters message digest ok discovered count book_settings plane

abbrev tail : Result (List Action) → List Action
tail (ok (a ∷ actions)) = actions
tail _ = []

abbrev head : Action
head = action sink_state_init Params.empty none

abbrev rest : List Action
rest = tail (plan_all counters message digest ok discovered count in_use sources empty_sink)
