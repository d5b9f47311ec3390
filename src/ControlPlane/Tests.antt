-- ===== src/ControlPlane/Tests.antt =====
-- The endpoints that change or preview a configuration, at concrete settings and states.
use postgres_search_replica.Prelude.{
  ℕ, String, string_eq, nat_eq, pair_eq, ◌≡◌, ◌↔◌, refl, ap, true, none, some, arith, [], ◌∷◌,
}
use postgres_search_replica.Prelude.Dict.{Dict}
use postgres_search_replica.Prelude.Effects.{Result, ok, err, key_error}
use postgres_search_replica.Config.{SearchPipeline, strategy_of}
use postgres_search_replica.Config.Json.{Json}
use postgres_search_replica.Config.Hash.{get_config_hash, get_version_id}
use postgres_search_replica.Config.Samples.{book_pipeline, books, book_settings}
use postgres_search_replica.Reconciler.{ReplicaState, SinkState, SourceState}
use postgres_search_replica.Reconciler.Planner.Blocks.{
  read_config_hash, state_table_actions, outbox_actions, cache_actions, source_actions,
  publication_drift, table_actions, missing_columns, recovery_actions, needs_recovery,
  vectorizer_actions, vectorizer_exists, trigger_actions,
}
use postgres_search_replica.Reconciler.Planner.Plan.{
  plan, plan_pipelines, plan_pipeline, plan_known, view_actions, should_promote, is_synced,
  mirrors_caught_up, cleanup_actions, reachable_actions, managed_vectorizers, managed_branches,
}
use postgres_search_replica.ControlPlane.Endpoints.{
  Process, Preview, answered, raised, set_pipeline, proposed_plan, update_config, dry_run,
}
use postgres_search_replica.ControlPlane.Admission.{Admits, update_config-Admits}
use postgres_search_replica.ControlPlane.Preview.{dry_run-leaks, dry_run_keeps_iff}

abbrev digest : Json → String
digest j = "0123456789abcdef"

abbrev dump : SearchPipeline → SearchPipeline
dump config = config

abbrev sources : Dict String SourceState
sources =
    (
      "default",
      record {
        is_reachable = true;
        publications = some (("pub_books", ("books", none) ∷ []) ∷ []);
        slots = some ("sub_books" ∷ []);
      },
    )
    ∷ []

-- a state table from before the column `config_hash`
abbrev old_row : ReplicaState
old_row = record { last_id = some "7"; last_lsn = none; config_hash = none }

abbrev outdated : SinkState
outdated = record {
  tables = ("_replica_state", "last_id" ∷ []) ∷ [];
  views = [];
  view_targets = [];
  triggers = [];
  replica_states = ("books", old_row) ∷ [];
  vectorizers = [];
  vectorizer_statuses = [];
  outbox_watermarks = [];
  mirror_progress = [];
}

abbrev proposal : SearchPipeline
proposal = record books { pipeline = book_pipeline 256 }

abbrev process : Process SearchPipeline
process = record { settings = book_settings; history = [] }

abbrev discovered : Result (Dict String SourceState × SinkState)
discovered = ok (sources, outdated)

unplanned :
    proposed_plan digest dump discovered "books" proposal process.settings (sources, outdated)
    ≡ err key_error
unfolding plan plan_pipelines plan_pipeline plan_known read_config_hash state_table_actions
    outbox_actions cache_actions source_actions publication_drift table_actions missing_columns
    recovery_actions needs_recovery vectorizer_actions vectorizer_exists trigger_actions
    view_actions should_promote is_synced mirrors_caught_up cleanup_actions reachable_actions
    managed_vectorizers managed_branches get_config_hash get_version_id strategy_of
unplanned = refl

update_config-Admits_example :
    Admits digest dump discovered "books" proposal process
      (update_config digest dump discovered "books" proposal process)
update_config-Admits_example = update_config-Admits digest dump discovered "books" proposal process

apart : ¬ (proposal ≡ books)
apart h = elim (size_apart (ap (λ (config : SearchPipeline). config.pipeline.chunking.size) h)) [ ]
  where
    size_apart : ¬ (◌≡◌ {A = ℕ} 256 512)
    size_apart e = omega arith

dry_run_keeps_iff_example :
    ((dry_run digest dump discovered (ok 1000) "books" (some proposal) process).0.settings
      ≡ process.settings)
    ↔ ((a : Preview) × ((dry_run digest dump discovered (ok 1000) "books" (some proposal) process).1
          ≡ answered a))
dry_run_keeps_iff_example =
    dry_run_keeps_iff digest dump (sources, outdated) (ok 1000) "books" books proposal process refl
      apart

-- and here the proposal stays
proposal_left : dry_run digest dump discovered (ok 1000) "books" (some proposal) process ≡ (
  record process { settings = set_pipeline "books" proposal process.settings },
  raised key_error,
)
proposal_left =
    dry_run-leaks digest dump (sources, outdated) (ok 1000) "books" books proposal process refl
      key_error unplanned
