-- ===== src/Handshake/Tests.antt =====
-- The handshake for one pipeline with one mirror.
use postgres_search_replica.Prelude.{
  ◌≡◌, ◌≢◌, refl, inl, String, string_eq, nat_eq, pair_eq, true, none, [], ◌∷◌,
}
use postgres_search_replica.Config.Samples.{books}
use postgres_search_replica.Sync.Order.{order_by, nat_order}
use postgres_search_replica.Reconciler.{SinkState}
use postgres_search_replica.Reconciler.Planner.Plan.{is_synced, mirrors_caught_up}
use postgres_search_replica.Mirror.Outbox.{OutboxRow, Sink, last_processed}
use postgres_search_replica.Mirror.Progress.{backlog}
use postgres_search_replica.Handshake.{watermarks_of, progress_of, Discovered, is_synced-backlog}

abbrev row : String → OutboxRow
row version = record {
  target_name = "books";
  version_id = version;
  source_id = "a";
  action = "DELETE";
  payload = none;
}

-- the mirror has processed the entries of the new version, and not those of a later one
abbrev tables : Sink
tables = record {
  outbox = (5, row "01234567") ∷ (8, row "89abcdef") ∷ [];
  registry =
      (
        ("engine", "books"),
        record {
          last_processed_id = 5;
          promoted_version_id = none;
          error_count = 0;
          last_error = none;
          last_sync_latency_ms = none;
        },
      )
      ∷ [];
  hashes = [];
}

abbrev sink : SinkState
sink = record {
  tables = [];
  views = [];
  view_targets = [];
  triggers = [];
  replica_states = [];
  vectorizers = [];
  vectorizer_statuses = ("books_store_v01234567", 0) ∷ [];
  outbox_watermarks = ("89abcdef", 8) ∷ ("01234567", 5) ∷ [];
  mirror_progress = (("engine", "books"), 5) ∷ [];
}

sink-Discovered : Discovered sink tables
unfolding watermarks_of progress_of
sink-Discovered = record { watermarks = refl; progress = refl }

synced : is_synced sink "books" books "01234567" ≡ true
unfolding is_synced mirrors_caught_up
synced = refl

is_synced-backlog_example : (row "89abcdef").version_id ≢ "01234567"
unfolding backlog order_by last_processed
is_synced-backlog_example =
    is_synced-backlog sink tables "books" books "01234567" "engine" (8, row "89abcdef")
      sink-Discovered synced (inl refl) (inl refl)
