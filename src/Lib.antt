-- ===== src/Lib.antt =====
-- A replica of application tables for search: a declarative settings object names sources, pipelines
-- and mirrors; a reconciler brings a Postgres sink into the state that the settings describe; a worker
-- replays the sink's outbox into external search engines.
--
-- Parts, and where they are modelled (paths from the repository's root):
--
-- - Config: src/pg_replica/config.py. The settings models as records and enumerations, the validators
--   ensure_pkey_in_columns, validate_template and the legacy source of validate_pipelines_and_sources,
--   and get_config_hash / get_version_id. Config.Json is the dictionary that is hashed; SHA-256 of its
--   JSON text is a parameter `hexdigest`. Config.Samples holds sample settings for the tests.
-- - Reconciler: src/pg_replica/reconciler.py. The state that discovery returns (SinkState, SourceState)
--   and the actions of a plan. Reconciler.Planner.Names and Reconciler.Planner.Blocks are the blocks of
--   Planner.plan, Reconciler.Planner.Plan puts them together, and Reconciler.Planner.Branches is
--   Planner._expand_branches. A KeyError of the code is the value `err key_error`. The other modules of
--   Reconciler.Planner are proofs: Shape and Contents follow an action through the loops; Promotion,
--   Cleanup, Drift, Errors and Isolation are named for their subject.
--   Reconciler.Applier.Perform is the dispatch of Applier.apply on the type of an action, over an
--   interface `Operations` of the calls into database.py and the adapters, and Reconciler.Applier.Apply
--   its loop. Reconciler.Loop is Reconciler.reconcile, with proofs in Reconciler.Loop.Outcome,
--   Reconciler.Loop.Applied, Reconciler.Loop.Override and Reconciler.Loop.Stuck.
-- - Control: the tables _replica_config_history (Control.History) and _replica_state (Control.Replica)
--   and the functions on them in src/pg_replica/database.py; Control.Generations holds proofs.
-- - Sync: what the recovery of a target (SINK_RECOVERY in Applier.apply) does to a sink table.
--   Sync.Table is a table under its primary key, Sync.Order and Sync.Sorted are ORDER BY, Sync.Keyset
--   is fetch_batch of src/pg_replica/source/postgres.py, Sync.CatchUp the loop, and Sync.Ghosts is
--   find_and_fix_ghost_records of src/pg_replica/database.py, with proofs in Sync.Exact and Sync.Sweep;
--   Sync.Recovery is a whole recovery from the start.
-- - Source: the fetchers of src/pg_replica/source/local.py (Source.Local) and src/pg_replica/source/s3.py
--   (Source.S3), and the registry of src/pg_replica/source/__init__.py
--   (Source.Registry), with Python's methods and order of texts in Source.Names and Source.TextOrder.
-- - Waiting: wait_until of src/pg_replica/utils.py.
-- - Mirror: src/pg_replica/mirror_worker.py and src/pg_replica/adapters.py. Mirror.Outbox holds the
--   tables _sink_outbox and _sink_mirror_registry and the interface of an adapter; Mirror.Worker is
--   _process_mirror and the loop over all mirrors; Mirror.Qdrant is QdrantSinkAdapter. Mirror.Registry,
--   Mirror.Progress, Mirror.Failure, Mirror.Drain and Mirror.Promotion are about the worker,
--   Mirror.Groups, Mirror.Collect and Mirror.Replay about the adapter.
-- - Handshake: how get_sink_state of src/pg_replica/reconciler.py reads the outbox and the registry of the
--   mirrors for the planner.
--
-- - Inspector: get_sink_state of src/pg_replica/reconciler.py over the catalog of the sink (SinkCatalog);
--   Inspector.ViewTarget and Inspector.Vectorizers are proofs about what it reports.
-- - Capture: setup_outbox_trigger of src/pg_replica/database.py, with the trigger that it attaches to the
--   store of a vectorizer and the back-fill, each of which may fail. What may happen to a store is a step
--   relation, in which the trigger and the back-fill are steps of their own;
--   Capture.Replay applies the outbox again, Capture.Changes and Capture.Covers follow one entry and one
--   step, and Capture.Faithful compares the result with the store.
-- - Views: atomic_view_swap of src/pg_replica/database.py, a transaction over the same catalog; Views.Promoted is
--   about the transaction, and Views.Replanned follows it into discovery.
-- - SinkSetup: setup_sink of src/pg_replica/database.py over the sink, its subscriptions and the slots of the
--   sources (SinkSetup.Databases): SinkSetup.Vectorizer up to the vectorizer, SinkSetup.Subscribe the
--   subscription, SinkSetup.Setup the whole. SinkSetup.Options, SinkSetup.Subscribed and SinkSetup.Elsewhere are
--   about the subscription; SinkSetup.Prepared, SinkSetup.Made, SinkSetup.Settled and SinkSetup.Replans follow a
--   set-up into discovery and the planner; SinkSetup.Waits is about a vectorizer that cannot be made.
--   SinkSetup.Cleanup is cleanup_vectorizer_infrastructure and its composition with the set-up, with
--   proofs in SinkSetup.Relations, SinkSetup.Cascade, SinkSetup.Cleared and SinkSetup.Rebuilt.
-- - EmbeddingCache: ensure_embedding_cache_table of src/pg_replica/database.py, with a proof in
--   EmbeddingCache.Fits.
-- - Teardown: drop_subscription_completely of src/pg_replica/database.py, with LIKE in Teardown.Like;
--   Teardown.Dropping is about the vectorizers that go, and Teardown.Resubscribe follows it into the
--   next pass of the reconciler.
-- - Orchestrator: src/pg_replica/orchestrator.py. Orchestrator.Supervisor is _supervised_run as a step relation over
--   the places where the coroutine stands, and Orchestrator.Watchdog a pass of _replication_loop with
--   monitor_lag of src/pg_replica/source/postgres.py.
-- - Search: src/pg_replica/strategies.py (Search.Postgres, Search.Qdrant) and the dispatch of
--   src/pg_replica/client.py (Search.Client); Search.TopK and Search.Ranking are proofs.
-- - ControlPlane: the endpoints update_config and dry_run of src/pg_replica/observability.py over the settings
--   of the process and the configuration history, with the projections of src/pg_replica/database.py;
--   ControlPlane.Admission and ControlPlane.Preview are proofs.
--
-- The planner reads what discovery found and returns a list of actions; it never changes a state. The
-- worker and the adapter meet in the record SinkAdapter.
-- The planner's handshake reads the progress that the worker writes. The reconciler plans and applies
-- under a lock and records the outcome of each target in the control plane.
--
-- Numbers are natural numbers of any size. The catch-up loop, the sweep by ranges, the wait for a
-- predicate and the cascade of a drop have fuel. For the catch-up a round for each pending row and one
-- more are enough, since a page is never empty while rows are pending; for the sweep the length of the
-- range and one more, since the chunk size is above 0; for the cascade a round for each view.
-- Waiting has an attempt for each unit of the timeout and one more, which is enough where the clock
-- advances between two attempts.
--
-- Parameters stand for what the repository does not contain: the digests, the checksum bit_xor of
-- Postgres, the client of Qdrant with the laws IsEngine, json.loads on an embedding, int on a text,
-- pgai with the laws IsPgai, the walk and the stat of files, the quotient of Postgres, the search
-- engine and the embedding service, list_objects_v2 of S3, the clock, and discovery and the statements of
-- the sink's set-up as interfaces of the reconciler.
--
-- An exception is a value of Exn, which is what `except Exception` catches. The cancellation of a task is
-- modelled in Orchestrator; elsewhere a call is not cancelled.
--
-- Not modelled: texts for the log; the SQL that creates the tables of the control plane and the outbox,
-- publications and slots; the types of columns; the wait for a source table; the serve profiles;
-- starting a local server; warm_up_from_cache; the command line, the metrics and the endpoints that only read.
pub mod Prelude
pub mod Config
pub mod Control
pub mod Reconciler
pub mod Sync
pub mod Source
pub mod Waiting
pub mod Mirror
pub mod Handshake
pub mod Inspector
pub mod Capture
pub mod Views
pub mod Teardown
pub mod Orchestrator
pub mod Search
pub mod ControlPlane
pub mod SinkSetup
pub mod EmbeddingCache
