-- ===== src/Mirror.antt =====
-- The outbox of the sink and the worker that replays it into external search engines:
-- src/pg_replica/mirror_worker.py and src/pg_replica/adapters.py.
pub mod Outbox
pub mod Worker
pub mod Registry
pub mod Progress
pub mod Failure
pub mod Drain
pub mod Promotion
pub mod Qdrant
pub mod Groups
pub mod Collect
pub mod Replay
mod Tests
