-- ===== src/SinkSetup.antt =====
-- `setup_sink` of src/pg_replica/database.py: the raw table, the vectorizer and the subscription of a target;
-- and `cleanup_vectorizer_infrastructure`, which is called before it.
pub mod Databases
pub mod Subscribe
pub mod Options
pub mod Subscribed
pub mod Vectorizer
pub mod Setup
pub mod Prepared
pub mod Made
pub mod Settled
pub mod Replans
pub mod Cleanup
pub mod Rebuilt
pub mod Relations
pub mod Cascade
pub mod Cleared
pub mod Waits
mod Tests
pub mod Elsewhere
