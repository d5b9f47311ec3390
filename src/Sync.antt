-- ===== src/Sync.antt =====
-- The recovery of a target: SINK_RECOVERY of `Applier.apply` in src/pg_replica/reconciler.py, the
-- fetchers in src/pg_replica/source/, and the ghost cleaner of src/pg_replica/database.py.
pub mod Order
pub mod Table
pub mod Sorted
pub mod Keyset
pub mod CatchUp
pub mod Exact
pub mod Ghosts
pub mod Sweep
pub mod Recovery
mod Tests
