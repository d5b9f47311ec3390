-- ===== src/Reconciler/Applier.antt =====
-- `Applier.apply` of src/pg_replica/reconciler.py: the dispatch of an action on its type, and the
-- loop that skips the targets that have failed.
pub mod Perform
pub mod Apply
pub mod Skip
