-- ===== src/Reconciler/Planner.antt =====
-- `Planner` of src/pg_replica/reconciler.py: names, the blocks of `plan`, `plan` itself, the branch
-- expansion, and what is proved of them.
pub mod Names
pub mod Blocks
pub mod Plan
pub mod Branches
pub mod Shape
pub mod Contents
pub mod Cleanup
pub mod Drift
pub mod Errors
pub mod Isolation
pub mod Promotion
mod Tests
