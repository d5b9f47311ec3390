-- ===== src/Control.antt =====
-- The control plane in the sink: the history of configurations and the state of each replica
-- (src/pg_replica/database.py).
pub mod History
pub mod Generations
pub mod Replica
mod Tests
