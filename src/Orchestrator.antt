-- ===== src/Orchestrator.antt =====
-- src/pg_replica/orchestrator.py: the supervision of a worker and the pass of the watchdog.
pub mod Supervisor
pub mod Watchdog
mod Tests
