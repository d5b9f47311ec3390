-- ===== src/ControlPlane.antt =====
-- The endpoints of src/pg_replica/observability.py that change a configuration or preview it, over the
-- settings of the process and the configuration history. `inspect` stands for the discovered
-- states, `dump` for `config.model_dump()`, and `row_count` for the count of the source table.
pub mod Endpoints
pub mod Admission
pub mod Preview
mod Tests
