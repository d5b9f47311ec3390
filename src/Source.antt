-- ===== src/Source.antt =====
-- The file sources, src/pg_replica/source/local.py and src/pg_replica/source/s3.py, and the registry of adapters,
-- src/pg_replica/source/__init__.py.
pub mod Names
pub mod TextOrder
pub mod Local
pub mod S3
pub mod Registry
mod Tests
