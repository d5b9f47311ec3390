-- ===== src/Search.antt =====
-- `PGSearchReplica.search` of src/pg_replica/client.py and the strategies of src/pg_replica/strategies.py.
pub mod Postgres
pub mod Ranking
pub mod TopK
pub mod Qdrant
pub mod Client
mod Tests
