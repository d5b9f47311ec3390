-- ===== src/EmbeddingCache.antt =====
-- The embedding cache of src/pg_replica/database.py: `ensure_embedding_cache_table`. V is the type of vectors.
pub mod Fits
use postgres_search_replica.Prelude.{
  ℕ, String, string_eq, nat_eq, ◌==◌, Option, none, some, or_else, List, [], ◌∷◌, ◌++◌, concat,
  if◌then◌else◌,
}
use postgres_search_replica.Prelude.Dict.{Dict, lookup, contains}
use postgres_search_replica.Config.{SearchPipeline}

-- the table _embedding_cache: the dimension of its vectors, if it is declared, and its rows by hash
pub record Cache (V : Type 0) : Type 0 where
  pub dimension : Option ℕ
  pub rows : Dict String V

module _ {V : Type 0} where
  -- a cache of another dimension is purged
  unfoldable pub purge : ℕ → Option (Cache V) → Option (Cache V)
  purge dimension none = none
  purge dimension (some cache) = elim cache.dimension [
    | none ↦ some cache
    | some current ↦ if current == dimension then some cache else none
  ]

  -- CREATE TABLE IF NOT EXISTS
  unfoldable pub create_cache : ℕ → Option (Cache V) → Cache V
  create_cache dimension none = record { dimension = some dimension; rows = [] }
  create_cache dimension (some cache) = cache

  unfoldable pub ensure_embedding_cache_table : SearchPipeline → Option (Cache V) → Cache V
  ensure_embedding_cache_table config cache =
      create_cache config.pipeline.embedding.dimension
        (purge config.pipeline.embedding.dimension cache)
