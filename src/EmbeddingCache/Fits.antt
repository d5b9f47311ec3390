-- ===== src/EmbeddingCache/Fits.antt =====
-- The dimension of the vectors after `ensure_embedding_cache_table` of src/pg_replica/database.py.
use postgres_search_replica.Prelude.{
  ℕ, ◌==◌, ◌≡◌, ap, ◌∙◌, inl, inr, true, Option, none, some, refl, nat_eq, ◌⊎◌, arith, Bool-cases,
  Option-cases,
}
use postgres_search_replica.EmbeddingCache.{
  Cache, purge, create_cache, ensure_embedding_cache_table,
}
use postgres_search_replica.Config.{SearchPipeline}

-- The cache that a pipeline is given has vectors of its dimension, or of none that is declared.
pub ensure-fits :
    {V : Type 0} (config : SearchPipeline) (cache : Option (Cache V))
    → ((ensure_embedding_cache_table config cache).dimension
        ≡ some config.pipeline.embedding.dimension)
      ⊎ ((ensure_embedding_cache_table config cache).dimension ≡ none)
unfolding ensure_embedding_cache_table purge create_cache
ensure-fits config none = inl refl
ensure-fits config (some cache) = elim (Option-cases cache.dimension) [
  | inl n ↦ rw (ensure_embedding_cache_table, purge, n, create_cache) (inr n)
  | inr (d, s) ↦ elim (Bool-cases (d == config.pipeline.embedding.dimension)) [
    | inl e ↦
        rw (ensure_embedding_cache_table, purge, s, e, create_cache) (inl (s ∙ ap some (same d e)))
    | inr f ↦ rw (ensure_embedding_cache_table, purge, s, f, create_cache) (inl refl)
  ]
]
  where
    same :
        (d : ℕ)
        → (d == config.pipeline.embedding.dimension) ≡ true
        → d ≡ config.pipeline.embedding.dimension
    same d e = ground (arith, e)
