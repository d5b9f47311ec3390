-- ===== src/Search/Client.antt =====
-- `PGSearchReplica.search` of src/pg_replica/client.py: which pipeline and which strategy answer. `embed` is the
-- call of the embedding service with the pipeline's model.
use postgres_search_replica.Prelude.{
  String, string_eq, ◌==◌, ◌≡◌, ◌≢◌, refl, ap, ◌∙◌, Option, none, some, or_else, [], ◌∷◌, arith,
  concat, eq_iff, if◌then◌else◌,
}
use postgres_search_replica.Prelude.Dict.{Dict, lookup}
use postgres_search_replica.Prelude.Effects.{Result, ok, err, value_error, runtime_error, ◌>>=◌}
use postgres_search_replica.Config.{SearchPipeline, truthy}

pub data Strategy : Type 0 where
  postgres qdrant : Strategy

-- `strategies.get(search_engine)`
unfoldable pub strategy_of : String → Option Strategy
strategy_of engine =
    if engine == "postgres" then some postgres else if engine == "qdrant" then some qdrant else none

-- `table or next(iter(pipelines))`: no pipeline at all raises StopIteration, a RuntimeError in a
-- coroutine
unfoldable pub target_of : Option String → Dict String SearchPipeline → Result String
target_of table [] =
    if truthy table
    then ok (or_else table "")
    else err (runtime_error "coroutine raised StopIteration")
target_of table ((name, config) ∷ rest) = ok (if truthy table then or_else table "" else name)

abbrev pub engine_of : Option String → String
engine_of engine = if truthy engine then or_else engine "" else "postgres"

module _ {V A : Type 0} (embed : String → Result V)
    (run : Strategy → String → SearchPipeline → V → Result A) where
  unfoldable pub pipeline_of : String → Dict String SearchPipeline → Result SearchPipeline
  pipeline_of target pipelines = elim (lookup target pipelines) [
    | none ↦ err (value_error (concat ("Table configuration '" ∷ target ∷ "' not found." ∷ [])))
    | some config ↦ ok config
  ]

  unfoldable pub supported : String → Result Strategy
  supported engine = elim (strategy_of engine) [
    | none ↦ err (value_error (concat ("Unsupported search engine: " ∷ engine ∷ [])))
    | some strategy ↦ ok strategy
  ]

  unfoldable pub search : Option String → Option String → Dict String SearchPipeline → Result A
  search table engine pipelines = do
    target ← target_of table pipelines
    config ← pipeline_of target pipelines
    embedding ← embed config.pipeline.embedding.model
    strategy ← supported (engine_of engine)
    run strategy target config embedding

  -- A search that names a configured table and a known engine, or no engine, is the run of that
  -- engine's strategy on that pipeline with the embedding of the pipeline's model.
  pub search-runs :
      (table : String) (engine : Option String) (pipelines : Dict String SearchPipeline)
      (config : SearchPipeline) (embedding : V) (strategy : Strategy)
      → table ≢ ""
      → lookup table pipelines ≡ some config
      → embed config.pipeline.embedding.model ≡ ok embedding
      → strategy_of (engine_of engine) ≡ some strategy
      → search (some table) engine pipelines ≡ run strategy table config embedding
  unfolding search target_of pipeline_of supported
  search-runs table engine pipelines config embedding strategy named there embedded known =
      ap (λ t. t >>= rest) (targeted pipelines)
      ∙ rw (pipeline_of, there, embedded, supported, known) refl
    where
      rest : String → Result A
      rest target = do
        c ← pipeline_of target pipelines
        e ← embed c.pipeline.embedding.model
        s ← supported (engine_of engine)
        run s target c e

      targeted : (ps : Dict String SearchPipeline) → target_of (some table) ps ≡ ok table
      targeted [] = ground (arith, eq_iff table "", named)
      targeted ((name, c) ∷ ps) = ground (arith, eq_iff table "", named)
