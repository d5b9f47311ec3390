-- ===== src/Config/Json.antt =====
-- The JSON value that `get_config_hash` of config.py hashes: `model_dump` of its parts.
use postgres_search_replica.Prelude.{ℕ, String, Option, none, some, List, [], ◌∷◌}
use postgres_search_replica.Config.{
  IngestConfig, ChunkStrategy, ChunkingConfig, Provider, EmbeddingConfig, ParsingStrategy,
  PipelineConfig, Profile, SearchPipeline,
}

mutual
  pub data Json : Type 0 where
    null : Json
    num : ℕ → Json
    str : String → Json
    arr : Items → Json
    obj : Fields → Json

  pub data Items : Type 0 where
    nil : Items
    cons : Json → Items → Items

  pub data Fields : Type 0 where
    end : Fields
    field : String → Json → Fields → Fields

unfoldable pub dump_option : Option String → Json
dump_option none = null
dump_option (some s) = str s

unfoldable pub dump_list : List String → Items
dump_list [] = nil
dump_list (s ∷ rest) = cons (str s) (dump_list rest)

unfoldable pub dump_ingest : IngestConfig → Json
unfolding dump_option dump_list
dump_ingest c = obj (
    field "source" (str c.source) (
      field "table" (str c.table) (
        field "columns" (arr (dump_list c.columns)) (
          field "filter" (dump_option c.filter)
            (field "p_key" (str c.p_key) (field "schema_name" (str c.schema_name) end))))))

unfoldable pub chunk_strategy_text : ChunkStrategy → String
chunk_strategy_text ChunkStrategy.recursive_character = "recursive_character"
chunk_strategy_text ChunkStrategy.markdown = "markdown"
chunk_strategy_text ChunkStrategy.sentence = "sentence"

unfoldable pub provider_text : Provider → String
provider_text Provider.openai = "openai"
provider_text Provider.ollama = "ollama"
provider_text Provider.bedrock = "bedrock"
provider_text Provider.voyageai = "voyageai"

unfoldable pub parsing_text : ParsingStrategy → String
parsing_text ParsingStrategy.auto = "auto"
parsing_text ParsingStrategy.pdf = "pdf"
parsing_text ParsingStrategy.docx = "docx"
parsing_text ParsingStrategy.markdown = "markdown"
parsing_text ParsingStrategy.text = "text"

unfoldable pub profile_text : Profile → String
profile_text Profile.vector = "vector"
profile_text Profile.hybrid = "hybrid"

unfoldable pub dump_chunking : ChunkingConfig → Json
unfolding dump_option
dump_chunking c = obj (
    field "strategy" (str (chunk_strategy_text c.strategy)) (
      field "size" (num c.size)
        (field "overlap" (num c.overlap) (field "separator" (dump_option c.separator) end))))

unfoldable pub dump_embedding : EmbeddingConfig → Json
unfolding dump_option
dump_embedding c = obj (
    field "provider" (str (provider_text c.provider)) (
      field "model" (str c.model) (
        field "dimension" (num c.dimension)
          (field "api_key_name" (dump_option c.api_key_name) end))))

unfoldable pub dump_pipeline : PipelineConfig → Json
dump_pipeline c = obj (
    field "template" (str c.template) (
      field "content_column" (str c.content_column) (
        field "chunking" (dump_chunking c.chunking) (
          field "embedding" (dump_embedding c.embedding)
            (field "parsing" (obj (field "strategy" (str (parsing_text c.parsing)) end)) end)))))

unfoldable pub relevant_config : SearchPipeline → Json
relevant_config c = obj (
    field "ingest" (dump_ingest c.ingest) (
      field "pipeline" (dump_pipeline c.pipeline)
        (field "storage_profile" (str (profile_text c.storage.profile)) end)))
