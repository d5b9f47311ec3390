-- ===== src/Config.antt =====
-- src/pg_replica/config.py: the settings models. A field of type Literal is an enumeration, and
-- numbers are natural. `generation` is the attribute that the reconciler sets on a pipeline that
-- it has loaded from the configuration history.
pub mod Json
pub mod Hash
pub mod Samples
mod Tests
use postgres_search_replica.Prelude.{
  ℕ, String, Bool, true, Option, none, some, List, [], ◌∷◌, ◌++◌, ◌==◌, string_eq, is_some, or_else,
  if◌then◌else◌,
}
use postgres_search_replica.Prelude.Dict.{Dict, contains, insert, member}
use postgres_search_replica.Prelude.Effects.{Result, ok, err, value_error}
use package.text.Mathlib.Text.{find?}

pub data Strategy : Type 0 where
  cdc polling : Strategy

pub data SourceConfig : Type 0 where
  postgres : (strategy : Strategy) (connection_url : String) → SourceConfig
  local : (path : String) (uri_prefix : Option String) → SourceConfig
  s3 : (bucket s3_prefix : String) (region endpoint_url : Option String) → SourceConfig

-- `getattr(source_config, "strategy", None)`: only Postgres sources have the field.
unfoldable pub strategy_of : SourceConfig → Option Strategy
strategy_of (postgres s url) = some s
strategy_of (local path uri_prefix) = none
strategy_of (s3 bucket s3_prefix region endpoint) = none

pub data MirrorType : Type 0 where
  qdrant pinecone : MirrorType

pub record MirrorConfig : Type 0 where
  pub id : String
  pub type : MirrorType
  pub config : Dict String String

pub record IngestConfig : Type 0 where
  pub source : String
  pub table : String
  pub columns : List String
  pub filter : Option String
  pub p_key : String
  pub schema_name : String

pub data ChunkStrategy : Type 0 where
  recursive_character markdown sentence : ChunkStrategy

pub record ChunkingConfig : Type 0 where
  pub strategy : ChunkStrategy
  pub size : ℕ
  pub overlap : ℕ
  pub separator : Option String

pub data Provider : Type 0 where
  openai ollama bedrock voyageai : Provider

pub record EmbeddingConfig : Type 0 where
  pub provider : Provider
  pub model : String
  pub dimension : ℕ
  pub api_key_name : Option String

pub data ParsingStrategy : Type 0 where
  auto pdf docx markdown text : ParsingStrategy

pub record PipelineConfig : Type 0 where
  pub template : String
  pub content_column : String
  pub chunking : ChunkingConfig
  pub embedding : EmbeddingConfig
  pub parsing : ParsingStrategy

pub record BranchConfig : Type 0 where
  pub name : String
  pub pipeline : PipelineConfig

pub data Profile : Type 0 where
  vector hybrid : Profile

pub record StorageConfig : Type 0 where
  pub profile : Profile
  pub branches : List BranchConfig
  pub mirrors : List String

pub record SearchPipeline : Type 0 where
  pub ingest : IngestConfig
  pub pipeline : PipelineConfig
  pub storage : StorageConfig
  pub active : Bool
  pub generation : Option ℕ

pub record Settings : Type 0 where
  pub sources : Dict String SourceConfig
  pub mirrors : Dict String MirrorConfig
  pub sink_url : String
  pub source_managed_by_admin : Bool
  pub pipelines : Dict String SearchPipeline
  pub source_url : Option String
  pub max_slot_wal_keep_size_mb : ℕ

unfoldable pub ensure_pkey_in_columns : IngestConfig → IngestConfig
ensure_pkey_in_columns c =
    if member c.p_key c.columns then c else record c { columns = c.columns ++ c.p_key ∷ [] }

-- `"$chunk" not in v`
unfoldable pub validate_template : String → Result String
validate_template v =
    if is_some (find? v "$chunk")
    then ok v
    else err (value_error "Template must contain '$chunk' placeholder")

-- A missing URL and an empty one are both false in a test.
abbrev pub truthy : Option String → Bool
truthy none = Bool.false
truthy (some s) = if s == "" then Bool.false else true

-- The second half of `validate_pipelines_and_sources`: the legacy `default` source.
unfoldable pub add_default_source : Settings → Settings
add_default_source s =
    if contains "default" s.sources
    then s
    else if truthy s.source_url
    then record s { sources = insert "default" (postgres cdc (or_else s.source_url "")) s.sources }
    else s

-- `model_copy(deep=True)` with the pipeline of a branch in place of the parent's
abbrev pub with_pipeline : SearchPipeline → PipelineConfig → SearchPipeline
with_pipeline c p = record c { pipeline = p }
