-- ===== src/Config/Hash.antt =====
-- `get_config_hash` and `get_version_id` of config.py. `hexdigest` stands for
-- `hashlib.sha256(json.dumps(_, sort_keys=True, default=str).encode()).hexdigest()`.
use postgres_search_replica.Prelude.{
  String, ◌≡◌, ◌↔◌, refl, Option, some, List, [], ◌∷◌, arith, prefix, ◌==◌, string_eq,
  if◌then◌else◌,
}
use postgres_search_replica.Config.{
  IngestConfig, ChunkStrategy, ChunkingConfig, Provider, EmbeddingConfig, ParsingStrategy,
  PipelineConfig, Profile, SearchPipeline,
}
use postgres_search_replica.Config.Json.{
  Json, dump_option, dump_list, dump_ingest, chunk_strategy_text, provider_text, parsing_text,
  profile_text, dump_chunking, dump_embedding, dump_pipeline, relevant_config,
}

module _ (hexdigest : Json → String) where
  unfoldable pub get_config_hash : SearchPipeline → String
  get_config_hash c = hexdigest (relevant_config c)

  unfoldable pub get_version_id : SearchPipeline → String
  get_version_id c = prefix 8 (get_config_hash c)

dump_option_inj : (a b : Option String) → dump_option a ≡ dump_option b → a ≡ b
unfolding dump_option
dump_option_inj a b h = ground arith

dump_list_inj : (a b : List String) → dump_list a ≡ dump_list b → a ≡ b
unfolding dump_list
dump_list_inj [] [] h = refl
dump_list_inj [] (y ∷ ys) h = cc
dump_list_inj (x ∷ xs) [] h = cc
dump_list_inj (x ∷ xs) (y ∷ ys) h = ground (arith, dump_list_inj xs ys)

dump_ingest_inj : (a b : IngestConfig) → dump_ingest a ≡ dump_ingest b → a ≡ b
unfolding dump_ingest
dump_ingest_inj a b h =
    ground (arith, dump_list_inj a.columns b.columns, dump_option_inj a.filter b.filter)

-- From the text of a value of an enumeration the value is read back.
chunk_strategy_of : String → Option ChunkStrategy
chunk_strategy_of s =
    if s == "recursive_character"
    then some ChunkStrategy.recursive_character
    else if s == "markdown"
    then some ChunkStrategy.markdown
    else some ChunkStrategy.sentence

chunk_strategy_of-text : (a : ChunkStrategy) → chunk_strategy_of (chunk_strategy_text a) ≡ some a
unfolding chunk_strategy_of chunk_strategy_text
chunk_strategy_of-text ChunkStrategy.recursive_character = refl
chunk_strategy_of-text ChunkStrategy.markdown = refl
chunk_strategy_of-text ChunkStrategy.sentence = refl

provider_of : String → Option Provider
provider_of s =
    if s == "openai"
    then some Provider.openai
    else if s == "ollama"
    then some Provider.ollama
    else if s == "bedrock"
    then some Provider.bedrock
    else some Provider.voyageai

provider_of-text : (a : Provider) → provider_of (provider_text a) ≡ some a
unfolding provider_of provider_text
provider_of-text Provider.openai = refl
provider_of-text Provider.ollama = refl
provider_of-text Provider.bedrock = refl
provider_of-text Provider.voyageai = refl

parsing_of : String → Option ParsingStrategy
parsing_of s =
    if s == "auto"
    then some ParsingStrategy.auto
    else if s == "pdf"
    then some ParsingStrategy.pdf
    else if s == "docx"
    then some ParsingStrategy.docx
    else if s == "markdown"
    then some ParsingStrategy.markdown
    else some ParsingStrategy.text

parsing_of-text : (a : ParsingStrategy) → parsing_of (parsing_text a) ≡ some a
unfolding parsing_of parsing_text
parsing_of-text ParsingStrategy.auto = refl
parsing_of-text ParsingStrategy.pdf = refl
parsing_of-text ParsingStrategy.docx = refl
parsing_of-text ParsingStrategy.markdown = refl
parsing_of-text ParsingStrategy.text = refl

profile_of : String → Option Profile
profile_of s = if s == "vector" then some Profile.vector else some Profile.hybrid

profile_of-text : (a : Profile) → profile_of (profile_text a) ≡ some a
unfolding profile_of profile_text
profile_of-text Profile.vector = refl
profile_of-text Profile.hybrid = refl

dump_chunking_inj : (a b : ChunkingConfig) → dump_chunking a ≡ dump_chunking b → a ≡ b
unfolding dump_chunking
dump_chunking_inj a b h = ground (
  arith,
  dump_option_inj a.separator b.separator,
  chunk_strategy_of-text a.strategy,
  chunk_strategy_of-text b.strategy,
)

dump_embedding_inj : (a b : EmbeddingConfig) → dump_embedding a ≡ dump_embedding b → a ≡ b
unfolding dump_embedding
dump_embedding_inj a b h = ground (
  arith,
  dump_option_inj a.api_key_name b.api_key_name,
  provider_of-text a.provider,
  provider_of-text b.provider,
)

dump_pipeline_inj : (a b : PipelineConfig) → dump_pipeline a ≡ dump_pipeline b → a ≡ b
unfolding dump_pipeline
dump_pipeline_inj a b h = ground (
  arith,
  dump_chunking_inj a.chunking b.chunking,
  dump_embedding_inj a.embedding b.embedding,
  parsing_of-text a.parsing,
  parsing_of-text b.parsing,
)

-- What the version of an index depends on.
abbrev pub SameIndex : SearchPipeline → SearchPipeline → Type 0
SameIndex a b =
    (a.ingest ≡ b.ingest) × (a.pipeline ≡ b.pipeline) × (a.storage.profile ≡ b.storage.profile)

pub relevant_config_inj :
    (a b : SearchPipeline) → relevant_config a ≡ relevant_config b → SameIndex a b
unfolding relevant_config
relevant_config_inj a b h = ground (
  arith,
  dump_ingest_inj a.ingest b.ingest,
  dump_pipeline_inj a.pipeline b.pipeline,
  profile_of-text a.storage.profile,
  profile_of-text b.storage.profile,
)

module _ (hexdigest : Json → String) where
  pub SameIndex-get_config_hash :
      (a b : SearchPipeline)
      → SameIndex a b
      → get_config_hash hexdigest a ≡ get_config_hash hexdigest b
  unfolding get_config_hash relevant_config
  SameIndex-get_config_hash a b (i, p, s) = cc

  -- Where the digest does not collide on two pipelines, they have the same hash, and with it the
  -- same version of their index, exactly if they agree in what they ingest, in how they process it,
  -- and in the storage profile. Names, branches, mirrors and the `active` mark play no part.
  pub get_config_hash_iff :
      (a b : SearchPipeline)
      → (hexdigest (relevant_config a) ≡ hexdigest (relevant_config b)
          → relevant_config a ≡ relevant_config b)
      → (get_config_hash hexdigest a ≡ get_config_hash hexdigest b) ↔ SameIndex a b
  unfolding get_config_hash
  get_config_hash_iff a b no_collision =
      (λ h. relevant_config_inj a b (no_collision h), SameIndex-get_config_hash a b)
