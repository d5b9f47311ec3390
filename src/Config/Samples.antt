-- ===== src/Config/Samples.antt =====
-- Sample settings: a pipeline on a table of books, with a branch and a mirror.
use postgres_search_replica.Prelude.{ℕ, true, false, none, [], ◌∷◌}
use postgres_search_replica.Config.{
  cdc, postgres, qdrant, pinecone, MirrorConfig, ChunkStrategy, Provider, ParsingStrategy,
  PipelineConfig, BranchConfig, Profile, SearchPipeline, Settings,
}

abbrev pub book_pipeline : ℕ → PipelineConfig
book_pipeline size = record {
  template = "$chunk";
  content_column = "title";
  chunking = record {
    strategy = ChunkStrategy.recursive_character;
    size = size;
    overlap = 50;
    separator = none;
  };
  embedding = record {
    provider = Provider.openai;
    model = "text-embedding-3-small";
    dimension = 3;
    api_key_name = none;
  };
  parsing = ParsingStrategy.auto;
}

abbrev pub small_chunks : BranchConfig
small_chunks = record { name = "small"; pipeline = book_pipeline 100 }

abbrev pub books : SearchPipeline
books = record {
  ingest = record {
    source = "default";
    table = "books";
    columns = "id" ∷ "title" ∷ [];
    filter = none;
    p_key = "id";
    schema_name = "public";
  };
  pipeline = book_pipeline 512;
  storage = record {
    profile = Profile.vector;
    branches = small_chunks ∷ [];
    mirrors = "engine" ∷ [];
  };
  active = true;
  generation = none;
}

abbrev pub engine : MirrorConfig
engine = record { id = "engine"; type = qdrant; config = [] }

abbrev pub pine : MirrorConfig
pine = record { id = "engine"; type = pinecone; config = [] }

abbrev pub settings_with : MirrorConfig → Settings
settings_with mirror = record {
  sources = ("default", postgres cdc "postgres://source") ∷ [];
  mirrors = ("engine", mirror) ∷ [];
  sink_url = "local";
  source_managed_by_admin = false;
  pipelines = ("books", books) ∷ [];
  source_url = none;
  max_slot_wal_keep_size_mb = 1024;
}

abbrev pub book_settings : Settings
book_settings = settings_with engine
