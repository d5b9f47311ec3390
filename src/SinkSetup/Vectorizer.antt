-- ===== src/SinkSetup/Vectorizer.antt =====
-- The raw table, the extension and the vectorizer in `setup_sink` of src/pg_replica/database.py. What pgai does
-- with a call of ai.create_vectorizer is a parameter, by the attempt; its messages are in small
-- letters.
use postgres_search_replica.Prelude.{
  ℕ, String, string_eq, ◌==◌, ◌&&◌, ◌||◌, Bool, true, false, Option, none, some, or_else, [], ◌∷◌,
  ◌++◌, concat, any, has, replace, if◌then◌else◌,
}
use postgres_search_replica.Prelude.Dict.{lookup, insert, contains, member}
use postgres_search_replica.Prelude.Effects.{Result, ok, err, runtime_error, db_error}
use postgres_search_replica.Waiting.{wait_until}
use postgres_search_replica.Config.{
  Settings, SearchPipeline, SourceConfig, postgres, local, s3, ChunkStrategy, Provider,
  ParsingStrategy, truthy,
}
use postgres_search_replica.Inspector.{SinkCatalog}
use postgres_search_replica.SinkSetup.Databases.{Databases, Outcome, returned, raise}

-- CREATE TABLE IF NOT EXISTS; the catalog has the names of the columns only
unfoldable pub create_raw_table : SearchPipeline → SinkCatalog → SinkCatalog
create_raw_table config catalog =
    if contains config.ingest.table catalog.base_tables then catalog else record catalog {
      base_tables = insert config.ingest.table config.ingest.columns catalog.base_tables;
    }

-- CREATE EXTENSION IF NOT EXISTS
unfoldable pub create_extension : String → SinkCatalog → SinkCatalog
create_extension name catalog =
    if member name catalog.extensions
    then catalog
    else record catalog { extensions = catalog.extensions ++ name ∷ [] }

pub record SqlError : Type 0 where
  pub type_name : String
  pub pgcode : Option String
  pub message : String

unfoldable pub is_duplicate : SqlError → Bool
is_duplicate e = e.type_name == "DuplicateObject" || or_else e.pgcode "" == "42710"

-- How the extension is installed: whether CREATE EXTENSION works, whether the script of the package is
-- found, and what it fails with. The script does not make an extension.
pub record Installer : Type 0 where
  pub standard : Bool
  pub sql_found : Bool
  pub manual : Option SqlError

unfoldable pub install_ai : Installer → SinkCatalog → SinkCatalog × Result (Unit {0})
install_ai installer catalog =
    if installer.standard
    then (create_extension "ai" catalog, ok tt)
    else if installer.sql_found
    then elim installer.manual [
      | none ↦ (catalog, ok tt)
      | some e ↦ (
        catalog,
        if is_duplicate e && has "pgai library has already been installed" e.message
            then ok tt
            else err (db_error e.message),
      )
    ]
    else (catalog, err (runtime_error "Could not find ai.sql"))

-- the arguments of ai.create_vectorizer
pub record Call : Type 0 where
  pub table : String
  pub name : String
  pub loading : String
  pub parsing : String
  pub embedding : String
  pub chunking : String
  pub formatting : String
  pub destination : Option (String × String)

unfoldable pub chunking_function : ChunkStrategy → String
chunking_function ChunkStrategy.recursive_character = "recursive_character_text_splitter"
chunking_function ChunkStrategy.markdown = "markdown_header_text_splitter"
chunking_function ChunkStrategy.sentence = "sentence_splitter"

abbrev pub parsing_name : ParsingStrategy → String
parsing_name ParsingStrategy.auto = "auto"
parsing_name ParsingStrategy.pdf = "pdf"
parsing_name ParsingStrategy.docx = "docx"
parsing_name ParsingStrategy.markdown = "markdown"
parsing_name ParsingStrategy.text = "text"

abbrev pub provider_name : Provider → String
provider_name Provider.openai = "openai"
provider_name Provider.ollama = "ollama"
provider_name Provider.bedrock = "bedrock"
provider_name Provider.voyageai = "voyageai"

-- `source_type in ["local", "s3"]`; a source that is not in the settings counts as Postgres
abbrev pub holds_files : Option SourceConfig → Bool
holds_files none = false
holds_files (some (postgres strategy url)) = false
holds_files (some (local path uri_prefix)) = true
holds_files (some (s3 bucket s3_prefix region endpoint_url)) = true

abbrev pub api_key_sql : Option String → String
api_key_sql key =
    if truthy key then concat (", api_key_name => '" ∷ or_else key "" ∷ "'" ∷ []) else ""

-- a vectorizer that is there has its destination already
unfoldable pub destination_of : String → SinkCatalog → Option (String × String)
destination_of name catalog =
    if any (λ r. r.1.name == name) catalog.vectorizers
    then none
    else some (name, replace "_store" "_embedding" name)

-- `vectorizer_target or f"{target}_store"`
unfoldable pub vectorizer_name : SearchPipeline → Option String → String
vectorizer_name config vectorizer_target =
    if truthy vectorizer_target
    then or_else vectorizer_target ""
    else concat (config.ingest.table ∷ "_store" ∷ [])

-- `show` prints a dimension
unfoldable pub vectorizer_call :
    (ℕ → String) → Settings → SearchPipeline → String → SinkCatalog → Call
vectorizer_call show settings config name catalog =
    let files = holds_files (lookup config.ingest.source settings.sources) in
    record {
      table = config.ingest.table;
      name = name;
      loading = concat (
          (if files then "loading => ai.loading_uri('" else "loading => ai.loading_column('")
          ∷ config.pipeline.content_column
          ∷ "')"
          ∷ []);
      parsing =
          if files
          then concat
              (", parsing => ai.parsing_" ∷ parsing_name config.pipeline.parsing ∷ "()" ∷ [])
          else "";
      embedding = concat (
          "ai.embedding_"
          ∷ provider_name config.pipeline.embedding.provider
          ∷ "('"
          ∷ config.pipeline.embedding.model
          ∷ "', "
          ∷ show config.pipeline.embedding.dimension
          ∷ api_key_sql config.pipeline.embedding.api_key_name
          ∷ ")"
          ∷ []);
      chunking =
          concat ("ai.chunking_" ∷ chunking_function config.pipeline.chunking.strategy ∷ "()" ∷ []);
      formatting = config.pipeline.template;
      destination = destination_of name catalog;
    }

pub data Made : Type 0 where
  made : SinkCatalog → Made
  failed : (message : String) → Made

-- a missing column is raised, another missing thing is tried again, and all else is raised
unfoldable pub try_create_vectorizer : Made → Result Bool
try_create_vectorizer (made catalog) = ok true
try_create_vectorizer (failed message) =
    if has "column" message && has "does not exist" message
    then err (db_error message)
    else if has "does not exist" message
    then ok false
    else err (db_error message)

abbrev pub after_create : SinkCatalog → Made → SinkCatalog
after_create old (made new) = new
after_create old (failed message) = old

-- the databases after the attempt that has ended the loop
abbrev pub after_attempts : Databases → (ℕ → Made) → Option (Result ℕ) → Outcome
after_attempts dbs attempt none = (dbs, none)
after_attempts dbs attempt (some (err x)) = raise x dbs
after_attempts dbs attempt (some (ok k)) =
    returned (record dbs { sink = after_create dbs.sink (attempt k) })

unfoldable pub wait_vectorizer :
    (ℕ → Call → SinkCatalog → Made) → (ℕ → ℕ) → Call → Databases → Outcome
wait_vectorizer create elapsed call dbs =
    after_attempts dbs (λ k. create k call dbs.sink)
      (wait_until (λ k. try_create_vectorizer (create k call dbs.sink)) elapsed 20)
