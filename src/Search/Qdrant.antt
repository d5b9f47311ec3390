-- ===== src/Search/Qdrant.antt =====
-- `QdrantSearchStrategy` of src/pg_replica/strategies.py. `engine` stands for the client at a URL: the
-- names of its collections, and a query of one collection.
use postgres_search_replica.Prelude.{
  ℕ, String, string_eq, ◌==◌, ◌≡◌, refl, Bool, true, false, Option, none, some, or_else, List, [],
  ◌∷◌, concat, any, map, if◌then◌else◌,
}
use postgres_search_replica.Prelude.Dict.{Dict, lookup}
use postgres_search_replica.Prelude.Effects.{Result, ok, err, value_error, ◌>>=◌}
use postgres_search_replica.Config.{
  MirrorType, qdrant, pinecone, MirrorConfig, SearchPipeline, Settings, truthy,
}
use postgres_search_replica.Mirror.Qdrant.{collection_name}

-- a hit, with the texts of its payload
pub record Hit (I D : Type 0) : Type 0 where
  pub id : I
  pub score : D
  pub chunk : Option String
  pub content : Option String

pub record QdrantFound (I D : Type 0) : Type 0 where
  pub id : I
  pub content : Option String
  pub distance : D

pub record SearchEngine (I D V : Type 0) : Type 0 where
  pub get_collections : Result (List String)
  pub query_points : String → V → ℕ → Result (List (Hit I D))

abbrev pub is_qdrant : MirrorType → Bool
is_qdrant qdrant = true
is_qdrant pinecone = false

abbrev qdrant_or : Option MirrorConfig → Option MirrorConfig → Option MirrorConfig
qdrant_or none rest = rest
qdrant_or (some mirror) rest = if is_qdrant mirror.type then some mirror else rest

-- the first Qdrant mirror of the pipeline that the settings know
unfoldable pub find_mirror : Dict String MirrorConfig → List String → Option MirrorConfig
find_mirror mirrors [] = none
find_mirror mirrors (m ∷ ids) =
    let rest = find_mirror mirrors ids in qdrant_or (lookup m mirrors) rest

-- `mirror.config.get("prefix", "")`
abbrev pub prefix_of : MirrorConfig → String
prefix_of mirror = or_else (lookup "prefix" mirror.config) ""

abbrev pub production_name : String → String → String
production_name prefix table = concat (prefix ∷ table ∷ "_production" ∷ [])

abbrev pub version_name : String → String → String → String
version_name prefix table version = concat (prefix ∷ table ∷ "_" ∷ version ∷ [])

-- An engine that cannot be asked is searched under the name of the version.
unfoldable pub search_target : Result (List String) → String → String → String → String
search_target (err x) prefix table version = version_name prefix table version
search_target (ok names) prefix table version =
    if any (λ c. c == production_name prefix table) names
    then production_name prefix table
    else version_name prefix table version

module _ {I D V : Type 0} (engine_at : Option String → SearchEngine I D V) where
  abbrev pub found_of : Hit I D → QdrantFound I D
  found_of hit = record {
    id = hit.id;
    content = if truthy hit.chunk then hit.chunk else hit.content;
    distance = hit.score;
  }

  unfoldable pub search_qdrant :
      Settings → SearchPipeline → String → V → ℕ → Result (List (QdrantFound I D))
  search_qdrant settings config version embedding limit =
      elim (find_mirror settings.mirrors config.storage.mirrors) [
        | none ↦ err (
            value_error
              (concat ("No Qdrant mirror configured for table '" ∷ config.ingest.table ∷ "'" ∷ [])))
        | some mirror ↦
            let engine = engine_at (lookup "url" mirror.config) in
            engine.query_points
              (search_target engine.get_collections (prefix_of mirror) config.ingest.table version)
              embedding limit
            >>= λ hits. ok (map found_of hits)
      ]

  -- Where no collection has the production name, as the mirror worker makes none, the collection
  -- that is searched is the one that the worker fills for the target that is named like the raw
  -- table; the name of the pipeline plays no part.
  pub search_qdrant-version :
      (settings : Settings) (config : SearchPipeline) (version : String) (embedding : V) (limit : ℕ)
      (mirror : MirrorConfig) (names : List String)
      → find_mirror settings.mirrors config.storage.mirrors ≡ some mirror
      → (engine_at (lookup "url" mirror.config)).get_collections ≡ ok names
      → any (λ c. c == production_name (prefix_of mirror) config.ingest.table) names ≡ false
      → search_qdrant settings config version embedding limit ≡ (
          (engine_at (lookup "url" mirror.config)).query_points
            (collection_name (prefix_of mirror) config.ingest.table version)
            embedding
            limit
          >>= λ hits. ok (map found_of hits))
  unfolding search_qdrant search_target collection_name
  search_qdrant-version settings config version embedding limit mirror names found listed absent =
      rw (search_qdrant, found, listed, search_target, absent) refl
