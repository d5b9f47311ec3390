-- ===== src/Views.antt =====
-- `atomic_view_swap` of src/pg_replica/database.py: the search view and the hash of the state table change
-- in one transaction. `fails` tells which statement the server refuses for reasons of its own, and
-- `raw_first` in which order information_schema.view_table_usage lists the relations of a view.
pub mod Promoted
pub mod Replanned
mod Tests
use postgres_search_replica.Prelude.{
  ℕ, String, string_eq, ◌==◌, ◌||◌, Bool, true, false, not, Option, none, some, or_else, List, [],
  ◌∷◌, ◌++◌, keep, concat, any, replace, if◌then◌else◌,
}
use postgres_search_replica.Prelude.Dict.{Dict, lookup, insert, contains, member}
use postgres_search_replica.Prelude.Effects.{Result, ok, err, Exn, db_error, ◌>>=◌}
use postgres_search_replica.Config.{SearchPipeline, Profile, truthy}
use postgres_search_replica.Control.Replica.{StateRow, sub_name}
use postgres_search_replica.Reconciler.{Vectorizer}
use postgres_search_replica.Reconciler.Planner.Names.{view_name}
use postgres_search_replica.Inspector.{SinkCatalog}

pub data Statement : Type 0 where
  drop_view create_view update_hash : Statement

-- `row[0]` of the vectorizer of that name
unfoldable pub view_of : String → List (String × Vectorizer) → Option String
view_of name [] = none
view_of name ((source, v) ∷ rows) = if v.name == name then v.view_name else view_of name rows

-- the view of a store without a registered one
abbrev pub derived_view : String → String
derived_view vectorizer = replace "_store" "_embedding" vectorizer

unfoldable pub embedding_view : String → Option String → SinkCatalog → String
embedding_view raw_table none catalog = concat (raw_table ∷ "_embedding" ∷ [])
embedding_view raw_table (some vectorizer) catalog =
    let registered = view_of vectorizer catalog.vectorizers in
    if truthy registered then or_else registered "" else derived_view vectorizer

-- the columns of the view: the key, those of the index, and the other columns of the source
unfoldable pub view_columns : SearchPipeline → List String
view_columns config =
    let extra = keep (λ c. not (c == config.ingest.p_key)) config.ingest.columns in
    config.ingest.p_key
    ∷ "chunk"
    ∷ "embedding"
    ∷ elim config.storage.profile [ Profile.hybrid ↦ "ts_col" ∷ extra | Profile.vector ↦ extra ]

abbrev pub has_duplicate : List String → Bool
has_duplicate [] = false
has_duplicate (c ∷ cs) = member c cs || has_duplicate cs

-- a table or a view of the sink
abbrev pub relation_exists : String → SinkCatalog → Bool
relation_exists name catalog = contains name catalog.base_tables || member name catalog.views

abbrev pub without : String → List String → List String
without name = keep (λ v. not (v == name))

abbrev pub used : Bool → String → String → List String
used raw_first raw view = if raw_first then raw ∷ view ∷ [] else view ∷ raw ∷ []

-- UPDATE _replica_state SET config_hash = … WHERE key = …
unfoldable pub set_hash : String → String → Dict String StateRow → Dict String StateRow
set_hash target hash states = elim (lookup (sub_name target) states) [
  | none ↦ states
  | some row ↦ insert (sub_name target) (record row { config_hash = some hash }) states
]

-- `target_table or config.ingest.table`
abbrev pub raw_table_of : SearchPipeline → Option String → String
raw_table_of config target_table =
    if truthy target_table then or_else target_table "" else config.ingest.table

module _ (fails : Statement → Option String) (raw_first : Bool) where
  abbrev pub unless_refused : Statement → SinkCatalog → Result SinkCatalog
  unless_refused statement next = elim (fails statement) [
    | none ↦ ok next
    | some m ↦ err (db_error m)
  ]

  -- DROP VIEW IF EXISTS
  unfoldable pub drop_search_view : String → SinkCatalog → Result SinkCatalog
  drop_search_view name catalog =
      unless_refused drop_view (record catalog { views = without name catalog.views })

  -- CREATE VIEW: the relations have to be there, and the columns have to differ
  unfoldable pub create_search_view :
      String → String → String → List String → SinkCatalog → Result SinkCatalog
  create_search_view name raw view columns catalog =
      if relation_exists name catalog
      then err (db_error "relation already exists")
      else if not (relation_exists raw catalog) || not (relation_exists view catalog)
      then err (db_error "relation does not exist")
      else if has_duplicate columns
      then err (db_error "column specified more than once")
      else unless_refused create_view (record catalog {
        views = catalog.views ++ name ∷ [];
        view_usage = insert name (used raw_first raw view) catalog.view_usage;
      })

  unfoldable pub record_hash : String → String → SinkCatalog → Result SinkCatalog
  record_hash target hash catalog =
      unless_refused update_hash (record catalog { states = set_hash target hash catalog.states })

  unfoldable pub swap_transaction :
      SearchPipeline → String → String → (raw view : String) → SinkCatalog → Result SinkCatalog
  swap_transaction config target hash raw view catalog = do
    dropped ← drop_search_view (view_name target) catalog
    created ← create_search_view (view_name target) raw view (view_columns config) dropped
    record_hash target hash created

  -- `commit`, or `rollback` and raise again
  abbrev pub or_rollback : SinkCatalog → Result SinkCatalog → SinkCatalog × Result (Unit {0})
  or_rollback old (ok new) = (new, ok tt)
  or_rollback old (err x) = (old, err x)

  unfoldable pub atomic_view_swap :
      SearchPipeline
      → (target hash : String) → (target_table vectorizer_target : Option String) → SinkCatalog
      → SinkCatalog × Result (Unit {0})
  atomic_view_swap config target hash target_table vectorizer_target catalog =
      let raw = raw_table_of config target_table in
      or_rollback catalog (
        swap_transaction config target hash raw (embedding_view raw vectorizer_target catalog)
          catalog)
