-- ===== src/SinkSetup/Cleanup.antt =====
-- `cleanup_vectorizer_infrastructure` of src/pg_replica/database.py, a block that is one statement: where it
-- fails, with the message `fails`, nothing has changed. `prosrc` is the text of a trigger's function; names
-- and texts are in small letters. ai.drop_vectorizer is that of the teardown.
use postgres_search_replica.Prelude.{
  ℕ, zero, suc, String, string_eq, ◌==◌, ◌&&◌, ◌||◌, Bool, false, not, Option, none, some, or_else,
  List, [], ◌∷◌, keep, any, concat, replace, length, if◌then◌else◌,
}
use postgres_search_replica.Prelude.Dict.{Dict, lookup, contains, member}
use postgres_search_replica.Prelude.Effects.{Result, ok, err, db_error}
use postgres_search_replica.Config.{Settings, SearchPipeline}
use postgres_search_replica.Reconciler.{Vectorizer}
use postgres_search_replica.Reconciler.Planner.Names.{view_name}
use postgres_search_replica.Inspector.{SinkCatalog}
use postgres_search_replica.Teardown.{like, drop_listed}
use postgres_search_replica.SinkSetup.Databases.{Databases, Outcome, next}
use postgres_search_replica.SinkSetup.Setup.{Servers, with_result, setup_sink}

-- the view reads one of the relations
abbrev pub uses_any : List String → SinkCatalog → String → Bool
uses_any gone catalog view = any (λ r. member r gone) (or_else (lookup view catalog.view_usage) [])

-- CASCADE, in rounds: the views that read what is gone go too. A round for each view is enough, since
-- a round without a view to drop is the last.
unfoldable pub cascade : ℕ → List String → SinkCatalog → SinkCatalog
cascade zero gone catalog = catalog
cascade (suc fuel) gone catalog =
    cascade fuel (keep (uses_any gone catalog) catalog.views)
      (record catalog { views = keep (λ view. not (uses_any gone catalog view)) catalog.views })

abbrev pub drop_dependents : String → SinkCatalog → SinkCatalog
drop_dependents name catalog = cascade (length catalog.views) (name ∷ []) catalog

-- DROP VIEW IF EXISTS … CASCADE, and nothing where it is refused and the error is swallowed, as for a
-- table
unfoldable pub drop_view : Bool → String → SinkCatalog → SinkCatalog
drop_view refused name catalog =
    if not refused && member name catalog.views
    then drop_dependents name (record catalog { views = keep (λ v. not (v == name)) catalog.views })
    else catalog

-- DROP TABLE IF EXISTS … CASCADE, with the triggers on the table; refused as above
unfoldable pub drop_table : Bool → String → SinkCatalog → SinkCatalog
drop_table refused name catalog =
    if not refused && contains name catalog.base_tables
    then drop_dependents name (record catalog {
      base_tables = keep (λ t. not (t.0 == name)) catalog.base_tables;
      triggers = keep (λ t. not (t.1 == name)) catalog.triggers;
    })
    else catalog

-- the search view of the target reads the store or its view
unfoldable pub is_live : String → String → String → SinkCatalog → Bool
is_live target store view catalog =
    member (view_name target) catalog.views
    && any (λ r. r == store || r == view)
        (or_else (lookup (view_name target) catalog.view_usage) [])

-- outside any handler: where this drop is refused, the block fails as a whole
unfoldable pub drop_live_view : String → String → String → SinkCatalog → SinkCatalog
drop_live_view target store view catalog =
    if is_live target store view catalog
    then drop_view false (view_name target) catalog
    else catalog

abbrev pub is_named : String → String × Vectorizer → Bool
is_named name row = row.1.name == name

-- `ai.drop_vectorizer(…)`, if there is a vectorizer of the name
abbrev pub drop_named : String → SinkCatalog → SinkCatalog
drop_named name catalog =
    drop_listed (λ i. false) (keep (is_named name) catalog.vectorizers) catalog

-- The safety drops of one name. A drop that is refused, for which `views_stay` and `tables_stay` stand,
-- raises; EXCEPTION WHEN OTHERS swallows that, and the relation stays.
module _ (views_stay tables_stay : String → Bool) where
  abbrev pub drop_relation : String → SinkCatalog → SinkCatalog
  drop_relation name catalog =
      drop_table (tables_stay name) name (drop_view (views_stay name) name catalog)

module _ (prosrc : String → String) where
  -- the triggers on the raw table whose function mentions the store
  unfoldable pub drop_zombies : String → String → SinkCatalog → SinkCatalog
  drop_zombies table store catalog = record catalog {
    triggers =
        keep (λ t. not (t.1 == table && like (concat ("%" ∷ store ∷ "%" ∷ [])) (prosrc t.0)))
          catalog.triggers;
  }

  module _ (views_stay tables_stay : String → Bool) where
    unfoldable pub cleaned : SearchPipeline → String → String → SinkCatalog → SinkCatalog
    cleaned config target store catalog =
        let view = replace "_store" "_embedding" store in
        drop_zombies config.ingest.table store (
          drop_relation views_stay tables_stay view (
            drop_relation views_stay tables_stay store
              (drop_named store (drop_live_view target store view catalog))))

    module _ (fails : Option String) where
      unfoldable pub cleanup_vectorizer_infrastructure :
          SearchPipeline → String → String → SinkCatalog → SinkCatalog × Result (Unit {0})
      cleanup_vectorizer_infrastructure config target store catalog = elim fails [
        | none ↦ (cleaned config target store catalog, ok tt)
        | some m ↦ (catalog, err (db_error m))
      ]

      -- the first two calls of the handler of SINK_VECTORIZER_SETUP
      unfoldable pub rebuild :
          Servers
          → Settings
          → Dict String String
          → SearchPipeline
          → String
          → String
          → Databases
          → Outcome
      rebuild servers settings options config target store dbs =
          next (with_result (cleanup_vectorizer_infrastructure config target store dbs.sink) dbs)
            (λ clean. setup_sink servers settings options config target (some store) clean)
