-- ===== src/SinkSetup/Prepared.antt =====
-- What the statements of `setup_sink` of src/pg_replica/database.py before the vectorizer do to the catalog.
use mathlib.Core.Path.{subst}
use postgres_search_replica.Prelude.{
  String, string_eq, ◌≡◌, refl, ap, ◌∙◌, inl, inr, true, false, List, [], ◌∷◌, ◌++◌, arith, eq_iff,
  Bool-cases, Option-cases,
}
use postgres_search_replica.Prelude.Dict.{Dict, lookup, member}
use postgres_search_replica.Prelude.Effects.{Result, ok, err}
use postgres_search_replica.Config.{Settings, SearchPipeline}
use postgres_search_replica.Inspector.{SinkCatalog}
use postgres_search_replica.SinkSetup.Databases.{Databases, Outcome, returned}
use postgres_search_replica.SinkSetup.Options.{member-append_self}
use postgres_search_replica.SinkSetup.Vectorizer.{
  Installer, create_raw_table, create_extension, install_ai,
}
use postgres_search_replica.SinkSetup.Setup.{Servers, setup_tables, prepare}

create_extension-vectorizers :
    (name : String) (c : SinkCatalog) → (create_extension name c).vectorizers ≡ c.vectorizers
unfolding create_extension
create_extension-vectorizers name c = ground arith

create_raw_table-vectorizers :
    (config : SearchPipeline) (c : SinkCatalog)
    → (create_raw_table config c).vectorizers ≡ c.vectorizers
unfolding create_raw_table
create_raw_table-vectorizers config c = ground arith

create_raw_table-extensions :
    (config : SearchPipeline) (c : SinkCatalog)
    → (create_raw_table config c).extensions ≡ c.extensions
unfolding create_raw_table
create_raw_table-extensions config c = ground arith

install_ai-vectorizers :
    (installer : Installer) (c : SinkCatalog)
    → (install_ai installer c).0.vectorizers ≡ c.vectorizers
unfolding install_ai
install_ai-vectorizers installer c = ground (arith, create_extension-vectorizers "ai" c)

create_extension-there :
    (name : String) (c : SinkCatalog) → member name (create_extension name c).extensions ≡ true
unfolding create_extension
create_extension-there name c = elim (Bool-cases (member name c.extensions)) [
  | inl t ↦ rw (create_extension, t) t
  | inr f ↦ rw (create_extension, f) (member-append_self name c.extensions)
]

member-other : (xs : List String) → member "ai" (xs ++ "vector" ∷ []) ≡ member "ai" xs
member-other [] = ground (arith, eq_iff "vector" "ai")
member-other (x ∷ xs) = ground (arith, member-other xs)

create_extension-other :
    (c : SinkCatalog)
    → member "ai" (create_extension "vector" c).extensions ≡ member "ai" c.extensions
unfolding create_extension
create_extension-other c = ground (arith, member-other c.extensions)

module _ (servers : Servers) (settings : Settings) (options : Dict String String)
    (config : SearchPipeline) where
  abbrev with_table : Databases → SinkCatalog
  with_table dbs = create_raw_table config (create_extension "vector" dbs.sink)

  setup_tables-vectorizers :
      (types : Result (Dict String String)) (dbs : Databases)
      → (setup_tables servers settings options config types dbs).0.sink.vectorizers
        ≡ dbs.sink.vectorizers
  unfolding setup_tables
  setup_tables-vectorizers (err x) dbs = refl
  setup_tables-vectorizers (ok types) dbs =
      install_ai-vectorizers servers.installer (with_table dbs)
      ∙ create_raw_table-vectorizers config (create_extension "vector" dbs.sink)
      ∙ create_extension-vectorizers "vector" dbs.sink

  -- the vectorizers are those that were there
  pub prepare-vectorizers :
      (target : String) (dbs : Databases)
      → (prepare servers settings options config target dbs).0.sink.vectorizers
        ≡ dbs.sink.vectorizers
  unfolding prepare
  prepare-vectorizers target dbs = elim (Option-cases (lookup config.ingest.source dbs.sources)) [
    | inl n ↦ rw (prepare, n) refl
    | inr (slots, s) ↦
        rw (prepare, s) (setup_tables-vectorizers (servers.source_types config.ingest.table) _)
  ]

  -- what holds of the catalog after the extension's installation holds after the preparation
  module _ (P : SinkCatalog → Type 0) (before : SinkCatalog)
      (holds : (c : SinkCatalog)
        → c.extensions ≡ before.extensions
        → P
            (install_ai servers.installer
              (create_raw_table config (create_extension "vector" c))).0) where
    setup_tables-prepared :
        (types : Result (Dict String String)) (dbs end : Databases)
        → dbs.sink.extensions ≡ before.extensions
        → setup_tables servers settings options config types dbs ≡ returned end
        → P end.sink
    unfolding setup_tables
    setup_tables-prepared (err x) dbs end e h = cc h
    setup_tables-prepared (ok types) dbs end e h =
        subst P (ap (λ (o : Outcome). o.0.sink) h) (holds dbs.sink e)

    prepared :
        (target : String) (dbs end : Databases)
        → dbs.sink.extensions ≡ before.extensions
        → prepare servers settings options config target dbs ≡ returned end
        → P end.sink
    unfolding prepare
    prepared target dbs end e h = elim (Option-cases (lookup config.ingest.source dbs.sources)) [
      | inl n ↦ cc (rw (prepare, n) at h)
      | inr (slots, s) ↦
          setup_tables-prepared (servers.source_types config.ingest.table) _ end e
            (rw (prepare, s) at h)
    ]

  -- the extension is there if it is installed in the usual way
  pub prepare-ai :
      (target : String) (dbs end : Databases)
      → servers.installer.standard ≡ true
      → prepare servers settings options config target dbs ≡ returned end
      → member "ai" end.sink.extensions ≡ true
  unfolding install_ai
  prepare-ai target dbs end usual h =
      prepared (λ c. member "ai" c.extensions ≡ true) dbs.sink (λ c e. installed _) target dbs end
        refl h
    where
      installed :
          (c : SinkCatalog) → member "ai" (install_ai servers.installer c).0.extensions ≡ true
      installed c = rw (install_ai, usual) (create_extension-there "ai" c)

  -- and the script of the package does not bring it
  pub prepare-no_ai :
      (target : String) (dbs end : Databases)
      → servers.installer.standard ≡ false
      → member "ai" dbs.sink.extensions ≡ false
      → prepare servers settings options config target dbs ≡ returned end
      → member "ai" end.sink.extensions ≡ false
  unfolding install_ai
  prepare-no_ai target dbs end manual none_before h =
      prepared (λ c. member "ai" c.extensions ≡ false) dbs.sink
        (λ c e.
          ap (member "ai") (unchanged (create_raw_table config (create_extension "vector" c)))
          ∙ ap (member "ai") (create_raw_table-extensions config (create_extension "vector" c))
          ∙ create_extension-other c
          ∙ ap (member "ai") e
          ∙ none_before)
        target dbs end refl h
    where
      unchanged : (c : SinkCatalog) → (install_ai servers.installer c).0.extensions ≡ c.extensions
      unchanged c = ground (arith, manual)
