-- ===== src/SinkSetup/Replans.antt =====
-- What the planner does about the vectorizer after `setup_sink` of src/pg_replica/database.py has returned.
use postgres_search_replica.Prelude.{
  String, string_eq, ◌≡◌, refl, sym, ap, ◌∙◌, true, false, Option, none, some, [], ◌∷◌, Elem,
  after_dot, has, has-append, has-append_right, concat, ◌==◌, Bool-cases, inl, inr, eq_iff, any,
  or_else, if◌then◌else◌,
}
use postgres_search_replica.Prelude.Dict.{Dict, lookup, member}
use postgres_search_replica.Config.{Settings, SearchPipeline}
use postgres_search_replica.Config.Json.{Json}
use postgres_search_replica.Reconciler.{Vectorizer, Params, sink_vectorizer_setup}
use postgres_search_replica.Reconciler.Planner.Names.{action, store_name, is_target}
use postgres_search_replica.Reconciler.Planner.Blocks.{vectorizer_actions, vectorizer_exists}
use postgres_search_replica.Inspector.{SinkCatalog, get_sink_state, group_vectorizers}
use postgres_search_replica.SinkSetup.Databases.{Databases, returned}
use postgres_search_replica.SinkSetup.Vectorizer.{vectorizer_name}
use postgres_search_replica.SinkSetup.Setup.{Servers, setup_sink}
use postgres_search_replica.SinkSetup.Prepared.{prepare-no_ai}
use postgres_search_replica.SinkSetup.Made.{IsPgai}
use postgres_search_replica.SinkSetup.Settled.{setup-found, stages, stage-made}

-- without the extension, discovery lists no vectorizers
no_ai-vectorizer_exists :
    (hexdigest : Json → String) (catalog : SinkCatalog) (settings : Settings) (table store : String)
    → member "ai" catalog.extensions ≡ false
    → vectorizer_exists (get_sink_state hexdigest catalog settings) table store ≡ false
unfolding vectorizer_exists get_sink_state
no_ai-vectorizer_exists hexdigest catalog settings table store n =
    ap
      (λ b.
        any (λ v. is_target store v.target_table)
          (or_else (lookup table (if b then group_vectorizers catalog.vectorizers [] else [])) []))
      n

store_name-has : (table version : String) → has "_store_v" (store_name table version) ≡ true
store_name-has table version =
    has-append_right "_store_v" table (concat ("_store_v" ∷ version ∷ []))
      (has-append "_store_v" (concat (version ∷ [])))

-- the name of a store is not empty, so it is taken as it is
store_name-named :
    (config : SearchPipeline) (version : String)
    → vectorizer_name config (some (store_name config.ingest.table version))
      ≡ store_name config.ingest.table version
unfolding vectorizer_name
store_name-named config version = elim (Bool-cases (store_name config.ingest.table version == "")) [
  | inl t ↦ cc (
    ap (has "_store_v") ((eq_iff (store_name config.ingest.table version) "").0 t),
    store_name-has config.ingest.table version,
  )
  | inr f ↦ rw (vectorizer_name, f) refl
]

module _ (servers : Servers) (settings : Settings) (options : Dict String String)
    (config : SearchPipeline) (target version : String) (dbs end : Databases)
    (hexdigest : Json → String) where
  -- After a set-up that returns, for the store of the version, the planner plans no other one: where
  -- the extension is installed in the usual way, the table's name has no dot, and a vectorizer that
  -- had the store's name before is one of the target's table with that store.
  pub setup-settles :
      IsPgai servers.create_vectorizer
      → servers.installer.standard ≡ true
      → after_dot config.ingest.table ≡ config.ingest.table
      → ((r : String × Vectorizer)
          → Elem r dbs.sink.vectorizers
          → r.1.name ≡ store_name config.ingest.table version
          → (after_dot r.0 ≡ config.ingest.table)
            × (r.1.target_table ≡ some (store_name config.ingest.table version)))
      → setup_sink servers settings options config target
          (some (store_name config.ingest.table version))
          dbs
        ≡ returned end
      → vectorizer_actions
          (get_sink_state hexdigest end.sink settings)
          target
          config.ingest.table
          version
        ≡ []
  unfolding vectorizer_actions
  setup-settles pgai usual plain proper h =
      let named = store_name-named config version in
      rw
        (
          vectorizer_actions,
          ap (vectorizer_exists (get_sink_state hexdigest end.sink settings) config.ingest.table)
                (sym named)
              ∙ setup-found servers settings options config target
                  (some (store_name config.ingest.table version)) dbs end hexdigest pgai usual plain
                  (λ r m e.
                    let (table, store) = proper r m (e ∙ named) in
                    (table, store ∙ ap some (sym named)))
                  h,
        )
        refl

  -- Where the sink had no extension `ai`, CREATE EXTENSION fails and the script of the package is run in
  -- its place, and pgai makes a vectorizer without changing the list of extensions, the sink has no
  -- extension `ai` after a set-up that returns either: discovery lists no vectorizers, and the planner
  -- plans the set-up of the sink again, for every version.
  pub manual-replanned :
      (store : Option String)
      → IsPgai servers.create_vectorizer
      → servers.installer.standard ≡ false
      → member "ai" dbs.sink.extensions ≡ false
      → setup_sink servers settings options config target store dbs ≡ returned end
      → (member "ai" end.sink.extensions ≡ false)
        × ((get_sink_state hexdigest end.sink settings).vectorizers ≡ [])
        × (vectorizer_actions
              (get_sink_state hexdigest end.sink settings)
              target
              config.ingest.table
              version
            ≡ action sink_vectorizer_setup (Params.vectorizer version none none) (some target) ∷ [])
  unfolding vectorizer_actions get_sink_state
  manual-replanned store pgai manual before h =
      let (middle, indexed, p, v, e) =
        stages servers settings options config target store dbs end h in
      let (k, m) =
        stage-made servers settings options config target store dbs end middle indexed v in
      let without : member "ai" end.sink.extensions ≡ false =
        ap (λ (c : SinkCatalog). member "ai" c.extensions) e
        ∙ ap (member "ai") (pgai.extensions_kept k _ middle.sink indexed.sink m)
        ∙ prepare-no_ai servers settings options config target dbs middle manual before p in
      (
        without,
        ap (λ b. if b then group_vectorizers end.sink.vectorizers [] else []) without,
        rw
            (
              vectorizer_actions,
              no_ai-vectorizer_exists hexdigest end.sink settings config.ingest.table
                  (store_name config.ingest.table version) without,
            )
            refl,
      )
