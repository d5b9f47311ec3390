-- ===== src/SinkSetup/Rebuilt.antt =====
-- A clean-up of src/pg_replica/database.py followed by a set-up, as the handler of SINK_VECTORIZER_SETUP in
-- src/pg_replica/reconciler.py calls them.
use postgres_search_replica.Prelude.{
  ℕ, zero, suc, String, string_eq, nat_eq, ◌≡◌, ◌≢◌, refl, ◌∙◌, inl, inr, true, false, not, Option,
  some, List, [], ◌∷◌, keep, Elem-keep, Elem, replace, after_dot, arith, eq_iff, Bool-cases,
  Option-cases, Bool, ◌&&◌,
}
use postgres_search_replica.Prelude.Dict.{Dict, member, contains}
use postgres_search_replica.Config.{Settings, SearchPipeline}
use postgres_search_replica.Config.Json.{Json}
use postgres_search_replica.Reconciler.{Vectorizer}
use postgres_search_replica.Reconciler.Planner.Names.{store_name, view_name}
use postgres_search_replica.Reconciler.Planner.Blocks.{vectorizer_actions}
use postgres_search_replica.Inspector.{SinkCatalog, get_sink_state}
use postgres_search_replica.Teardown.Dropping.{drop_listed-Elem}
use postgres_search_replica.SinkSetup.Databases.{Databases, returned}
use postgres_search_replica.SinkSetup.Setup.{Servers, setup_sink}
use postgres_search_replica.SinkSetup.Made.{IsPgai}
use postgres_search_replica.SinkSetup.Replans.{setup-settles}
use postgres_search_replica.SinkSetup.Cleanup.{
  uses_any, cascade, drop_view, drop_table, drop_live_view, is_named, drop_named, drop_relation,
  drop_zombies, cleaned, cleanup_vectorizer_infrastructure, rebuild,
}

-- relations go, vectorizers stay
cascade-vectorizers :
    (fuel : ℕ) (gone : List String) (c : SinkCatalog)
    → (cascade fuel gone c).vectorizers ≡ c.vectorizers
unfolding cascade
cascade-vectorizers zero gone c = refl
cascade-vectorizers (suc fuel) gone c =
    cascade-vectorizers fuel (keep (uses_any gone c) c.views)
      (record c { views = keep (λ view. not (uses_any gone c view)) c.views })

drop_view-vectorizers :
    (refused : Bool) (name : String) (c : SinkCatalog)
    → (drop_view refused name c).vectorizers ≡ c.vectorizers
unfolding drop_view
drop_view-vectorizers refused name c = elim (Bool-cases (not refused && member name c.views)) [
  | inl t ↦ rw (drop_view, t) (cascade-vectorizers _ (name ∷ []) _)
  | inr f ↦ rw (drop_view, f) refl
]

drop_table-vectorizers :
    (refused : Bool) (name : String) (c : SinkCatalog)
    → (drop_table refused name c).vectorizers ≡ c.vectorizers
unfolding drop_table
drop_table-vectorizers refused name c =
    elim (Bool-cases (not refused && contains name c.base_tables)) [
      | inl t ↦ rw (drop_table, t) (cascade-vectorizers _ (name ∷ []) _)
      | inr f ↦ rw (drop_table, f) refl
    ]

drop_relation-vectorizers :
    (views_stay tables_stay : String → Bool) (name : String) (c : SinkCatalog)
    → (drop_relation views_stay tables_stay name c).vectorizers ≡ c.vectorizers
drop_relation-vectorizers views_stay tables_stay name c =
    drop_table-vectorizers (tables_stay name) name (drop_view (views_stay name) name c)
    ∙ drop_view-vectorizers (views_stay name) name c

drop_live_view-vectorizers :
    (target store view : String) (c : SinkCatalog)
    → (drop_live_view target store view c).vectorizers ≡ c.vectorizers
unfolding drop_live_view
drop_live_view-vectorizers target store view c =
    ground (arith, drop_view-vectorizers false (view_name target) c)

module _ (prosrc : String → String) (views_stay tables_stay : String → Bool)
    (config : SearchPipeline) (target store : String) (c : SinkCatalog) where
  cleaned-vectorizers :
      (cleaned prosrc views_stay tables_stay config target store c).vectorizers
      ≡ (drop_named store
          (drop_live_view target store (replace "_store" "_embedding" store) c)).vectorizers
  unfolding cleaned drop_zombies
  cleaned-vectorizers =
      drop_relation-vectorizers views_stay tables_stay (replace "_store" "_embedding" store) _
      ∙ drop_relation-vectorizers views_stay tables_stay store _

  -- none that has the name is left
  pub cleaned-unnamed :
      (row : String × Vectorizer)
      → Elem row (cleaned prosrc views_stay tables_stay config target store c).vectorizers
      → row.1.name ≢ store
  cleaned-unnamed row m e =
      let live : SinkCatalog =
        drop_live_view target store (replace "_store" "_embedding" store) c in
      let (there, apart) =
        drop_listed-Elem (λ i. false) row (keep (is_named store) live.vectorizers) live (λ i. refl)
          (rw cleaned-vectorizers at m) in
      apart row
        (Elem-keep (is_named store) row live.vectorizers there ((eq_iff row.1.name store).1 e)) refl

module _ (prosrc : String → String) (views_stay tables_stay : String → Bool) (fails : Option String)
    (servers : Servers) (settings : Settings) (options : Dict String String)
    (config : SearchPipeline) (target version : String) (dbs end : Databases)
    (hexdigest : Json → String) where
  -- the clean-up, where it has not failed, and the set-up after it
  rebuild-stages :
      rebuild prosrc views_stay tables_stay fails servers settings options config target
          (store_name config.ingest.table version)
          dbs
        ≡ returned end
      → setup_sink servers settings options config target
          (some (store_name config.ingest.table version))
          (record dbs {
            sink =
                cleaned prosrc views_stay tables_stay config target
                  (store_name config.ingest.table version)
                  dbs.sink;
          })
        ≡ returned end
  unfolding rebuild cleanup_vectorizer_infrastructure
  rebuild-stages h = elim (Option-cases fails) [
    | inl n ↦ rw (rebuild, cleanup_vectorizer_infrastructure, n) at h
    | inr (m, s) ↦ cc (rw (rebuild, cleanup_vectorizer_infrastructure, s) at h)
  ]

  -- After a clean-up and a set-up that both return, for the store of a version, the planner plans no
  -- other one, whatever vectorizers the sink had before, where the extension is installed in the usual
  -- way and the table's name has no dot.
  pub rebuild-settles :
      IsPgai servers.create_vectorizer
      → servers.installer.standard ≡ true
      → after_dot config.ingest.table ≡ config.ingest.table
      → rebuild prosrc views_stay tables_stay fails servers settings options config target
          (store_name config.ingest.table version)
          dbs
        ≡ returned end
      → vectorizer_actions
          (get_sink_state hexdigest end.sink settings)
          target
          config.ingest.table
          version
        ≡ []
  rebuild-settles pgai usual plain h =
      setup-settles servers settings options config target version _ end hexdigest pgai usual plain
        (λ r m e.
          elim (cleaned-unnamed prosrc views_stay tables_stay config target
            (store_name config.ingest.table version) dbs.sink r m e) [ ])
        (rebuild-stages h)
