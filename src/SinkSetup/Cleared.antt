-- ===== src/SinkSetup/Cleared.antt =====
-- What `cleanup_vectorizer_infrastructure` of src/pg_replica/database.py leaves of a store.
use postgres_search_replica.Prelude.{
  String, string_eq, ◌==◌, ◌||◌, ◌≡◌, ◌≢◌, refl, ap, inl, inr, Bool, true, false, or_else, ◌⊎◌,
  Option, none, some, [], keep, Elem, any, replace, arith, Bool-cases,
}
use postgres_search_replica.Prelude.Dict.{lookup, member, member-Elem, Elem-member}
use postgres_search_replica.Prelude.Effects.{ok, err, db_error}
use postgres_search_replica.Config.{SearchPipeline}
use postgres_search_replica.Reconciler.{Vectorizer}
use postgres_search_replica.Reconciler.Planner.Names.{view_name}
use postgres_search_replica.Inspector.{SinkCatalog}
use postgres_search_replica.SinkSetup.Rebuilt.{cleaned-unnamed}
use postgres_search_replica.SinkSetup.Cleanup.{
  drop_view, is_live, drop_live_view, is_named, drop_named, drop_relation, drop_zombies, cleaned,
  cleanup_vectorizer_infrastructure,
}
use postgres_search_replica.SinkSetup.Relations.{
  Lacks, Lacks-shrunk, Shrinks, Shrinks-trans, drop_listed-Shrinks, drop_live_view-Shrinks,
  drop_relation-Lacks, drop_relation-Shrinks, drop_view-gone,
}

absent-idle :
    (target store view : String) (c : SinkCatalog)
    → member (view_name target) c.views ≡ false
    → is_live target store view c ≡ false
unfolding is_live
absent-idle target store view c f = rw (is_live, f) refl

-- what is not live does not become live
Shrinks-idle :
    (target store view : String) (new old : SinkCatalog)
    → Shrinks new old
    → is_live target store view old ≡ false
    → is_live target store view new ≡ false
unfolding is_live
Shrinks-idle target store view new old s f =
    elim (Bool-cases (member (view_name target) new.views)) [
      | inl t ↦ ground (
        arith,
        f,
        member-Elem (view_name target) old.views
            (s.views_go (view_name target) (Elem-member (view_name target) new.views t)),
        ap
            (λ usage.
              any (λ r. r == store || r == view) (or_else (lookup (view_name target) usage) []))
            s.usage,
      )
      | inr f ↦ absent-idle target store view new f
    ]

drop_live_view-idle :
    (target store view : String) (c : SinkCatalog)
    → is_live target store view (drop_live_view target store view c) ≡ false
unfolding drop_live_view
drop_live_view-idle target store view c = elim (Bool-cases (is_live target store view c)) [
  | inl t ↦
      rw (drop_live_view, t)
        (absent-idle target store view (drop_view false (view_name target) c)
          (elim (Bool-cases
            (member (view_name target) (drop_view false (view_name target) c).views)) [
              | inl m ↦
                  elim (drop_view-gone (view_name target) c (view_name target)
                    (Elem-member (view_name target) (drop_view false (view_name target) c).views m)
                    refl) [ ]
              | inr f ↦ f
            ]))
  | inr f ↦ rw (drop_live_view, f) f
]

drop_zombies-Shrinks :
    (prosrc : String → String) (table store : String) (c : SinkCatalog)
    → Shrinks (drop_zombies prosrc table store c) c
unfolding drop_zombies
drop_zombies-Shrinks prosrc table store c = record {
  views_go = λ v m. m;
  tables_go = λ t m. m;
  usage = refl;
}

module _ (prosrc : String → String) (views_stay tables_stay : String → Bool)
    (config : SearchPipeline) (target store : String) (catalog : SinkCatalog) where
  -- Nothing of the store is left but what could not be dropped: no vectorizer has its name, no view or
  -- table has its name or that of its view, unless a drop of that name was refused, and the search view
  -- of the target reads neither. No relation has come.
  pub record IsCleared (after : SinkCatalog) : Type 0 where
    pub unnamed : (r : String × Vectorizer) → Elem r after.vectorizers → r.1.name ≢ store
    pub store_gone : ((views_stay store || tables_stay store) ≡ true) ⊎ Lacks store after
    pub view_gone :
        ((views_stay (replace "_store" "_embedding" store)
            || tables_stay (replace "_store" "_embedding" store))
          ≡ true)
        ⊎ Lacks (replace "_store" "_embedding" store) after
    pub idle : is_live target store (replace "_store" "_embedding" store) after ≡ false
    pub shrunk : Shrinks after catalog

  refused_or :
      {b : Bool} (name : String) (new old : SinkCatalog)
      → Shrinks new old
      → (b ≡ true) ⊎ Lacks name old
      → (b ≡ true) ⊎ Lacks name new
  refused_or name new old s (inl t) = inl t
  refused_or name new old s (inr l) = inr (Lacks-shrunk name new old s l)

  -- the block as a whole
  cleaned-IsCleared : IsCleared (cleaned prosrc views_stay tables_stay config target store catalog)
  unfolding cleaned
  cleaned-IsCleared =
      let view = replace "_store" "_embedding" store in
      let off : SinkCatalog = drop_live_view target store view catalog in
      let named : SinkCatalog = drop_named store off in
      let less : SinkCatalog = drop_relation views_stay tables_stay store named in
      let last : SinkCatalog = drop_relation views_stay tables_stay view less in
      let end : SinkCatalog = drop_zombies prosrc config.ingest.table store last in
      let ending : Shrinks end last = drop_zombies-Shrinks prosrc config.ingest.table store last in
      let after_store : Shrinks end less =
        Shrinks-trans end last less ending
          (drop_relation-Shrinks views_stay tables_stay view less) in
      let after_off : Shrinks end off = Shrinks-trans end less off after_store (
        Shrinks-trans less named off (drop_relation-Shrinks views_stay tables_stay store named)
          (drop_listed-Shrinks (keep (is_named store) off.vectorizers) off)) in
      record {
        unnamed = cleaned-unnamed prosrc views_stay tables_stay config target store catalog;
        store_gone =
            refused_or store end less after_store
              (drop_relation-Lacks views_stay tables_stay store named);
        view_gone =
            refused_or view end last ending (drop_relation-Lacks views_stay tables_stay view less);
        idle =
            Shrinks-idle target store view end off after_off
              (drop_live_view-idle target store view catalog);
        shrunk =
            Shrinks-trans end off catalog after_off
              (drop_live_view-Shrinks target store view catalog);
      }

  -- A clean-up either fails and has changed nothing, or it returns: then no vectorizer has the store's
  -- name, no view or table has that name or the name of its view, unless a safety drop of the name was
  -- refused, whose error is swallowed, the search view of the target reads neither, and no relation has
  -- come.
  pub cleanup-Clears :
      (fails : Option String)
      → (((cleanup_vectorizer_infrastructure prosrc views_stay tables_stay fails config target store
              catalog).1
            ≡ ok tt)
          × IsCleared
              (cleanup_vectorizer_infrastructure prosrc views_stay tables_stay fails config target
                store catalog).0)
        ⊎ ((m : String) × (cleanup_vectorizer_infrastructure prosrc views_stay tables_stay fails
                config target store catalog
              ≡ (catalog, err (db_error m))))
  unfolding cleanup_vectorizer_infrastructure
  cleanup-Clears none = inl (refl, cleaned-IsCleared)
  cleanup-Clears (some m) = inr (m, refl)
