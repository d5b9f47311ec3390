-- ===== src/SinkSetup/Relations.antt =====
-- Dropping a relation of the sink: what goes in `cleanup_vectorizer_infrastructure` of
-- src/pg_replica/database.py, and that nothing comes.
use postgres_search_replica.Prelude.{
  ℕ, zero, suc, String, string_eq, ◌==◌, ◌≡◌, ◌≢◌, ◌&&◌, ◌||◌, ◌⊎◌, refl, sym, ap, ◌∙◌, inl, inr,
  Bool, true, false, not, List, [], ◌∷◌, keep, keep-Elem, Elem, arith, eq_iff, Bool-cases,
}
use postgres_search_replica.Prelude.Dict.{Dict, member, contains, member-Elem}
use postgres_search_replica.Reconciler.{Vectorizer}
use postgres_search_replica.Reconciler.Planner.Names.{view_name, is_target}
use postgres_search_replica.Inspector.{SinkCatalog}
use postgres_search_replica.Teardown.{drop_listed, drop_vectorizer}
use postgres_search_replica.SinkSetup.Cleanup.{
  uses_any, cascade, drop_view, drop_table, is_live, drop_live_view, drop_relation,
}

-- Relations only go, and what the views that are left read is as before.
pub record Shrinks (new old : SinkCatalog) : Type 0 where
  pub views_go : (v : String) → Elem v new.views → Elem v old.views
  pub tables_go : (t : String × List String) → Elem t new.base_tables → Elem t old.base_tables
  pub usage : new.view_usage ≡ old.view_usage

Shrinks-refl : (c : SinkCatalog) → Shrinks c c
Shrinks-refl c = record { views_go = λ v m. m; tables_go = λ t m. m; usage = refl }

pub Shrinks-trans : (a b c : SinkCatalog) → Shrinks a b → Shrinks b c → Shrinks a c
Shrinks-trans a b c p q = record {
  views_go = λ v m. q.views_go v (p.views_go v m);
  tables_go = λ t m. q.tables_go t (p.tables_go t m);
  usage = p.usage ∙ q.usage;
}

pub cascade-Shrinks :
    (fuel : ℕ) (gone : List String) (c : SinkCatalog) → Shrinks (cascade fuel gone c) c
unfolding cascade
cascade-Shrinks zero gone c = Shrinks-refl c
cascade-Shrinks (suc fuel) gone c =
    let next : SinkCatalog = record c {
      views = keep (λ view. not (uses_any gone c view)) c.views;
    } in
    let rest = cascade-Shrinks fuel (keep (uses_any gone c) c.views) next in
    record {
      views_go =
          λ v m. (keep-Elem (λ view. not (uses_any gone c view)) v c.views (rest.views_go v m)).0;
      tables_go = rest.tables_go;
      usage = rest.usage;
    }

other : (p q : String) → not (p == q) ≡ true → p ≢ q
other p q h e = cc (h, (eq_iff p q).1 e)

-- a view goes, and no relation comes
drop_view-Shrinks :
    (refused : Bool) (name : String) (c : SinkCatalog) → Shrinks (drop_view refused name c) c
unfolding drop_view
drop_view-Shrinks refused name c = elim (Bool-cases (not refused && member name c.views)) [
  | inl t ↦
      rw (drop_view, t)
        (let next : SinkCatalog = record c { views = keep (λ v. not (v == name)) c.views } in
          Shrinks-trans _ next c (cascade-Shrinks _ (name ∷ []) next) (record {
            views_go = λ v m. (keep-Elem (λ v. not (v == name)) v c.views m).0;
            tables_go = λ t m. m;
            usage = refl;
          }))
  | inr f ↦ rw (drop_view, f) (Shrinks-refl c)
]

pub drop_view-gone :
    (name : String) (c : SinkCatalog) (v : String)
    → Elem v (drop_view false name c).views
    → v ≢ name
unfolding drop_view
drop_view-gone name c v m e = elim (Bool-cases (member name c.views)) [
  | inl t ↦
      let next : SinkCatalog = record c { views = keep (λ v. not (v == name)) c.views } in
      other v name
        (keep-Elem (λ v. not (v == name)) v c.views
          ((cascade-Shrinks _ (name ∷ []) next).views_go v (rw (drop_view, t) at m))).1
        e
  | inr f ↦ cc (f, member-Elem name c.views (rw e at (rw (drop_view, f) at m)))
]

Elem-contains :
    (t : String × List String) (d : Dict String (List String)) → Elem t d → contains t.0 d ≡ true
Elem-contains t [] m = elim m [ ]
Elem-contains t (x ∷ d) (inl e) = rw (sym e, (eq_iff t.0 t.0).1 refl) refl
Elem-contains t (x ∷ d) (inr m) = ground (arith, Elem-contains t d m)

abbrev without_table : String → SinkCatalog → SinkCatalog
without_table name c = record c {
  base_tables = keep (λ t. not (t.0 == name)) c.base_tables;
  triggers = keep (λ t. not (t.1 == name)) c.triggers;
}

drop_table-Shrinks :
    (refused : Bool) (name : String) (c : SinkCatalog) → Shrinks (drop_table refused name c) c
unfolding drop_table
drop_table-Shrinks refused name c = elim (Bool-cases (not refused && contains name c.base_tables)) [
  | inl t ↦
      rw (drop_table, t)
        (Shrinks-trans _ (without_table name c) c
          (cascade-Shrinks _ (name ∷ []) (without_table name c))
          (record {
            views_go = λ v m. m;
            tables_go = λ t m. (keep-Elem (λ t. not (t.0 == name)) t c.base_tables m).0;
            usage = refl;
          }))
  | inr f ↦ rw (drop_table, f) (Shrinks-refl c)
]

drop_table-gone :
    (name : String) (c : SinkCatalog) (t : String × List String)
    → Elem t (drop_table false name c).base_tables
    → t.0 ≢ name
unfolding drop_table
drop_table-gone name c t m e = elim (Bool-cases (contains name c.base_tables)) [
  | inl there ↦
      other t.0 name
        (keep-Elem (λ t. not (t.0 == name)) t c.base_tables
          ((cascade-Shrinks _ (name ∷ []) (without_table name c)).tables_go t
            (rw (drop_table, there) at m))).1
        e
  | inr f ↦ cc (
    f,
    ap (λ k. contains k c.base_tables) e,
    Elem-contains t c.base_tables (rw (drop_table, f) at m),
  )
]

-- neither a view nor a table of the name is left
pub record Lacks (name : String) (c : SinkCatalog) : Type 0 where
  pub no_view : (v : String) → Elem v c.views → v ≢ name
  pub no_table : (t : String × List String) → Elem t c.base_tables → t.0 ≢ name

pub Lacks-shrunk :
    (name : String) (new old : SinkCatalog) → Shrinks new old → Lacks name old → Lacks name new
Lacks-shrunk name new old s l = record {
  no_view = λ v m. l.no_view v (s.views_go v m);
  no_table = λ t m. l.no_table t (s.tables_go t m);
}

module _ (views_stay tables_stay : String → Bool) where
  pub drop_relation-Shrinks :
      (name : String) (c : SinkCatalog) → Shrinks (drop_relation views_stay tables_stay name c) c
  drop_relation-Shrinks name c =
      Shrinks-trans _ (drop_view (views_stay name) name c) c
        (drop_table-Shrinks (tables_stay name) name (drop_view (views_stay name) name c))
        (drop_view-Shrinks (views_stay name) name c)

  -- a drop is refused, or the name is gone
  pub drop_relation-Lacks :
      (name : String) (c : SinkCatalog)
      → ((views_stay name || tables_stay name) ≡ true)
        ⊎ Lacks name (drop_relation views_stay tables_stay name c)
  drop_relation-Lacks name c = elim (Bool-cases (views_stay name)) [
    | inl t ↦ inl (rw t refl)
    | inr v ↦ elim (Bool-cases (tables_stay name)) [
      | inl t ↦ inl (rw (v, t) refl)
      | inr u ↦
          rw (v, u)
            (inr (record {
              no_view = λ n m.
                  drop_view-gone name c n
                    ((drop_table-Shrinks false name (drop_view false name c)).views_go n m);
              no_table = drop_table-gone name (drop_view false name c);
            }))
    ]
  ]

drop_vectorizer-Shrinks : (v : Vectorizer) (c : SinkCatalog) → Shrinks (drop_vectorizer v c) c
unfolding drop_vectorizer
drop_vectorizer-Shrinks v c = record {
  views_go = λ name m. (keep-Elem (λ name. not (is_target name v.view_name)) name c.views m).0;
  tables_go = λ t m. (keep-Elem (λ t. not (is_target t.0 v.target_table)) t c.base_tables m).0;
  usage = refl;
}

pub drop_listed-Shrinks :
    (rows : List (String × Vectorizer)) (c : SinkCatalog)
    → Shrinks (drop_listed (λ i. false) rows c) c
unfolding drop_listed
drop_listed-Shrinks [] c = Shrinks-refl c
drop_listed-Shrinks (r ∷ rows) c =
    Shrinks-trans _ (drop_vectorizer r.1 c) c (drop_listed-Shrinks rows (drop_vectorizer r.1 c))
      (drop_vectorizer-Shrinks r.1 c)

pub drop_live_view-Shrinks :
    (target store view : String) (c : SinkCatalog) → Shrinks (drop_live_view target store view c) c
unfolding drop_live_view
drop_live_view-Shrinks target store view c = elim (Bool-cases (is_live target store view c)) [
  | inl t ↦ rw (drop_live_view, t) (drop_view-Shrinks false (view_name target) c)
  | inr f ↦ rw (drop_live_view, f) (Shrinks-refl c)
]
