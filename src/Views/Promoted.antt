-- ===== src/Views/Promoted.antt =====
-- What `atomic_view_swap` of src/pg_replica/database.py leaves in the sink, and what discovery and the planner
-- of src/pg_replica/reconciler.py make of it.
use mathlib.Core.Path.{subst}
use postgres_search_replica.Prelude.{
  String, string_eq, ◌==◌, ◌≡◌, ◌≢◌, refl, sym, ap, ◌∙◌, ◌⊎◌, inl, inr, Bool, true, not, Option,
  some, List, [], ◌∷◌, ◌++◌, arith, eq_iff,
}
use postgres_search_replica.Prelude.Dict.{
  lookup, insert, member, member-keep, member-append, lookup-insert_self, lookup-insert_ne,
}
use postgres_search_replica.Prelude.Effects.{Result, ok, err, Exn, >>=-eq-ok}
use postgres_search_replica.Config.{SearchPipeline}
use postgres_search_replica.Reconciler.Planner.Names.{view_name}
use postgres_search_replica.Inspector.{SinkCatalog}
use postgres_search_replica.Views.{
  Statement, without, used, drop_search_view, create_search_view, set_hash, record_hash,
  raw_table_of, embedding_view, view_columns, swap_transaction, or_rollback, atomic_view_swap,
}

-- The view reads the two relations and the hash is recorded; nothing else has changed.
pub record Swapped (target hash : String) (relations : List String) (old new : SinkCatalog)
    : Type 0 where
  pub there : member (view_name target) new.views ≡ true
  pub reads : lookup (view_name target) new.view_usage ≡ some relations
  pub recorded : new.states ≡ set_hash target hash old.states
  pub others :
      (j : String)
      → view_name target ≢ j
      → (member j new.views ≡ member j old.views)
        × (lookup j new.view_usage ≡ lookup j old.view_usage)
  pub vectorizers : new.vectorizers ≡ old.vectorizers
  pub extensions : new.extensions ≡ old.extensions
  pub base_tables : new.base_tables ≡ old.base_tables

-- all or nothing
abbrev pub IsAtomic :
    String → String → List String → SinkCatalog → SinkCatalog × Result (Unit {0}) → Type 0
IsAtomic target hash relations old r =
    ((r.1 ≡ ok tt) × Swapped target hash relations old r.0)
    ⊎ ((x : Exn) × (r.1 ≡ err x) × (r.0 ≡ old))

module _ (fails : Statement → Option String) (raw_first : Bool) where
  drop_ok :
      (name : String) (c d : SinkCatalog)
      → drop_search_view fails raw_first name c ≡ ok d
      → d ≡ record c { views = without name c.views }
  unfolding drop_search_view
  drop_ok name c d h = ground arith

  create_ok :
      (name raw view : String) (columns : List String) (c d : SinkCatalog)
      → create_search_view fails raw_first name raw view columns c ≡ ok d
      → d ≡ record c {
        views = c.views ++ name ∷ [];
        view_usage = insert name (used raw_first raw view) c.view_usage;
      }
  unfolding create_search_view
  create_ok name raw view columns c d h = ground arith

  record_ok :
      (target hash : String) (c d : SinkCatalog)
      → record_hash fails raw_first target hash c ≡ ok d
      → d ≡ record c { states = set_hash target hash c.states }
  unfolding record_hash
  record_ok target hash c d h = ground arith

  -- the catalog after the three statements
  abbrev swapped : String → String → String → String → SinkCatalog → SinkCatalog
  swapped target hash raw view c = record c {
    views = without (view_name target) c.views ++ view_name target ∷ [];
    view_usage = insert (view_name target) (used raw_first raw view) c.view_usage;
    states = set_hash target hash c.states;
  }

  transaction_ok :
      (config : SearchPipeline) (target hash raw view : String) (c d : SinkCatalog)
      → swap_transaction fails raw_first config target hash raw view c ≡ ok d
      → d ≡ swapped target hash raw view c
  unfolding swap_transaction
  transaction_ok config target hash raw view c d h =
      let (a, dropped, rest) =
        >>=-eq-ok (drop_search_view fails raw_first (view_name target) c) _ h in
      let (b, created, last) =
        >>=-eq-ok
          (create_search_view fails raw_first (view_name target) raw view (view_columns config) a) _
          rest in
      record_ok target hash b d last
      ∙ ap {A = SinkCatalog} {B = SinkCatalog}
          (λ m. record m { states = set_hash target hash m.states })
          (create_ok (view_name target) raw view (view_columns config) a b created
            ∙ ap {A = SinkCatalog} {B = SinkCatalog}
                (λ m. record m {
                  views = m.views ++ view_name target ∷ [];
                  view_usage = insert (view_name target) (used raw_first raw view) m.view_usage;
                })
                (drop_ok (view_name target) c a dropped))

  swapped-Swapped :
      (target hash raw view : String) (c : SinkCatalog)
      → Swapped target hash (used raw_first raw view) c (swapped target hash raw view c)
  swapped-Swapped target hash raw view c = record {
    there =
        member-append name (without name c.views) (name ∷ [])
        ∙ ground (arith, eq_iff name name, member name (without name c.views));
    reads = lookup-insert_self name (used raw_first raw view) c.view_usage;
    recorded = refl;
    others = λ j apart. (
      member-append j (without name c.views) (name ∷ [])
          ∙ ground (
            arith,
            member-keep (λ v. not (v == name)) j c.views,
            eq_iff name j,
            eq_iff j name,
            apart,
          ),
      lookup-insert_ne name j (used raw_first raw view) c.view_usage apart,
    );
    vectorizers = refl;
    extensions = refl;
    base_tables = refl;
  }
    where
      name : String
      name = view_name target

  rolled_back :
      (config : SearchPipeline) (target hash raw view : String) (c : SinkCatalog)
      (r : Result SinkCatalog)
      → swap_transaction fails raw_first config target hash raw view c ≡ r
      → IsAtomic target hash (used raw_first raw view) c (or_rollback fails raw_first c r)
  rolled_back config target hash raw view c (ok d) h = inl (
    refl,
    subst (Swapped target hash (used raw_first raw view) c)
        (sym (transaction_ok config target hash raw view c d h))
        (swapped-Swapped target hash raw view c),
  )
  rolled_back config target hash raw view c (err x) h = inr (x, refl, refl)

  -- A swap either returns without an error, and then the search view of the target exists and reads
  -- the raw table and the embedding view, the hash is recorded in the target's state row if there is
  -- one, and no other view, table or vectorizer has changed; or it raises and the sink is as it was.
  pub atomic_view_swap-Swapped :
      (config : SearchPipeline) (target hash : String)
      (target_table vectorizer_target : Option String) (c : SinkCatalog)
      → IsAtomic target hash
          (used raw_first
            (raw_table_of config target_table)
            (embedding_view (raw_table_of config target_table) vectorizer_target c))
          c
          (atomic_view_swap fails raw_first config target hash target_table vectorizer_target c)
  unfolding atomic_view_swap
  atomic_view_swap-Swapped config target hash target_table vectorizer_target c =
      rolled_back config target hash (raw_table_of config target_table)
        (embedding_view (raw_table_of config target_table) vectorizer_target c) c _ refl
