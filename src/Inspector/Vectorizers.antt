-- ===== src/Inspector/Vectorizers.antt =====
-- The vectorizers that `get_sink_state` of src/pg_replica/reconciler.py lists under a raw table.
use postgres_search_replica.Prelude.{
  String, string_eq, ◌==◌, ◌≡◌, refl, sym, ap, ◌∙◌, ◌&&◌, ◌||◌, any, Bool, true, false, or_else,
  List, [], ◌∷◌, ◌++◌, arith, eq_iff, keep, map, after_dot, Bool-cases, inl, inr, if◌then◌else◌,
}
use mathlib.Core.List.{append_assoc, append-nil}
use postgres_search_replica.Prelude.Dict.{Dict, lookup, member, lookup-insert}
use postgres_search_replica.Reconciler.{Vectorizer}
use postgres_search_replica.Config.{Settings}
use postgres_search_replica.Config.Json.{Json}
use postgres_search_replica.Reconciler.Planner.Names.{is_target}
use postgres_search_replica.Reconciler.Planner.Blocks.{vectorizer_exists}
use postgres_search_replica.Inspector.{
  SinkCatalog, get_sink_state, group_vectorizers, add_vectorizer,
}

abbrev pub on_table : String → List (String × Vectorizer) → List (String × Vectorizer)
on_table table = keep (λ r. after_dot r.0 == table)

abbrev pub group_at : String → Dict String (List Vectorizer) → List Vectorizer
group_at table groups = or_else (lookup table groups) []

group_at-add :
    (table other : String) (v : Vectorizer) (groups : Dict String (List Vectorizer))
    → group_at table (add_vectorizer other v groups)
      ≡ (if other == table then group_at table groups ++ v ∷ [] else group_at table groups)
group_at-add table other v groups =
    ground (
      arith,
      lookup-insert other table (group_at other groups ++ v ∷ []) groups,
      eq_iff other table,
    )

-- a row joins the group or not
join :
    (b : Bool) (group : List Vectorizer) (row : String × Vectorizer)
    (rows : List (String × Vectorizer))
    → (if b then group ++ row.1 ∷ [] else group) ++ map (λ r. r.1) rows
      ≡ group ++ map (λ r. r.1) (if b then row ∷ rows else rows)
join true group row rows = append_assoc group (row.1 ∷ []) (map (λ r. r.1) rows)
join false group row rows = refl

-- The group of a table is its vectorizers in the order in which they are listed.
pub group_at-group_vectorizers :
    (table : String) (rows : List (String × Vectorizer)) (groups : Dict String (List Vectorizer))
    → group_at table (group_vectorizers rows groups)
      ≡ group_at table groups ++ map (λ r. r.1) (on_table table rows)
unfolding group_vectorizers
group_at-group_vectorizers table [] groups = sym (append-nil (group_at table groups))
group_at-group_vectorizers table ((source, v) ∷ rows) groups =
    group_at-group_vectorizers table rows (add_vectorizer (after_dot source) v groups)
    ∙ ap (λ g. g ++ map (λ r. r.1) (on_table table rows))
        (group_at-add table (after_dot source) v groups)
    ∙ join (after_dot source == table) (group_at table groups) (source, v) (on_table table rows)

-- Whether some vectorizer of the table has a store is read off the listed rows.
abbrev pub has_store : String → String → List (String × Vectorizer) → Bool
has_store table target = any (λ r. after_dot r.0 == table && is_target target r.1.target_table)

any-on_table :
    (table target : String) (rows : List (String × Vectorizer))
    → any (λ v. is_target target v.target_table) (map (λ r. r.1) (on_table table rows))
      ≡ has_store table target rows
any-on_table table target [] = refl
any-on_table table target (r ∷ rows) = elim (Bool-cases (after_dot r.0 == table)) [
  | inl t ↦ rw t (ap (λ b. is_target target r.1.target_table || b) (any-on_table table target rows))
  | inr f ↦ rw f (any-on_table table target rows)
]

pub vectorizer_exists-get_sink_state :
    (hexdigest : Json → String) (catalog : SinkCatalog) (settings : Settings)
    (table target : String)
    → member "ai" catalog.extensions ≡ true
    → vectorizer_exists (get_sink_state hexdigest catalog settings) table target
      ≡ has_store table target catalog.vectorizers
unfolding vectorizer_exists get_sink_state
vectorizer_exists-get_sink_state hexdigest catalog settings table target loaded =
    ap
      (λ b.
        any (λ v. is_target target v.target_table)
          (group_at table (if b then group_vectorizers catalog.vectorizers [] else [])))
      loaded
    ∙ ap (any (λ v. is_target target v.target_table))
        (group_at-group_vectorizers table catalog.vectorizers [])
    ∙ any-on_table table target catalog.vectorizers
