-- ===== src/Sync/Table.antt =====
-- A sink table under its primary key, and the statements that change it.
use postgres_search_replica.Prelude.{
  ◌≡◌, refl, Bool, not, none, some, List, [], ◌∷◌, ◌++◌, arith, Eq, keep, if◌then◌else◌,
}
use postgres_search_replica.Prelude.Dict.{
  Dict, keys, lookup, contains, insert, member, lookup-insert,
}

module _ {K V : Type 0} ⦃e : Eq K⦄ where
  -- INSERT … ON CONFLICT (p_key) DO UPDATE, for each row in turn
  unfoldable pub upsert_all : Dict K V → List (K × V) → Dict K V
  upsert_all table [] = table
  upsert_all table ((k, v) ∷ rows) = upsert_all (insert k v table) rows

  -- DELETE … WHERE p_key = ANY(ids)
  unfoldable pub delete_any : List K → Dict K V → Dict K V
  delete_any ids table = keep (λ r. not (member r.0 ids)) table

  pub upsert_all-append :
      (table : Dict K V) (xs ys : List (K × V))
      → upsert_all table (xs ++ ys) ≡ upsert_all (upsert_all table xs) ys
  unfolding upsert_all
  upsert_all-append table [] ys = refl
  upsert_all-append table ((k, v) ∷ xs) ys = upsert_all-append (insert k v table) xs ys

  -- no key twice
  abbrev pub Unique : Dict K V → Type 0
  Unique [] = Unit
  Unique ((k, v) ∷ rows) = (lookup k rows ≡ none) × Unique rows

  -- The rows win over the table, where their keys are distinct.
  pub lookup-upsert_all :
      (table : Dict K V) (rows : List (K × V)) (j : K)
      → Unique rows
      → lookup j (upsert_all table rows)
        ≡ elim (lookup j rows) [ none ↦ lookup j table | some v ↦ some v ]
  unfolding upsert_all
  lookup-upsert_all table [] j u = refl
  lookup-upsert_all table ((k, v) ∷ rows) j u = ground (
    arith,
    lookup-upsert_all (insert k v table) rows j u.1,
    lookup-insert k j v table,
    e.beq_iff k j,
  )

  pub lookup-keep :
      (p : K → Bool) (table : Dict K V) (j : K)
      → lookup j (keep (λ r. p r.0) table) ≡ (if p j then lookup j table else none)
  lookup-keep p [] j = ground arith
  lookup-keep p ((k, v) ∷ rows) j = ground (arith, lookup-keep p rows j, e.beq_iff k j)

  pub lookup-delete_any :
      (ids : List K) (table : Dict K V) (j : K)
      → lookup j (delete_any ids table) ≡ (if member j ids then none else lookup j table)
  unfolding delete_any
  lookup-delete_any ids table j = ground (arith, lookup-keep (λ k. not (member k ids)) table j)

  pub member-keys : (table : Dict K V) (j : K) → member j (keys table) ≡ contains j table
  member-keys [] j = refl
  member-keys ((k, v) ∷ rows) j = ground (arith, member-keys rows j)
