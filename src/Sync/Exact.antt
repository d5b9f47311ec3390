-- ===== src/Sync/Exact.antt =====
-- What the catch-up of reconciler.py leaves in the sink when it reads a Postgres source by keyset
-- pagination. The rows of the source do not change while the loop runs.
use mathlib.Core.Path.{subst}
use postgres_search_replica.Prelude.{
  ℕ, suc, ◌≤◌, ◌≡◌, refl, ap, ◌∙◌, inl, inr, Bool, ◌&&◌, Option, none, some, List, [], ◌∷◌, arith,
  Eq, keep, length, Bool-cases, if◌then◌else◌,
}
use postgres_search_replica.Prelude.Dict.{Dict, lookup}
use postgres_search_replica.Sync.Order.{Order, order_by, insert_row}
use postgres_search_replica.Sync.Table.{upsert_all, lookup-upsert_all, Unique}
use postgres_search_replica.Sync.Keyset.{after, keep-Ascending, fetch_batch}
use postgres_search_replica.Sync.Sorted.{order_by-Ascending, lookup-order_by, Ascending-Unique}
use postgres_search_replica.Sync.CatchUp.{
  Progress, store_page, catch_up, IsKeyset, store_all, pending, catch_up-eq-store_all,
}

module _ {K V : Type 0} ⦃e : Eq K⦄ ⦃o : Order K⦄ where
  -- A Postgres source pages its rows in the order of their keys.
  pub fetch_batch-IsKeyset :
      (rows : List (K × V)) (filter : K × V → Bool)
      → IsKeyset (order_by rows) filter (fetch_batch rows filter)
  unfolding fetch_batch
  fetch_batch-IsKeyset rows filter = record { page = λ last n. refl }

  length-insert_row :
      (r : K × V) (rows : List (K × V)) → length (insert_row r rows) ≡ suc (length rows)
  length-insert_row r [] = refl
  length-insert_row r (s ∷ rs) = ground (arith, length-insert_row r rs)

  length-order_by : (rows : List (K × V)) → length (order_by rows) ≡ length rows
  unfolding order_by
  length-order_by [] = refl
  length-order_by (r ∷ rs) = omega (arith, length-insert_row r (order_by rs), length-order_by rs)

  length-keep-le : (p : K × V → Bool) (rows : List (K × V)) → length (keep p rows) ≤ length rows
  length-keep-le p [] = omega arith
  length-keep-le p (r ∷ rs) = ground (arith, length-keep-le p rs)

  abbrev pub select_if : (K × V → Bool) → K → Option V → Option V
  select_if p k none = none
  select_if p k (some v) = if p (k, v) then some v else none

  keep_row_head :
      (p : K × V → Bool) (j : K) (v : V) (rs : Dict K V)
      → lookup j (keep p rs) ≡ none
      → lookup j (keep p ((j, v) ∷ rs)) ≡ select_if p j (lookup j ((j, v) ∷ rs))
  keep_row_head p j v rs h =
      let same = (e.beq_iff j j).1 refl in
      elim (Bool-cases (p (j, v))) [ inl y ↦ simp (y, same) | inr n ↦ simp (n, same) h ]

  lookup-keep_row :
      (p : K × V → Bool) (rows : Dict K V) (k : K)
      → Unique rows
      → lookup k (keep p rows) ≡ select_if p k (lookup k rows)
  lookup-keep_row p [] k u = refl
  lookup-keep_row p ((j, v) ∷ rs) k u = elim (Bool-cases (e.beq j k)) [
    | inr f ↦ elim (Bool-cases (p (j, v))) [
      | inl t ↦ rw (t, f) (lookup-keep_row p rs k u.1)
      | inr g ↦ rw (g, f) (lookup-keep_row p rs k u.1)
    ]
    | inl t ↦
        subst (λ z. lookup z (keep p ((j, v) ∷ rs)) ≡ select_if p z (lookup z ((j, v) ∷ rs)))
          ((e.beq_iff j k).0 t)
          (keep_row_head p j v rs (lookup-keep_row p rs j u.1 ∙ ap (select_if p j) u.0))
  ]

  table-store_all :
      (rows : List (K × V)) (s : Progress K V) → (store_all rows s).table ≡ upsert_all s.table rows
  unfolding store_page upsert_all
  table-store_all [] s = refl
  table-store_all (r ∷ rs) s = refl

  -- The row that the sink holds under a key after a catch-up: the source's, if that matches the
  -- filter and lies above the start; else the one from before.
  abbrev pub synced : (K × V → Bool) → Option K → K → Option V → Option V → Option V
  synced filter last k none old = old
  synced filter last k (some v) old = if filter (k, v) && after last (k, v) then some v else old

  -- The catch-up over a source table with distinct keys ends after at most one round for each row and
  -- one more, for every page size above 0. It leaves under each key the source's row, if that
  -- matches the filter and lies above the start, and otherwise what the sink held there before.
  pub catch_up_exact :
      (rows : Dict K V) (filter : K × V → Bool) (m : ℕ) (last : Option K) (s : Progress K V)
      → Unique rows
      → (t : Progress K V) × (catch_up (fetch_batch rows filter) (suc m) (suc (length rows)) last s
          ≡ some t)
        × ((k : K) → lookup k t.table ≡ synced filter last k (lookup k rows) (lookup k s.table))
  catch_up_exact rows filter m last s u =
      let sorted = order_by-Ascending rows u in
      let todo : List (K × V) = pending (order_by rows) filter last in
      let todo_unique =
        Ascending-Unique todo
          (keep-Ascending (λ r. filter r && after last r) (order_by rows) sorted) in
      (
        store_all todo s,
        catch_up-eq-store_all (order_by rows) filter sorted (fetch_batch rows filter)
            (fetch_batch-IsKeyset rows filter) m (suc (length rows)) last s
            (omega (
              arith,
              length-keep-le (λ r. filter r && after last r) (order_by rows),
              length-order_by rows,
            )),
        λ k.
            ap (lookup k) (table-store_all todo s)
            ∙ lookup-upsert_all s.table todo k todo_unique
            ∙ ap (λ q. elim q [ none ↦ lookup k s.table | some v ↦ some v ])
                (lookup-keep_row (λ r. filter r && after last r) (order_by rows) k
                    (Ascending-Unique (order_by rows) sorted)
                  ∙ ap (select_if (λ r. filter r && after last r) k) (lookup-order_by rows k u))
            ∙ at k (lookup k rows),
      )
    where
      at :
          (k : K) (q : Option V)
          → elim (select_if (λ r. filter r && after last r) k q) [
            | none ↦ lookup k s.table
            | some v ↦ some v
          ]
            ≡ synced filter last k q (lookup k s.table)
      at k none = refl
      at k (some v) = ground arith
