-- ===== src/Sync/Sorted.antt =====
-- ORDER BY p_key keeps the rows of a table with distinct keys, and lists them by ascending keys.
use postgres_search_replica.Prelude.{
  ◌≡◌, ◌≢◌, refl, ◌∙◌, ◌⊎◌, inl, inr, true, false, none, some, [], ◌∷◌, arith, Eq, All, All-imp,
  Bool-cases, if◌then◌else◌,
}
use postgres_search_replica.Prelude.Dict.{Dict, lookup}
use postgres_search_replica.Sync.Order.{Order, ◌≺◌, Ascending, insert_row, order_by}
use postgres_search_replica.Sync.Table.{Unique}

module _ {K V : Type 0} ⦃e : Eq K⦄ ⦃o : Order K⦄ where
  lookup-insert_row :
      (r : K × V) (rows : Dict K V) (j : K)
      → lookup r.0 rows ≡ none
      → lookup j (insert_row r rows) ≡ (if e.beq r.0 j then some r.1 else lookup j rows)
  lookup-insert_row r [] j h = refl
  lookup-insert_row r (s ∷ rs) j h = elim (Bool-cases (r.0 ≺ s.0)) [
    | inl t ↦ rw t
    | inr f ↦ rw f (
        ground
          (arith, lookup-insert_row r rs j, e.beq_iff r.0 j, e.beq_iff s.0 j, e.beq_iff s.0 r.0))
  ]

  pub lookup-order_by :
      (rows : Dict K V) (j : K) → Unique rows → lookup j (order_by rows) ≡ lookup j rows
  unfolding order_by
  lookup-order_by [] j u = refl
  lookup-order_by (r ∷ rs) j u = ground (
    arith,
    lookup-order_by rs j u.1,
    lookup-insert_row r (order_by rs) j (lookup-order_by rs r.0 u.1 ∙ u.0),
  )

  -- a key that is not in the table differs from every key of it
  keys_differ : (k : K) (rows : Dict K V) → lookup k rows ≡ none → All (λ s. s.0 ≢ k) rows
  keys_differ k [] h = tt
  keys_differ k (s ∷ rs) h = (λ p. at s.1 ((e.beq_iff s.0 k).1 p) h, keys_differ k rs (rest s.1 h))
    where
      at : (v : V) → e.beq s.0 k ≡ true → (if e.beq s.0 k then some v else lookup k rs) ≡ none → ⊥
      at v t h = cc (rw t at h)

      rest : (v : V) → (if e.beq s.0 k then some v else lookup k rs) ≡ none → lookup k rs ≡ none
      rest v h = ground arith

  All-insert_row {κ} :
      (P : K × V → Type κ) (r : K × V) (rows : Dict K V)
      → P r
      → All P rows
      → All P (insert_row r rows)
  All-insert_row P r [] h k = (h, tt)
  All-insert_row P r (s ∷ rs) h k = elim (Bool-cases (r.0 ≺ s.0)) [
    | inl t ↦ rw t (h, k)
    | inr f ↦ rw f (k.0, All-insert_row P r rs h k.1)
  ]

  insert_row-Ascending :
      (r : K × V) (rows : Dict K V)
      → All (λ s. s.0 ≢ r.0) rows
      → Ascending rows
      → Ascending (insert_row r rows)
  insert_row-Ascending r [] h a = (tt, tt)
  insert_row-Ascending r (s ∷ rs) h a = elim (Bool-cases (r.0 ≺ s.0)) [
    | inl t ↦ rw t ((t, All-imp (λ q m. o.trans r.0 s.0 q.0 t m) rs a.0), a)
    | inr f ↦ rw f (
      All-insert_row (λ q. (s.0 ≺ q.0) ≡ true) r rs (above f (o.total s.0 r.0)) a.0,
      insert_row-Ascending r rs h.1 a.1,
    )
  ]
    where
      above :
          (r.0 ≺ s.0) ≡ false
          → ((s.0 ≺ r.0) ≡ true) ⊎ ((s.0 ≡ r.0) ⊎ ((r.0 ≺ s.0) ≡ true))
          → (s.0 ≺ r.0) ≡ true
      above f (inl t) = t
      above f (inr (inl q)) = absurd (h.0 q)
      above f (inr (inr t)) = cc

  pub order_by-Ascending : (rows : Dict K V) → Unique rows → Ascending (order_by rows)
  unfolding order_by
  order_by-Ascending [] u = tt
  order_by-Ascending (r ∷ rs) u =
      insert_row-Ascending r (order_by rs)
        (keys_differ r.0 (order_by rs) (lookup-order_by rs r.0 u.1 ∙ u.0))
        (order_by-Ascending rs u.1)

  absent : (k : K) (rows : Dict K V) → All (λ s. (k ≺ s.0) ≡ true) rows → lookup k rows ≡ none
  absent k [] h = refl
  absent k (s ∷ rs) h = ground (arith, absent k rs h.1, e.beq_iff s.0 k, o.irrefl k)

  pub Ascending-Unique : (rows : Dict K V) → Ascending rows → Unique rows
  Ascending-Unique [] h = tt
  Ascending-Unique (r ∷ rs) h = (absent r.0 rs h.0, Ascending-Unique rs h.1)
