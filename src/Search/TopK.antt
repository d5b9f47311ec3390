-- ===== src/Search/TopK.antt =====
-- The first rows of a list in order: what is left out is not listed before what is in.
use Prim.Native.Nat.{min}
use postgres_search_replica.Prelude.{
  ℕ, zero, suc, ◌≡◌, refl, ap, ◌∙◌, ◌⊎◌, inl, inr, Bool, true, false, List, [], ◌∷◌, arith, take,
  length, Elem, All, All-Elem, All-imp, Bool-cases,
}
use postgres_search_replica.Search.Postgres.{ViewRow, insert_by, order_by}

-- An order of the rows by a number, ascending or descending.
pub record IsOrder (first : ViewRow → ViewRow → Bool) : Type 0 where
  pub asym : (a b : ViewRow) → first a b ≡ true → first b a ≡ false
  pub trans_not : (a b c : ViewRow) → first b a ≡ false → first c b ≡ false → first c a ≡ false

module _ (first : ViewRow → ViewRow → Bool) (order : IsOrder first) where
  -- no later row is listed before an earlier one
  abbrev pub InOrder : List ViewRow → Type 0
  InOrder [] = Unit
  InOrder (x ∷ xs) = All (λ y. first y x ≡ false) xs × InOrder xs

  All-insert_by :
      (P : ViewRow → Type 0) (x : ViewRow) (ys : List ViewRow)
      → P x
      → All P ys
      → All P (insert_by first x ys)
  unfolding insert_by
  All-insert_by P x [] p h = (p, tt)
  All-insert_by P x (y ∷ ys) p h = elim (Bool-cases (first y x)) [
    | inl t ↦ rw t (h.0, All-insert_by P x ys p h.1)
    | inr f ↦ rw f (p, h)
  ]

  insert_by-InOrder :
      (x : ViewRow) (ys : List ViewRow) → InOrder ys → InOrder (insert_by first x ys)
  unfolding insert_by
  insert_by-InOrder x [] h = (tt, tt)
  insert_by-InOrder x (y ∷ ys) h = elim (Bool-cases (first y x)) [
    | inl t ↦ rw t (
      All-insert_by (λ z. first z y ≡ false) x ys (order.asym y x t) h.0,
      insert_by-InOrder x ys h.1,
    )
    | inr f ↦ rw f ((f, All-imp (λ z k. order.trans_not x y z f k) ys h.0), h)
  ]

  pub order_by-InOrder : (xs : List ViewRow) → InOrder (order_by first xs)
  unfolding order_by
  order_by-InOrder [] = tt
  order_by-InOrder (x ∷ xs) = insert_by-InOrder x (order_by first xs) (order_by-InOrder xs)

  -- both places where a row can stand
  Elem-insert_step :
      (z x y : ViewRow) (ys rest : List ViewRow)
      → ((z ≡ x) ⊎ Elem z ys → Elem z rest)
      → (z ≡ x) ⊎ Elem z (y ∷ ys)
      → Elem z (y ∷ rest)
  Elem-insert_step z x y ys rest ih (inl e) = inr (ih (inl e))
  Elem-insert_step z x y ys rest ih (inr (inl e)) = inl e
  Elem-insert_step z x y ys rest ih (inr (inr m)) = inr (ih (inr m))

  Elem-insert_by :
      (z x : ViewRow) (ys : List ViewRow) → (z ≡ x) ⊎ Elem z ys → Elem z (insert_by first x ys)
  unfolding insert_by
  Elem-insert_by z x [] h = h
  Elem-insert_by z x (y ∷ ys) h = elim (Bool-cases (first y x)) [
    | inl t ↦ rw t (Elem-insert_step z x y ys (insert_by first x ys) (Elem-insert_by z x ys) h)
    | inr f ↦ rw f h
  ]

  pub Elem-order_by : (z : ViewRow) (xs : List ViewRow) → Elem z xs → Elem z (order_by first xs)
  unfolding order_by
  Elem-order_by z (x ∷ xs) (inl e) = Elem-insert_by z x (order_by first xs) (inl e)
  Elem-order_by z (x ∷ xs) (inr m) =
      Elem-insert_by z x (order_by first xs) (inr (Elem-order_by z xs m))
  Elem-order_by z [] m = elim m [ ]

  -- a row that is listed before one of the first is one of the first
  pub take-closed :
      (n : ℕ) (xs : List ViewRow) (x y : ViewRow)
      → InOrder xs
      → Elem x xs
      → Elem y (take n xs)
      → first x y ≡ true
      → Elem x (take n xs)
  take-closed zero xs x y h m k t = elim k [ ]
  take-closed (suc n) [] x y h m k t = elim m [ ]
  take-closed (suc n) (z ∷ xs) x y h (inl e) k t = inl e
  take-closed (suc n) (z ∷ xs) x y h (inr m) (inl e) t =
      let same : first x y ≡ first x z = ap (first x) e in
      let not_first : first x z ≡ false = All-Elem (λ w. first w z ≡ false) x xs h.0 m in cc
  take-closed (suc n) (z ∷ xs) x y h (inr m) (inr k) t = inr (take-closed n xs x y h.1 m k t)

  length-insert_by :
      (x : ViewRow) (ys : List ViewRow) → length (insert_by first x ys) ≡ suc (length ys)
  unfolding insert_by
  length-insert_by x [] = refl
  length-insert_by x (y ∷ ys) = ground (arith, length-insert_by x ys)

  pub length-order_by : (xs : List ViewRow) → length (order_by first xs) ≡ length xs
  unfolding order_by
  length-order_by [] = refl
  length-order_by (x ∷ xs) = length-insert_by x (order_by first xs) ∙ ap suc (length-order_by xs)

pub length-take {ℓ} : {A : Type ℓ} (n : ℕ) (xs : List A) → length (take n xs) ≡ min n (length xs)
length-take zero xs = omega arith
length-take (suc n) [] = omega arith
length-take (suc n) (x ∷ xs) = omega (arith, length-take n xs)
