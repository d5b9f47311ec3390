-- ===== src/Sync/Keyset.antt =====
-- `fetch_batch` of src/pg_replica/source/postgres.py: keyset pagination over the rows of a source
-- table, and why the next page begins where the last one ended.
use postgres_search_replica.Prelude.{
  ℕ, zero, suc, ◌-◌, ◌≡◌, refl, ap, ◌⊎◌, inl, inr, Bool, true, false, ◌&&◌, Option, none, some,
  List, [], ◌∷◌, ◌++◌, arith, All, All-imp, keep, take, length, Bool-cases,
}
use postgres_search_replica.Sync.Order.{Order, ◌≺◌, Ascending, order_by}

module _ {ℓ} {A : Type ℓ} where
  abbrev pub drop : ℕ → List A → List A
  drop zero xs = xs
  drop (suc n) [] = []
  drop (suc n) (x ∷ xs) = drop n xs

  pub take-append-drop : (n : ℕ) (xs : List A) → take n xs ++ drop n xs ≡ xs
  take-append-drop zero xs = refl
  take-append-drop (suc n) [] = refl
  take-append-drop (suc n) (x ∷ xs) = ap (λ ys. x ∷ ys) (take-append-drop n xs)

  pub length-drop : (n : ℕ) (xs : List A) → length (drop n xs) ≡ length xs - n
  length-drop zero xs = omega arith
  length-drop (suc n) [] = omega arith
  length-drop (suc n) (x ∷ xs) = omega (arith, length-drop n xs)

  pub keep-ext : (p q : A → Bool) → ((x : A) → p x ≡ q x) → (xs : List A) → keep p xs ≡ keep q xs
  keep-ext p q h [] = refl
  keep-ext p q h (x ∷ xs) = ground (arith, h x, keep-ext p q h xs)

  pub keep-keep : (p q : A → Bool) (xs : List A) → keep q (keep p xs) ≡ keep (λ x. p x && q x) xs
  keep-keep p q [] = refl
  keep-keep p q (x ∷ xs) = ground (arith, keep-keep p q xs)

  pub keep-All : (p : A → Bool) (xs : List A) → All (λ x. p x ≡ true) xs → keep p xs ≡ xs
  keep-All p [] h = refl
  keep-All p (x ∷ xs) h = ground (arith, keep-All p xs h.1)

  pub keep-true : (p : A → Bool) (xs : List A) → All (λ x. p x ≡ true) (keep p xs)
  keep-true p [] = tt
  keep-true p (x ∷ xs) = elim (Bool-cases (p x)) [
    | inl t ↦ rw t (t, keep-true p xs)
    | inr f ↦ rw f (keep-true p xs)
  ]

  pub All-keep {κ} : (P : A → Type κ) (p : A → Bool) (xs : List A) → All P xs → All P (keep p xs)
  All-keep P p [] h = tt
  All-keep P p (x ∷ xs) h = elim (Bool-cases (p x)) [
    | inl t ↦ rw t (h.0, All-keep P p xs h.1)
    | inr f ↦ rw f (All-keep P p xs h.1)
  ]

module _ {K : Type 0} ⦃o : Order K⦄ where
  -- `p_key > last_id`, or no bound
  abbrev pub above : Option K → K → Bool
  above none k = true
  above (some last) k = last ≺ k

  pub above_trans :
      (old : Option K) (a b : K) → above old a ≡ true → (a ≺ b) ≡ true → above old b ≡ true
  above_trans none a b h k = refl
  above_trans (some last) a b h k = o.trans last a b h k

module _ {K V : Type 0} ⦃o : Order K⦄ where
  abbrev pub after : Option K → K × V → Bool
  after last r = above last r.0

  -- SELECT … WHERE filter AND p_key > last_id ORDER BY p_key ASC LIMIT batch_size
  unfoldable pub fetch_batch : List (K × V) → (K × V → Bool) → Option K → ℕ → List (K × V)
  fetch_batch rows filter last n = take n (keep (λ r. filter r && after last r) (order_by rows))

  -- `rows[-1][p_key]` of the rows `r ∷ rs`
  abbrev pub last_key : K → List (K × V) → K
  last_key k [] = k
  last_key k (r ∷ rs) = last_key r.0 rs

  pub keep-Ascending :
      (p : K × V → Bool) (rows : List (K × V)) → Ascending rows → Ascending (keep p rows)
  keep-Ascending p [] h = tt
  keep-Ascending p (r ∷ rs) h = elim (Bool-cases (p r)) [
    | inl t ↦ rw t (All-keep _ p rs h.0, keep-Ascending p rs h.1)
    | inr f ↦ rw f (keep-Ascending p rs h.1)
  ]

  All-trans :
      (a b : K) (rows : List (K × V))
      → (a ≺ b) ≡ true
      → All (λ s. (b ≺ s.0) ≡ true) rows
      → All (λ s. (a ≺ s.0) ≡ true) rows
  All-trans a b rows h = All-imp (λ s k. o.trans a b s.0 h k) rows

  -- the last key of a page is its first key or above it
  pub last_key-above :
      (n : ℕ) (k : K) (rows : List (K × V))
      → All (λ s. (k ≺ s.0) ≡ true) rows
      → Ascending rows
      → (last_key k (take n rows) ≡ k) ⊎ ((k ≺ last_key k (take n rows)) ≡ true)
  last_key-above zero k rows h a = inl refl
  last_key-above (suc n) k [] h a = inl refl
  last_key-above (suc n) k (r ∷ rs) h a = elim (last_key-above n r.0 rs a.0 a.1) [
    | inl e ↦ inr (rw e h.0)
    | inr l ↦ inr (o.trans k r.0 (last_key r.0 (take n rs)) h.0 l)
  ]

  -- The rows above the last key of a page are those that the page leaves over.
  pub page-rest :
      (n : ℕ) (r : K × V) (rs : List (K × V))
      → Ascending (r ∷ rs)
      → keep (λ s. last_key r.0 (take n rs) ≺ s.0) (r ∷ rs) ≡ drop n rs
  page-rest zero r rs h = rw (o.irrefl r.0) (keep-All (λ s. r.0 ≺ s.0) rs h.0)
  page-rest (suc n) r [] h = rw (o.irrefl r.0)
  page-rest (suc n) r (s ∷ ss) h =
      let last : K = last_key s.0 (take n ss) in
      rw (below r.0 last (first (last_key-above n s.0 ss h.1.0 h.1.1))) (page-rest n s ss h.1)
    where
      first :
          (last_key s.0 (take n ss) ≡ s.0) ⊎ ((s.0 ≺ last_key s.0 (take n ss)) ≡ true)
          → (r.0 ≺ last_key s.0 (take n ss)) ≡ true
      first (inl e) = rw e h.0.0
      first (inr l) = o.trans r.0 s.0 _ h.0.0 l

      below : (a b : K) → (a ≺ b) ≡ true → (b ≺ a) ≡ false
      below a b k = elim (Bool-cases (b ≺ a)) [
        | inl t ↦ cc (o.trans a b a k t, o.irrefl a)
        | inr f ↦ f
      ]
