-- ===== src/Search/Ranking.antt =====
-- The order of the answers of `PostgresSearchStrategy` of src/pg_replica/strategies.py.
use Prim.Native.Nat.{min}
use postgres_search_replica.Prelude.{
  ℕ, suc, ◌+◌, ◌≤◌, ◌<◌, ◌≡◌, refl, ap, ◌∙◌, inl, inr, Bool, true, false, List, [], ◌∷◌, arith,
  take, length, map, Elem, nat_eq,
}
use postgres_search_replica.Config.{Profile, SearchPipeline}
use postgres_search_replica.Search.Postgres.{
  ViewRow, comes_before, count_if, row_number, order_by, rrf_score, by_score, by_distance, ranked,
  item_of, search_postgres,
}
use postgres_search_replica.Search.TopK.{
  IsOrder, order_by-InOrder, Elem-order_by, take-closed, length-order_by, length-take,
}

-- the rows of the table, numbered
abbrev pub Precedes : ViewRow → ViewRow → Type 0
Precedes x y =
    (comes_before (λ r. r.distance) x y ≡ true) × (comes_before (λ r. r.text_place) x y ≡ true)

comes_before_trans :
    (key : ViewRow → ℕ) (z x y : ViewRow)
    → comes_before key z x ≡ true
    → comes_before key x y ≡ true
    → comes_before key z y ≡ true
comes_before_trans key z x y h k = ground arith

comes_before_irrefl : (key : ViewRow → ℕ) (x : ViewRow) → comes_before key x x ≡ false
comes_before_irrefl key x = ground arith

count_if-le :
    (p q : ViewRow → Bool) (xs : List ViewRow)
    → ((z : ViewRow) → p z ≡ true → q z ≡ true)
    → count_if p xs ≤ count_if q xs
unfolding count_if
count_if-le p q [] h = omega arith
count_if-le p q (x ∷ xs) h = ground (arith, count_if-le p q xs h, h x)

count_if-lt :
    (p q : ViewRow → Bool) (xs : List ViewRow) (x : ViewRow)
    → ((z : ViewRow) → p z ≡ true → q z ≡ true)
    → Elem x xs
    → p x ≡ false
    → q x ≡ true
    → count_if p xs < count_if q xs
unfolding count_if
count_if-lt p q [] x h m f t = elim m [ ]
count_if-lt p q (y ∷ xs) x h (inl e) f t =
    ground (arith, count_if-le p q xs h, ap p e, ap q e, f, t)
count_if-lt p q (y ∷ xs) x h (inr m) f t = ground (arith, count_if-lt p q xs x h m f t, h y)

count_if-length : (p : ViewRow → Bool) (xs : List ViewRow) → count_if p xs ≤ length xs
unfolding count_if
count_if-length p [] = omega arith
count_if-length p (x ∷ xs) = ground (arith, count_if-length p xs)

row_number-le :
    (key : ViewRow → ℕ) (rows : List ViewRow) (x : ViewRow)
    → row_number key rows x ≤ 1 + length rows
unfolding row_number
row_number-le key rows x = omega (arith, count_if-length (λ y. comes_before key y x) rows)

-- a row that comes before has a smaller row number
row_number-lt :
    (key : ViewRow → ℕ) (rows : List ViewRow) (x y : ViewRow)
    → Elem x rows
    → comes_before key x y ≡ true
    → row_number key rows x < row_number key rows y
unfolding row_number
row_number-lt key rows x y m t = omega (
  arith,
  count_if-lt (λ z. comes_before key z x) (λ z. comes_before key z y) rows x
      (λ z h. comes_before_trans key z x y h t) m (comes_before_irrefl key x) t,
)

length-map {ℓ κ} :
    {A : Type ℓ} {B : Type κ} (f : A → B) (xs : List A) → length (map f xs) ≡ length xs
length-map f [] = refl
length-map f (x ∷ xs) = ap suc (length-map f xs)

module _ (reciprocal : ℕ → ℕ) where
  by_score-IsOrder : (rows : List ViewRow) → IsOrder (by_score reciprocal rows)
  by_score-IsOrder rows = record {
    asym = λ a b h. ground arith;
    trans_not = λ a b c h k. ground arith;
  }

  by_distance-IsOrder : IsOrder (by_distance reciprocal)
  by_distance-IsOrder = record {
    asym = λ a b h. ground arith;
    trans_not = λ a b c h k. ground arith;
  }

  score-lt :
      (rows : List ViewRow) (x y : ViewRow)
      → ((a b : ℕ) → a < b → b ≤ 61 + length rows → reciprocal b < reciprocal a)
      → Elem x rows
      → comes_before (λ r. r.distance) x y ≡ true
      → comes_before (λ r. r.text_place) x y ≡ true
      → rrf_score reciprocal rows y < rrf_score reciprocal rows x
  unfolding rrf_score
  score-lt rows x y falls m near text =
      let v : row_number (λ r. r.distance) rows x < row_number (λ r. r.distance) rows y =
        row_number-lt (λ r. r.distance) rows x y m near in
      let t : row_number (λ r. r.text_place) rows x < row_number (λ r. r.text_place) rows y =
        row_number-lt (λ r. r.text_place) rows x y m text in
      omega (
        arith,
        falls (60 + row_number (λ r. r.distance) rows x) (60 + row_number (λ r. r.distance) rows y)
            (omega (arith, v)) (omega (arith, row_number-le (λ r. r.distance) rows y)),
        falls (60 + row_number (λ r. r.text_place) rows x)
            (60 + row_number (λ r. r.text_place) rows y) (omega (arith, t))
            (omega (arith, row_number-le (λ r. r.text_place) rows y)),
      )

  -- Rank fusion respects what both rankings agree on: where a row of the view is nearer to the query
  -- than another and has the better text, and the other is among the answers, so is the first, for a
  -- quotient that falls strictly with its divisor, up to a divisor of 61 and the number of rows.
  pub hybrid-Precedes :
      (rows : List ViewRow) (limit : ℕ) (x y : ViewRow)
      → ((a b : ℕ) → a < b → b ≤ 61 + length rows → reciprocal b < reciprocal a)
      → Elem x rows
      → Precedes x y
      → Elem y (ranked reciprocal Profile.hybrid limit rows)
      → Elem x (ranked reciprocal Profile.hybrid limit rows)
  unfolding ranked
  hybrid-Precedes rows limit x y falls m (near, text) k =
      take-closed (by_score reciprocal rows) (by_score-IsOrder rows) limit
        (order_by (by_score reciprocal rows) rows) x y
        (order_by-InOrder (by_score reciprocal rows) (by_score-IsOrder rows) rows)
        (Elem-order_by (by_score reciprocal rows) (by_score-IsOrder rows) x rows m) k better
    where
      better : by_score reciprocal rows x y ≡ true
      better = ground (arith, score-lt rows x y falls m near text)

  -- A vector search gives the nearest rows: a row that is nearer than an answer is an answer.
  pub vector-nearest :
      (rows : List ViewRow) (limit : ℕ) (x y : ViewRow)
      → Elem x rows
      → x.distance < y.distance
      → Elem y (ranked reciprocal Profile.vector limit rows)
      → Elem x (ranked reciprocal Profile.vector limit rows)
  unfolding ranked
  vector-nearest rows limit x y m near k =
      take-closed (by_distance reciprocal) by_distance-IsOrder limit
        (order_by (by_distance reciprocal) rows) x y
        (order_by-InOrder (by_distance reciprocal) by_distance-IsOrder rows)
        (Elem-order_by (by_distance reciprocal) by_distance-IsOrder x rows m) k
        (ground (arith, near))

  -- A search gives as many answers as it was asked for, or one for each row of the view if there are
  -- fewer.
  pub length-search_postgres :
      (config : SearchPipeline) (limit : ℕ) (rows : List ViewRow)
      → length (search_postgres reciprocal config limit rows) ≡ min limit (length rows)
  unfolding search_postgres ranked
  length-search_postgres config limit rows = by_profile config.storage.profile
    where
      limited :
          (first : ViewRow → ViewRow → Bool)
          → IsOrder first
          → length (take limit (order_by first rows)) ≡ min limit (length rows)
      limited first order =
          length-take limit (order_by first rows)
          ∙ ap (min limit) (length-order_by first order rows)

      by_profile :
          (profile : Profile)
          → length (map (item_of reciprocal profile rows) (ranked reciprocal profile limit rows))
            ≡ min limit (length rows)
      by_profile Profile.hybrid =
          length-map (item_of reciprocal Profile.hybrid rows)
            (ranked reciprocal Profile.hybrid limit rows)
          ∙ limited (by_score reciprocal rows) (by_score-IsOrder rows)
      by_profile Profile.vector =
          length-map (item_of reciprocal Profile.vector rows)
            (ranked reciprocal Profile.vector limit rows)
          ∙ limited (by_distance reciprocal) by_distance-IsOrder
