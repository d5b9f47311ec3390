-- ===== src/Teardown/Dropping.antt =====
-- Dropping the vectorizers of a list, in `drop_subscription_completely` of src/pg_replica/database.py.
use postgres_search_replica.Prelude.{
  ℕ, String, string_eq, nat_eq, ◌==◌, ◌≡◌, ◌≢◌, refl, sym, ap, ◌∙◌, inl, inr, Bool, true, false,
  not, List, [], ◌∷◌, arith, Elem, Elem-keep, keep-Elem, any, Bool-cases,
}
use postgres_search_replica.Reconciler.{Vectorizer}
use postgres_search_replica.Inspector.{SinkCatalog}
use postgres_search_replica.Teardown.{drop_vectorizer, drop_listed}

pub any-true :
    {A : Type 0} (p : A → Bool) (x : A) (xs : List A) → Elem x xs → p x ≡ true → any p xs ≡ true
any-true p x [] m h = elim m [ ]
any-true p x (y ∷ xs) (inl e) h = rw (sym (ap p e) ∙ h) refl
any-true p x (y ∷ xs) (inr m) h = ground (arith, any-true p x xs m h)

pub any-false :
    {A : Type 0} (p : A → Bool) (xs : List A)
    → ((x : A) → Elem x xs → p x ≡ false)
    → any p xs ≡ false
any-false p [] h = refl
any-false p (y ∷ xs) h = rw (h y (inl refl)) (any-false p xs (λ x m. h x (inr m)))

-- a row whose id is none of those that are dropped stays
pub drop_listed-keeps :
    (refuses : ℕ → Bool) (row : String × Vectorizer) (rows : List (String × Vectorizer))
    (c : SinkCatalog)
    → ((r : String × Vectorizer) → Elem r rows → r.1.id ≢ row.1.id)
    → Elem row c.vectorizers
    → Elem row (drop_listed refuses rows c).vectorizers
unfolding drop_listed drop_vectorizer
drop_listed-keeps refuses row [] c apart m = m
drop_listed-keeps refuses row (r ∷ rows) c apart m = elim (Bool-cases (refuses r.1.id)) [
  | inl t ↦ rw t m
  | inr f ↦ rw f (
      drop_listed-keeps refuses row rows (drop_vectorizer r.1 c) (λ x k. apart x (inr k))
        (Elem-keep (λ x. not (x.1.id == r.1.id)) row c.vectorizers m
          (ground (arith, apart r (inl refl)))))
]

apart_cons :
    (row r : String × Vectorizer) (rows : List (String × Vectorizer))
    → not (row.1.id == r.1.id) ≡ true
    → ((x : String × Vectorizer) → Elem x rows → x.1.id ≢ row.1.id)
    → (x : String × Vectorizer) → Elem x (r ∷ rows)
    → x.1.id ≢ row.1.id
apart_cons row r rows other apart x (inl e) same =
    ground (arith, ap {A = String × Vectorizer} {B = ℕ} (λ y. y.1.id) e, other, same)
apart_cons row r rows other apart x (inr k) same = apart x k same

-- where nothing is refused, what stays was there and has none of the ids
pub drop_listed-Elem :
    (refuses : ℕ → Bool) (row : String × Vectorizer) (rows : List (String × Vectorizer))
    (c : SinkCatalog)
    → ((i : ℕ) → refuses i ≡ false)
    → Elem row (drop_listed refuses rows c).vectorizers
    → Elem row c.vectorizers × ((r : String × Vectorizer) → Elem r rows → r.1.id ≢ row.1.id)
unfolding drop_listed drop_vectorizer
drop_listed-Elem refuses row [] c willing m = (m, λ r k. elim k [ ])
drop_listed-Elem refuses row (r ∷ rows) c willing m =
    let (kept, apart) =
      drop_listed-Elem refuses row rows (drop_vectorizer r.1 c) willing
        (rw (willing r.1.id) at m) in
    let (there, other) = keep-Elem (λ x. not (x.1.id == r.1.id)) row c.vectorizers kept in
    (there, apart_cons row r rows other apart)

-- what the sink keeps, whatever the servers do
pub drop_listed-extensions :
    (refuses : ℕ → Bool) (rows : List (String × Vectorizer)) (c : SinkCatalog)
    → (drop_listed refuses rows c).extensions ≡ c.extensions
unfolding drop_listed drop_vectorizer
drop_listed-extensions refuses [] c = refl
drop_listed-extensions refuses (r ∷ rows) c = elim (Bool-cases (refuses r.1.id)) [
  | inl t ↦ rw t refl
  | inr f ↦ rw f (drop_listed-extensions refuses rows (drop_vectorizer r.1 c))
]
