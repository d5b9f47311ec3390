-- ===== src/Prelude/Lists.antt =====
-- Lists measured by native numbers, Boolean filters, and predicates on the elements of a list.
use Prim.Native.Nat.{ℕ, zero, suc}
use mathlib.Core.Path.{◌≡◌, refl}
use mathlib.Core.Bool.{Bool, true, false, ◌||◌}
use mathlib.Core.Logic.{◌⊎◌, inl, inr}
use mathlib.Core.List.{List, [], ◌∷◌, ◌++◌}
use postgres_search_replica.Prelude.Tests.{if◌then◌else◌, Bool-cases}

module _ {ℓ} {A : Type ℓ} where
  abbrev pub length : List A → ℕ
  length [] = 0
  length (x ∷ xs) = suc (length xs)

  abbrev pub take : ℕ → List A → List A
  take zero xs = []
  take (suc n) [] = []
  take (suc n) (x ∷ xs) = x ∷ take n xs

  -- `[x for x in xs if p(x)]`
  abbrev pub keep : (A → Bool) → List A → List A
  keep p [] = []
  keep p (x ∷ xs) = if p x then x ∷ keep p xs else keep p xs

  -- `any(p(x) for x in xs)`
  abbrev pub any : (A → Bool) → List A → Bool
  any p [] = false
  any p (x ∷ xs) = p x || any p xs

  abbrev pub All {κ} : (A → Type κ) → List A → Type κ
  All P [] = Unit
  All P (x ∷ xs) = P x × All P xs

  pub All-append {κ} :
      (P : A → Type κ) (front back : List A) → All P front → All P back → All P (front ++ back)
  All-append P [] back h k = k
  All-append P (x ∷ front) back (p, h) k = (p, All-append P front back h k)

module _ {A : Type 0} where
  -- `x` is one of the elements, as a type that proofs take apart
  abbrev pub Elem : A → List A → Type 0
  Elem x [] = ⊥
  Elem x (y ∷ ys) = (x ≡ y) ⊎ Elem x ys

module _ {A : Type 0} where
  pub Elem-append_left : (x : A) (xs ys : List A) → Elem x xs → Elem x (xs ++ ys)
  Elem-append_left x [] ys h = elim h [ ]
  Elem-append_left x (z ∷ xs) ys (inl e) = inl e
  Elem-append_left x (z ∷ xs) ys (inr m) = inr (Elem-append_left x xs ys m)

  pub Elem-append_right : (x : A) (xs ys : List A) → Elem x ys → Elem x (xs ++ ys)
  Elem-append_right x [] ys h = h
  Elem-append_right x (z ∷ xs) ys h = inr (Elem-append_right x xs ys h)

  pub Elem-append : (x : A) (xs ys : List A) → Elem x (xs ++ ys) → Elem x xs ⊎ Elem x ys
  Elem-append x [] ys h = inr h
  Elem-append x (z ∷ xs) ys (inl e) = inl (inl e)
  Elem-append x (z ∷ xs) ys (inr m) = elim (Elem-append x xs ys m) [
    | inl l ↦ inl (inr l)
    | inr r ↦ inr r
  ]

  pub Elem-keep : (p : A → Bool) (x : A) (xs : List A) → Elem x xs → p x ≡ true → Elem x (keep p xs)
  Elem-keep p x (y ∷ ys) (inl e) h = rw ((rw e at h)) (inl e)
  Elem-keep p x (y ∷ ys) (inr m) h = elim (Bool-cases (p y)) [
    | inl t ↦ rw t (inr (Elem-keep p x ys m h))
    | inr f ↦ rw f (Elem-keep p x ys m h)
  ]
  Elem-keep p x [] m h = elim m [ ]

  pub keep-Elem :
      (p : A → Bool) (x : A) (xs : List A) → Elem x (keep p xs) → Elem x xs × (p x ≡ true)
  keep-Elem p x [] m = elim m [ ]
  keep-Elem p x (y ∷ ys) m = elim (Bool-cases (p y)) [
    | inl t ↦ elim (kept t) [
      | inl e ↦ (inl e, rw e t)
      | inr n ↦ let (k, q) = keep-Elem p x ys n in (inr k, q)
    ]
    | inr f ↦ let (n, q) = keep-Elem p x ys (rw f at m) in (inr n, q)
  ]
    where
      kept : p y ≡ true → (x ≡ y) ⊎ Elem x (keep p ys)
      kept t = rw t at m

  pub All-Elem {κ} : (P : A → Type κ) (x : A) (xs : List A) → All P xs → Elem x xs → P x
  All-Elem P x [] h m = elim m [ ]
  All-Elem P x (y ∷ ys) h (inl e) = rw e h.0
  All-Elem P x (y ∷ ys) h (inr m) = All-Elem P x ys h.1 m

module _ {ℓ κ μ} {A : Type ℓ} {P : A → Type κ} {Q : A → Type μ} where
  pub All-imp : ((x : A) → P x → Q x) → (xs : List A) → All P xs → All Q xs
  All-imp f [] h = tt
  All-imp f (x ∷ xs) h = (f x h.0, All-imp f xs h.1)

module _ {A : Type 0} where
  pub no_Elem : (xs : List A) → ((x : A) → ¬ (Elem x xs)) → xs ≡ []
  no_Elem [] h = refl
  no_Elem (x ∷ xs) h = absurd (h x (inl refl))

  pub append-eq-nil : (xs ys : List A) → xs ++ ys ≡ [] → (xs ≡ []) × (ys ≡ [])
  append-eq-nil [] ys h = (refl, h)
  append-eq-nil (x ∷ xs) ys h = cc

  pub any-Elem : (p : A → Bool) (xs : List A) → any p xs ≡ true → (x : A) × Elem x xs × (p x ≡ true)
  any-Elem p [] h = cc
  any-Elem p (y ∷ ys) h = elim (Bool-cases (p y)) [
    | inl t ↦ (y, inl refl, t)
    | inr f ↦ let (x, m, t) = any-Elem p ys (rw f at h) in (x, inr m, t)
  ]

module _ {ℓ κ} {A : Type ℓ} where
  pub if-All :
      (P : A → Type κ) (b : Bool) (xs ys : List A)
      → All P xs
      → All P ys
      → All P (if b then xs else ys)
  if-All P true xs ys hx hy = hx
  if-All P false xs ys hx hy = hy

pub List-cases {ℓ} :
    {A : Type ℓ} (xs : List A) → (xs ≡ []) ⊎ ((x : A) × (r : List A) × (xs ≡ x ∷ r))
List-cases [] = inl refl
List-cases (x ∷ r) = inr (x, r, refl)
