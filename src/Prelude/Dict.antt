-- ===== src/Prelude/Dict.antt =====
-- A Python dict, in insertion order, over any keys with an equality.
use mathlib.Core.Path.{◌≡◌, refl}
use mathlib.Core.Logic.{◌≢◌, inl, inr}
use mathlib.Core.Bool.{Bool, true, false, not, ◌&&◌, ◌||◌}
use mathlib.Core.Option.{Option, none, some}
use mathlib.Core.List.{List, [], ◌∷◌, ◌++◌, map}
use native.Mathlib.Omega.{arith}
use postgres_search_replica.Prelude.Tests.{Eq, if◌then◌else◌, is_some}
use postgres_search_replica.Prelude.Lists.{keep, Elem}

abbrev pub Dict {ℓ κ} : Type ℓ → Type κ → Type (ℓ ⊔ κ)
Dict K V = List (K × V)

abbrev pub keys {ℓ κ} : {K : Type ℓ} {V : Type κ} → Dict K V → List K
keys d = map (λ e. e.0) d

module _ {ℓ κ} {K : Type ℓ} {V : Type κ} ⦃e : Eq K⦄ where
  -- `d.get(k)`
  abbrev pub lookup : K → Dict K V → Option V
  lookup k [] = none
  lookup k ((j, v) ∷ d) = if e.beq j k then some v else lookup k d

  -- `k in d`
  abbrev pub contains : K → Dict K V → Bool
  contains k d = is_some (lookup k d)

  -- `d[k] = v`: a key that is there keeps its place
  abbrev pub insert : K → V → Dict K V → Dict K V
  insert k v [] = (k, v) ∷ []
  insert k v ((j, w) ∷ d) = if e.beq j k then (j, v) ∷ d else (j, w) ∷ insert k v d

  pub lookup-insert :
      (k j : K) (v : V) (d : Dict K V)
      → lookup j (insert k v d) ≡ (if e.beq k j then some v else lookup j d)
  lookup-insert k j v [] = refl
  lookup-insert k j v ((i, w) ∷ d) =
      ground (arith, e.beq_iff k j, e.beq_iff i k, e.beq_iff i j, lookup-insert k j v d)

  pub lookup-insert_self : (k : K) (v : V) (d : Dict K V) → lookup k (insert k v d) ≡ some v
  lookup-insert_self k v d = ground (arith, lookup-insert k k v d, e.beq_iff k k)

  pub lookup-insert_ne :
      (k j : K) (v : V) (d : Dict K V) → k ≢ j → lookup j (insert k v d) ≡ lookup j d
  lookup-insert_ne k j v d h = ground (arith, lookup-insert k j v d, e.beq_iff k j)

-- `k in xs`, for a list or a set
module _ {ℓ} {K : Type ℓ} ⦃e : Eq K⦄ where
  abbrev pub member : K → List K → Bool
  member k [] = false
  member k (j ∷ xs) = if e.beq j k then true else member k xs

  -- the elements of a list as a set
  abbrev pub dedup : List K → List K
  dedup [] = []
  dedup (x ∷ xs) = x ∷ keep (λ y. not (e.beq x y)) (dedup xs)

module _ {K : Type 0} ⦃e : Eq K⦄ where
  pub member-Elem : (k : K) (xs : List K) → Elem k xs → member k xs ≡ true
  member-Elem k [] m = elim m [ ]
  member-Elem k (j ∷ xs) (inl p) = ground (arith, e.beq_iff j k)
  member-Elem k (j ∷ xs) (inr m) = ground (arith, member-Elem k xs m)

  pub Elem-member : (k : K) (xs : List K) → member k xs ≡ true → Elem k xs
  Elem-member k [] h = cc
  Elem-member k (j ∷ xs) h = ground (arith, e.beq_iff j k, Elem-member k xs)

module _ {K : Type 0} ⦃e : Eq K⦄ where
  pub member-keep :
      (p : K → Bool) (j : K) (xs : List K) → member j (keep p xs) ≡ (member j xs && p j)
  member-keep p j [] = refl
  member-keep p j (x ∷ xs) = ground (arith, member-keep p j xs, e.beq_iff x j)

  pub member-dedup : (j : K) (xs : List K) → member j (dedup xs) ≡ member j xs
  member-dedup j [] = refl
  member-dedup j (x ∷ xs) =
      ground
        (arith, member-dedup j xs, member-keep (λ y. not (e.beq x y)) j (dedup xs), e.beq_iff x j)

  pub member-append : (j : K) (xs ys : List K) → member j (xs ++ ys) ≡ (member j xs || member j ys)
  member-append j [] ys = refl
  member-append j (x ∷ xs) ys = ground (arith, member-append j xs ys)
