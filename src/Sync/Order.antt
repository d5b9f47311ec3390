-- ===== src/Sync/Order.antt =====
-- The order of primary keys, as ORDER BY and the comparisons of a query see it.
use Prim.Native.Nat.{ℕ}
use postgres_search_replica.Prelude.{
  ◌≡◌, ◌⊎◌, Bool, true, false, List, [], ◌∷◌, arith, ltb, nat_eq, All, if◌then◌else◌,
}

pub record Order (K : Type 0) : Type 0 where
  pub lt : K → K → Bool
  pub irrefl : (a : K) → lt a a ≡ false
  pub trans : (a b c : K) → lt a b ≡ true → lt b c ≡ true → lt a c ≡ true
  pub total : (a b : K) → (lt a b ≡ true) ⊎ ((a ≡ b) ⊎ (lt b a ≡ true))

infix 50 ◌≺◌
abbrev pub ◌≺◌ : {K : Type 0} ⦃o : Order K⦄ → K → K → Bool
◌≺◌ ⦃o⦄ = o.lt

pub nat_irrefl : (a : ℕ) → ltb a a ≡ false
nat_irrefl a = ground arith

pub nat_trans : (a b c : ℕ) → ltb a b ≡ true → ltb b c ≡ true → ltb a c ≡ true
nat_trans a b c h k = ground arith

pub nat_total : (a b : ℕ) → (ltb a b ≡ true) ⊎ ((a ≡ b) ⊎ (ltb b a ≡ true))
nat_total a b = ground arith

instance abbrev pub nat_order : Order ℕ
nat_order = record { lt = ltb; irrefl = nat_irrefl; trans = nat_trans; total = nat_total }

module _ {K V : Type 0} ⦃o : Order K⦄ where
  -- the rows by strictly ascending keys
  abbrev pub Ascending : List (K × V) → Type 0
  Ascending [] = Unit
  Ascending (r ∷ rs) = All (λ s. (r.0 ≺ s.0) ≡ true) rs × Ascending rs

  abbrev pub insert_row : K × V → List (K × V) → List (K × V)
  insert_row r [] = r ∷ []
  insert_row r (s ∷ rs) = if r.0 ≺ s.0 then r ∷ s ∷ rs else s ∷ insert_row r rs

  -- ORDER BY p_key ASC
  unfoldable pub order_by : List (K × V) → List (K × V)
  order_by [] = []
  order_by (r ∷ rs) = insert_row r (order_by rs)
