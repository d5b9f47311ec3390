-- ===== src/Waiting.antt =====
-- `wait_until` of src/pg_replica/utils.py. The predicate is a sequence of attempts, each of which gives
-- a truth value or raises; `elapsed i` is the time since the start that the clock shows after attempt
-- i. The loop has fuel.
mod Tests
use postgres_search_replica.Prelude.{
  ℕ, zero, suc, ◌+◌, ◌≤◌, ◌<◌, ◌≡◌, refl, ◌⊎◌, inl, inr, Bool, true, false, leb, Option, none, some,
  arith, Bool-cases, if◌then◌else◌,
}
use postgres_search_replica.Prelude.Effects.{Result, ok, err, timeout_error}

-- an exception of the predicate counts as not ready
abbrev pub is_ready : Result Bool → Bool
is_ready (ok b) = b
is_ready (err x) = false

module _ (attempt : ℕ → Result Bool) (elapsed : ℕ → ℕ) (timeout : ℕ) where
  -- `while True`, from attempt i on: the attempt that was ready, or TimeoutError
  unfoldable pub wait_from : ℕ → ℕ → Option (Result ℕ)
  wait_from zero i = none
  wait_from (suc fuel) i =
      let rest = wait_from fuel (suc i) in
      if is_ready (attempt i)
      then some (ok i)
      else if leb timeout (elapsed i)
      then some (err timeout_error)
      else rest

  unfoldable pub wait_until : Option (Result ℕ)
  wait_until = wait_from (suc timeout) 0

  -- attempt k is the first that is ready or that has used the time up, and decides the result
  pub record Decides (i k : ℕ) (result : Option (Result ℕ)) : Type 0 where
    pub later : i ≤ k
    pub earlier : (j : ℕ) → i ≤ j → j < k → (is_ready (attempt j) ≡ false) × (elapsed j < timeout)
    pub outcome :
        ((is_ready (attempt k) ≡ true) × (result ≡ some (ok k)))
        ⊎ ((is_ready (attempt k) ≡ false)
            × (timeout ≤ elapsed k)
            × (result ≡ some (err timeout_error)))

  -- an attempt that ends the loop decides
  Decides-now :
      (fuel i : ℕ)
      → (is_ready (attempt i) ≡ true)
        ⊎ ((is_ready (attempt i) ≡ false) × (leb timeout (elapsed i) ≡ true))
      → Decides i i (wait_from (suc fuel) i)
  unfolding wait_from
  Decides-now fuel i (inl t) = record {
    later = omega arith;
    earlier = λ j a b. absurd (omega (arith, a, b));
    outcome = inl (t, rw t refl);
  }
  Decides-now fuel i (inr (f, t)) = record {
    later = omega arith;
    earlier = λ j a b. absurd (omega (arith, a, b));
    outcome = inr (f, ground (arith, t), rw (f, t) refl);
  }

  -- an attempt that does not leaves the decision to the rest
  Decides-later :
      (fuel i : ℕ)
      → is_ready (attempt i) ≡ false
      → leb timeout (elapsed i) ≡ false
      → (k : ℕ) × Decides (suc i) k (wait_from (suc fuel) (suc i))
      → (k : ℕ) × Decides i k (wait_from (suc (suc fuel)) i)
  unfolding wait_from
  Decides-later fuel i f g (k, d) = (
    k,
    record { later = omega (arith, d.later); earlier = before; outcome = rw (f, g) d.outcome },
  )
    where
      before : (j : ℕ) → i ≤ j → j < k → (is_ready (attempt j) ≡ false) × (elapsed j < timeout)
      before j a b = ground (arith, d.earlier j, f, g, a, b)

  decide :
      (fuel i : ℕ)
      → (is_ready (attempt i) ≡ false
          → leb timeout (elapsed i) ≡ false
          → (k : ℕ) × Decides i k (wait_from (suc fuel) i))
      → (k : ℕ) × Decides i k (wait_from (suc fuel) i)
  decide fuel i go_on = elim (Bool-cases (is_ready (attempt i))) [
    | inl t ↦ (i, Decides-now fuel i (inl t))
    | inr f ↦ elim (Bool-cases (leb timeout (elapsed i))) [
      | inl t ↦ (i, Decides-now fuel i (inr (f, t)))
      | inr g ↦ go_on f g
    ]
  ]

  wait_from-Decides :
      (fuel i : ℕ)
      → ((j : ℕ) → j ≤ elapsed j)
      → timeout ≤ i + fuel
      → (k : ℕ) × Decides i k (wait_from (suc fuel) i)
  wait_from-Decides zero i runs enough =
      decide zero i (λ f g. absurd (ground (arith, g, enough, runs i)))
  wait_from-Decides (suc n) i runs enough =
      decide (suc n) i
        (λ f g. Decides-later n i f g (wait_from-Decides n (suc i) runs (omega (arith, enough))))

  -- Where the clock advances by one at least between two attempts, and the wait is not cancelled, so
  -- that an attempt raises nothing but an Exception, waiting ends after at most one
  -- attempt for each unit of the timeout and one more. It ends at the first attempt that is ready or
  -- that has used the time up, gives that attempt if it is ready, and raises TimeoutError only if not.
  pub wait_until-Decides : ((j : ℕ) → j ≤ elapsed j) → (k : ℕ) × Decides 0 k wait_until
  unfolding wait_until
  wait_until-Decides runs = wait_from-Decides timeout 0 runs (omega arith)

  wait_from-ok : (fuel i k : ℕ) → wait_from fuel i ≡ some (ok k) → is_ready (attempt k) ≡ true
  unfolding wait_from
  wait_from-ok zero i k h = cc
  wait_from-ok (suc fuel) i k h = elim (Bool-cases (is_ready (attempt i))) [
    | inl t ↦ same_attempt i k (rw t at h) t
    | inr f ↦ elim (Bool-cases (leb timeout (elapsed i))) [
      | inl t ↦ cc (rw (f, t) at h)
      | inr g ↦ wait_from-ok fuel (suc i) k (rw (f, g) at h)
    ]
  ]
    where
      same_attempt :
          (i k : ℕ)
          → ◌≡◌ {A = Option (Result ℕ)} (some (ok i)) (some (ok k))
          → is_ready (attempt i) ≡ true
          → is_ready (attempt k) ≡ true
      same_attempt i k e t = cc (e, t)

  -- the attempt that waiting gives was ready
  pub wait_until-ok : (k : ℕ) → wait_until ≡ some (ok k) → is_ready (attempt k) ≡ true
  unfolding wait_until
  wait_until-ok k h = wait_from-ok (suc timeout) 0 k h
