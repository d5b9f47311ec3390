-- ===== src/Waiting/Tests.antt =====
-- Waiting for a predicate that raises first and is ready later.
use postgres_search_replica.Prelude.{ℕ, zero, suc, ◌≤◌, Bool, true, false, arith}
use postgres_search_replica.Prelude.Effects.{Result, ok, err, value_error}
use postgres_search_replica.Waiting.{wait_until, Decides, wait_until-Decides}

abbrev attempt : ℕ → Result Bool
attempt zero = err (value_error "not yet")
attempt (suc zero) = ok false
attempt (suc (suc n)) = ok true

abbrev elapsed : ℕ → ℕ
elapsed n = n

runs : (j : ℕ) → j ≤ elapsed j
runs j = omega arith

wait_until-Decides_example : (k : ℕ) × Decides attempt elapsed 5 0 k (wait_until attempt elapsed 5)
wait_until-Decides_example = wait_until-Decides attempt elapsed 5 runs
