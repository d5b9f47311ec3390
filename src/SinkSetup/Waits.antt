-- ===== src/SinkSetup/Waits.antt =====
-- How long `setup_sink` of src/pg_replica/database.py waits for a vectorizer that cannot be made.
use postgres_search_replica.Prelude.{
  ℕ, ◌≤◌, ◌<◌, ◌≡◌, refl, ap, ◌∙◌, inl, inr, String, Bool, false, arith,
}
use postgres_search_replica.Prelude.Effects.{Result, timeout_error}
use postgres_search_replica.Waiting.{wait_until-Decides, is_ready}
use postgres_search_replica.Inspector.{SinkCatalog}
use postgres_search_replica.SinkSetup.Databases.{Databases, raise}
use postgres_search_replica.SinkSetup.Vectorizer.{
  Call, Made, failed, try_create_vectorizer, wait_vectorizer,
}
use postgres_search_replica.SinkSetup.Made.{not_ready}

-- Where pgai fails every attempt, with whatever messages, a missing column among them, the code goes on
-- until twenty seconds are over, raises TimeoutError then and not before, and has changed nothing,
-- where the clock advances between two attempts.
pub failing-waits :
    (create : ℕ → Call → SinkCatalog → Made) (elapsed : ℕ → ℕ) (call : Call) (dbs : Databases)
    (message : ℕ → String)
    → ((j : ℕ) → create j call dbs.sink ≡ failed (message j))
    → ((j : ℕ) → j ≤ elapsed j)
    → (k : ℕ) × (20 ≤ elapsed k)
      × ((j : ℕ) → j < k → elapsed j < 20)
      × (wait_vectorizer create elapsed call dbs ≡ raise timeout_error dbs)
unfolding wait_vectorizer
failing-waits create elapsed call dbs message fails runs =
    let (k, d) = wait_until-Decides ready elapsed 20 runs in
    elim d.outcome [
      | inl (t, e) ↦ cc (t, never k)
      | inr (f, over, e) ↦
          (k, over, λ j before. (d.earlier j (omega arith) before).1, rw (wait_vectorizer, e) refl)
    ]
  where
    ready : ℕ → Result Bool
    ready j = try_create_vectorizer (create j call dbs.sink)

    never : (j : ℕ) → is_ready (ready j) ≡ false
    never j = ap (λ m. is_ready (try_create_vectorizer m)) (fails j) ∙ not_ready (message j)
