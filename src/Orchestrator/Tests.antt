-- ===== src/Orchestrator/Tests.antt =====
-- Runs of the supervisor and of the watchdog, and the theorems about them there.
use postgres_search_replica.Prelude.{
  ℕ, ◌*◌, ◌+◌, ◌≤◌, String, string_eq, ◌==◌, ◌≡◌, refl, ◌⊎◌, true, Option, some, List, [], ◌∷◌,
  arith, if◌then◌else◌,
}
use postgres_search_replica.Prelude.Effects.{
  Attempt, returned, threw, cancelled, Exn, runtime_error, value_error, db_error,
}
use postgres_search_replica.Prelude.Dict.{Dict}
use postgres_search_replica.Config.{SearchPipeline}
use postgres_search_replica.Config.Samples.{books}
use postgres_search_replica.Orchestrator.Supervisor.{
  Supervision, stopped, Reach, here, next, leave, start, returns, raises, wakes, ask, works,
  crashes-bounded,
}
use postgres_search_replica.Orchestrator.Watchdog.{
  Watch, watch_all, heal_each, beyond, watch_all-GoesOn, watch_all-heals,
}

-- a worker that crashes, is restarted, and is asked to stop
restarted : (s : Supervision) × Reach s × (s.phase ≡ stopped) × (s.crashes ≡ 1) × (s.now ≡ 7000)
restarted = (
  _,
  next
      (next
        (next
          (next
            (next (next (next (next here (start refl refl)) (works 5000 refl)) (raises refl))
              (wakes 2000 refl (omega arith)))
            (start refl refl))
          ask)
        (returns refl))
      (leave refl refl),
  refl,
  refl,
  refl,
)

crashes-bounded_example : 2000 * restarted.0.crashes ≤ restarted.0.now + 2000
crashes-bounded_example = crashes-bounded restarted.1

abbrev text_of : Exn → String
text_of (runtime_error m) = m
text_of (value_error m) = m
text_of (db_error m) = m
text_of x = "raised"

-- the names that were dropped, then a mark for each pass of the reconciler
abbrev drop : String → List String → List String
drop name w = name ∷ w

abbrev reconcile : List String → List String × Attempt (Unit {0})
reconcile w = ("reconciled" ∷ w, threw (db_error "no lock"))

abbrev lag : String → ℕ
lag name = if name == "books" then 2000 else 10

abbrev query : String → List String → Attempt (Option (Option ℕ))
query name w = returned (some (some (lag name)))

abbrev two : Dict String SearchPipeline
two = ("films", books) ∷ ("books", books) ∷ []

abbrev quiet : Watch (List String)
quiet = record { world = []; lags = [] }

watch_all-GoesOn_example :
    ((watch_all text_of (λ n. "9") 1024 [] query drop reconcile two quiet).1 ≡ returned tt)
    ⊎ ((watch_all text_of (λ n. "9") 1024 [] query drop reconcile two quiet).1 ≡ cancelled)
watch_all-GoesOn_example =
    watch_all-GoesOn text_of (λ n. "9") 1024 [] query drop reconcile two quiet

healed :
    heal_each text_of
      (λ n. "9")
      1024
      (("default", true) ∷ [])
      query
      drop
      reconcile
      lag
      ("books" ∷ [])
      []
    ≡ "reconciled" ∷ "books" ∷ []
unfolding heal_each
healed = refl

watch_all-heals_example :
    ((watch_all text_of
        (λ n. "9")
        1024
        (("default", true) ∷ [])
        query
        drop
        reconcile
        two
        quiet).0.world
      ≡ heal_each text_of
          (λ n. "9")
          1024
          (("default", true) ∷ [])
          query
          drop
          reconcile
          lag
          (beyond text_of (λ n. "9") 1024 (("default", true) ∷ []) query drop reconcile lag two)
          [])
    × ((watch_all text_of (λ n. "9") 1024 (("default", true) ∷ []) query drop reconcile two quiet).1
        ≡ returned tt)
watch_all-heals_example =
    watch_all-heals text_of (λ n. "9") 1024 (("default", true) ∷ []) query drop reconcile lag
      (λ m. refl) (λ name w. refl) (λ w h. cc) two quiet (refl, (refl, tt))
