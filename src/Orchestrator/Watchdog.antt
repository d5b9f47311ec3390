-- ===== src/Orchestrator/Watchdog.antt =====
-- One pass of `Orchestrator._replication_loop` of src/pg_replica/orchestrator.py over the pipelines, with
-- `monitor_lag` of src/pg_replica/source/postgres.py. W is the state of the databases, `drop` stands for
-- drop_subscription_completely, which catches its exceptions, and `reconcile` for a pass of the
-- reconciler. Lags are natural numbers of some unit; `message` is `str(e)`.
use postgres_search_replica.Prelude.{
  ℕ, String, string_eq, ◌≡◌, ◌≢◌, refl, sym, ap, ◌∙◌, ◌⊎◌, inl, inr, Bool, true, Option, none, some,
  List, [], ◌∷◌, ltb, keep, concat, has, has-append, All, Bool-cases, if◌then◌else◌,
}
use postgres_search_replica.Prelude.Dict.{Dict, lookup, insert, keys}
use postgres_search_replica.Prelude.Effects.{
  Attempt, returned, threw, cancelled, Exn, key_error, attribute_error, type_error, timeout_error,
  value_error, runtime_error, db_error,
}
use postgres_search_replica.Config.{SearchPipeline}

-- the databases, and the gauge of lags
pub record Watch (W : Type 0) : Type 0 where
  pub world : W
  pub lags : Dict String ℕ

abbrev pub self_destructed : String → Bool
self_destructed m = has "Self-destructed" m

-- the next call, unless the last one raised or was cancelled
abbrev and_try : {A B : Type 0} → Attempt A → (A → Attempt B) → Attempt B
and_try (returned a) next = next a
and_try (threw x) next = threw x
and_try cancelled next = cancelled

abbrev go_on :
    {S : Type 0} → S × Attempt (Unit {0}) → (S → S × Attempt (Unit {0})) → S × Attempt (Unit {0})
go_on (s, returned _) next = next s
go_on (s, threw x) next = (s, threw x)
go_on (s, cancelled) next = (s, cancelled)

module _ (message : Exn → String) (show : ℕ → String) (max_size : ℕ) where
  -- `except Exception`
  abbrev pub caught : Exn → Attempt ℕ
  caught x = if self_destructed (message x) then threw x else returned 0

  -- `raise RuntimeError(f"Self-destructed …")`, which the same function's handler passes on
  abbrev pub too_far : ℕ → Exn
  too_far lag = runtime_error (
      concat (
        "Self-destructed"
        ∷ " to protect Source DB: Lag "
        ∷ show lag
        ∷ "MB > "
        ∷ show max_size
        ∷ "MB"
        ∷ []))

  -- The row of the slot, with its lag or NULL: `float(None)` is a TypeError.
  unfoldable pub monitor_lag : Attempt (Option (Option ℕ)) → Attempt ℕ
  monitor_lag (threw x) = caught x
  monitor_lag cancelled = cancelled
  monitor_lag (returned none) = if ltb max_size 0 then caught (too_far 0) else returned 0
  monitor_lag (returned (some none)) = caught type_error
  monitor_lag (returned (some (some lag))) =
      if ltb max_size lag then caught (too_far lag) else returned lag

  -- Which sources have an adapter, and whether it is that of the CDC strategy.
  module _ {W : Type 0} (adapters : Dict String Bool)
      (query : String → W → Attempt (Option (Option ℕ))) (drop : String → W → W)
      (reconcile : W → W × Attempt (Unit {0})) where
    unfoldable pub get_source_adapter : String → Attempt Bool
    get_source_adapter source = elim (lookup source adapters) [
      | none ↦
          threw (runtime_error (concat ("Source adapter '" ∷ source ∷ "' not initialized" ∷ [])))
      | some cdc ↦ returned cdc
    ]

    -- the other adapters have the method of the base class
    unfoldable pub lag_of : String → SearchPipeline → W → Attempt ℕ
    lag_of name config w =
        and_try (get_source_adapter config.ingest.source)
          (λ cdc. if cdc then monitor_lag (query name w) else returned 0)

    abbrev pub after_heal : Watch W → W × Attempt (Unit {0}) → Watch W × Attempt (Unit {0})
    after_heal s (w, returned _) = (record s { world = w }, returned tt)
    after_heal s (w, cancelled) = (record s { world = w }, cancelled)
    after_heal s (w, threw x) = (record s { world = w }, returned tt)

    unfoldable pub heal : String → Watch W → Watch W × Attempt (Unit {0})
    heal name s = after_heal s (reconcile (drop name s.world))

    unfoldable pub handle : String → Attempt ℕ → Watch W → Watch W × Attempt (Unit {0})
    handle name (returned lag) s = (record s { lags = insert name lag s.lags }, returned tt)
    handle name (threw (runtime_error m)) s =
        if self_destructed m then heal name s else (s, returned tt)
    handle name (cancelled) s = (s, cancelled)
    handle name (threw x) s = (s, returned tt)

    unfoldable pub watch_all : Dict String SearchPipeline → Watch W → Watch W × Attempt (Unit {0})
    watch_all [] s = (s, returned tt)
    watch_all ((name, config) ∷ rest) s =
        go_on (handle name (lag_of name config s.world) s) (watch_all rest)

    -- the loop goes on, or its task is cancelled
    abbrev GoesOn : Watch W × Attempt (Unit {0}) → Type 0
    GoesOn r = (r.1 ≡ returned tt) ⊎ (r.1 ≡ cancelled)

    after_heal-GoesOn : (s : Watch W) (r : W × Attempt (Unit {0})) → GoesOn (after_heal s r)
    after_heal-GoesOn s (w, returned _) = inl refl
    after_heal-GoesOn s (w, cancelled) = inr refl
    after_heal-GoesOn s (w, threw x) = inl refl

    handle-GoesOn : (name : String) (r : Attempt ℕ) (s : Watch W) → GoesOn (handle name r s)
    unfolding handle heal
    handle-GoesOn name (returned lag) s = inl refl
    handle-GoesOn name (cancelled) s = inr refl
    handle-GoesOn name (threw key_error) s = inl refl
    handle-GoesOn name (threw attribute_error) s = inl refl
    handle-GoesOn name (threw type_error) s = inl refl
    handle-GoesOn name (threw timeout_error) s = inl refl
    handle-GoesOn name (threw (value_error m)) s = inl refl
    handle-GoesOn name (threw (db_error m)) s = inl refl
    handle-GoesOn name (threw (runtime_error m)) s = elim (Bool-cases (self_destructed m)) [
      | inl t ↦ rw t (after_heal-GoesOn s (reconcile (drop name s.world)))
      | inr f ↦ rw f (inl refl)
    ]

    go_on-GoesOn :
        (r : Watch W × Attempt (Unit {0})) (f : Watch W → Watch W × Attempt (Unit {0}))
        → GoesOn r
        → ((s : Watch W) → GoesOn (f s))
        → GoesOn (go_on r f)
    go_on-GoesOn (s, returned _) f g h = h s
    go_on-GoesOn (s, threw x) f g h = g
    go_on-GoesOn (s, cancelled) f g h = g

    -- No failure of a source, of a teardown or of a reconciliation ends the watchdog: a pass over the
    -- pipelines comes to its end, or the task was cancelled.
    pub watch_all-GoesOn :
        (pipelines : Dict String SearchPipeline) (s : Watch W)
        → ((watch_all pipelines s).1 ≡ returned tt) ⊎ ((watch_all pipelines s).1 ≡ cancelled)
    unfolding watch_all
    watch_all-GoesOn [] s = inl refl
    watch_all-GoesOn ((name, config) ∷ rest) s =
        go_on-GoesOn (handle name (lag_of name config s.world) s) (watch_all rest)
          (handle-GoesOn name (lag_of name config s.world) s) (watch_all-GoesOn rest)

    then_ok :
        (r : Watch W × Attempt (Unit {0})) (f : Watch W → Watch W × Attempt (Unit {0}))
        → r.1 ≡ returned tt
        → go_on r f ≡ f r.0
    then_ok (s, returned _) f h = refl
    then_ok (s, threw x) f h = cc
    then_ok (s, cancelled) f h = cc

    -- `pipelines` with a slot each, whose lag does not change during the pass
    module _ (lag : String → ℕ) where
      -- what the pass should do to the databases
      unfoldable pub heal_each : List String → W → W
      heal_each [] w = w
      heal_each (name ∷ names) w = heal_each names (reconcile (drop name w)).0

      -- the targets that are beyond the limit
      abbrev pub beyond : Dict String SearchPipeline → List String
      beyond pipelines = keep (λ name. ltb max_size (lag name)) (keys pipelines)

      healed :
          (s : Watch W) (r : W × Attempt (Unit {0}))
          → r.1 ≢ cancelled
          → ((after_heal s r).0.world ≡ r.0) × ((after_heal s r).1 ≡ returned tt)
      healed s (w, returned _) h = (refl, refl)
      healed s (w, cancelled) h = absurd (h refl)
      healed s (w, threw x) h = (refl, refl)

      module _ (spoken : (m : String) → message (runtime_error m) ≡ m)
          (known : (name : String) (w : W) → query name w ≡ returned (some (some (lag name))))
          (lives : (w : W) → (reconcile w).1 ≢ cancelled) where
        destructive :
            (l : ℕ)
            → self_destructed (
                concat (
                  "Self-destructed"
                  ∷ " to protect Source DB: Lag "
                  ∷ show l
                  ∷ "MB > "
                  ∷ show max_size
                  ∷ "MB"
                  ∷ []))
              ≡ true
        destructive l =
            has-append "Self-destructed" (
              concat (" to protect Source DB: Lag " ∷ show l ∷ "MB > " ∷ show max_size ∷ "MB" ∷ []))

        limited :
            (l : ℕ)
            → monitor_lag (returned (some (some l)))
              ≡ (if ltb max_size l then threw (too_far l) else returned l)
        unfolding monitor_lag
        limited l = elim (Bool-cases (ltb max_size l)) [
          | inl t ↦ rw t (
              ap (λ m. if self_destructed m then threw (too_far l) else returned 0)
                (spoken (
                  concat (
                    "Self-destructed"
                    ∷ " to protect Source DB: Lag "
                    ∷ show l
                    ∷ "MB > "
                    ∷ show max_size
                    ∷ "MB"
                    ∷ [])))
              ∙ ap (λ b. if b then threw (too_far l) else returned 0) (destructive l))
          | inr f ↦ rw f refl
        ]

        measured :
            (name : String) (config : SearchPipeline) (w : W)
            → lookup config.ingest.source adapters ≡ some true
            → lag_of name config w ≡ (
                if ltb max_size (lag name) then threw (too_far (lag name)) else returned (lag name))
        unfolding lag_of get_source_adapter
        measured name config w there =
            ap
              (λ o.
                and_try
                  (elim o [
                    | none ↦ threw (
                        runtime_error (
                          concat
                            ("Source adapter '" ∷ config.ingest.source ∷ "' not initialized" ∷ [])))
                    | some cdc ↦ returned cdc
                  ])
                  (λ cdc. if cdc then monitor_lag (query name w) else returned 0))
              there
            ∙ ap monitor_lag (known name w)
            ∙ limited (lag name)

        over :
            (name : String) (config : SearchPipeline) (s : Watch W)
            → lookup config.ingest.source adapters ≡ some true
            → ltb max_size (lag name) ≡ true
            → handle name (lag_of name config s.world) s ≡ heal name s
        unfolding handle
        over name config s there t =
            ap (λ r. handle name r s)
              (measured name config s.world there
                ∙ ap (λ b. if b then threw (too_far (lag name)) else returned (lag name)) t)
            ∙ ap (λ b. if b then heal name s else (s, returned tt)) (destructive (lag name))

        -- A pass over pipelines that replicate by change data capture, with lags that do not change
        -- while it runs, drops and reconciles exactly the targets whose lag is beyond the limit, one
        -- after the other, and comes to its end.
        pub watch_all-heals :
            (pipelines : Dict String SearchPipeline) (s : Watch W)
            → All (λ p. lookup p.1.ingest.source adapters ≡ some true) pipelines
            → ((watch_all pipelines s).0.world ≡ heal_each (beyond pipelines) s.world)
              × ((watch_all pipelines s).1 ≡ returned tt)
        unfolding watch_all handle heal heal_each
        watch_all-heals [] s h = (refl, refl)
        watch_all-heals ((name, config) ∷ rest) s h = elim (Bool-cases (ltb max_size (lag name))) [
          | inr f ↦
              rw (measured name config s.world h.0, f)
                (watch_all-heals rest (record s { lags = insert name (lag name) s.lags }) h.1)
          | inl t ↦
              let (world, fine) =
                healed s (reconcile (drop name s.world)) (lives (drop name s.world)) in
              let step : watch_all ((name, config) ∷ rest) s ≡ watch_all rest (heal name s).0 =
                ap (λ r. go_on r (watch_all rest)) (over name config s h.0 t)
                ∙ then_ok (heal name s) (watch_all rest) fine in
              let (rest_world, rest_fine) = watch_all-heals rest (heal name s).0 h.1 in
              (
                ap (λ r. r.0.world) step
                    ∙ rest_world
                    ∙ ap (heal_each (beyond rest)) world
                    ∙ ap (λ b. heal_each (if b then name ∷ beyond rest else beyond rest) s.world)
                        (sym t),
                ap (λ r. r.1) step ∙ rest_fine,
              )
        ]
