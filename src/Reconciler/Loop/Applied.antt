-- ===== src/Reconciler/Loop/Applied.antt =====
-- The generation of a target through the application of a plan, in src/pg_replica/reconciler.py: it
-- ends as Ready or as Failed.
use postgres_search_replica.Prelude.{
  ℕ, ◌≡◌, ◌≢◌, refl, inl, inr, ◌⊎◌, String, string_eq, nat_eq, ◌==◌, ◌&&◌, true, false, not, Option,
  none, some, List, [], ◌∷◌, arith, keep, Bool-cases, eq_iff, if◌then◌else◌,
}
use postgres_search_replica.Prelude.Dict.{member}
use postgres_search_replica.Prelude.Effects.{Exn, Result, ok, err}
use postgres_search_replica.Config.{Settings}
use postgres_search_replica.Control.History.{
  syncing, ready, failed, HistoryRow, get_latest_table_config, set_status,
}
use postgres_search_replica.Reconciler.{Action}
use postgres_search_replica.Reconciler.Applier.Perform.{Operations, perform}
use postgres_search_replica.Reconciler.Applier.Apply.{
  Plane, generation_of, mark_target, has_failed, note_failure, after_action, apply_one, apply_from,
  apply,
}
use postgres_search_replica.Reconciler.Loop.Outcome.{
  latest-mark_target, latest-mark_other, latest-mark_each,
}
use postgres_search_replica.Reconciler.Loop.{affected_targets, mark_each, apply_plan}

member-keep-not :
    (name : String) (failed_targets targets : List String)
    → member name (keep (λ t. not (member t failed_targets)) targets)
      ≡ (member name targets && not (member name failed_targets))
member-keep-not name failed_targets [] = refl
member-keep-not name failed_targets (t ∷ targets) =
    ground (arith, member-keep-not name failed_targets targets, eq_iff t name)

module _ {S J : Type 0} (ops : Operations S) (message : Exn → String) (settings : Settings)
    (name : String) (g : ℕ) (current : generation_of settings name ≡ some g) where
  -- where a target has not failed, its row is `r`, and where it has, the row says so
  abbrev pub Tracks : HistoryRow J → Plane S J × List String → Type 0
  Tracks r (w, failed_targets) =
      ((member name failed_targets ≡ false) × (get_latest_table_config name w.history ≡ some r))
      ⊎ ((member name failed_targets ≡ true)
          × ((text : String) × (get_latest_table_config name w.history
                ≡ some (set_status failed (some text) none r))))

  Tracks-failure :
      (r : HistoryRow J) (x : Exn) (t : String) (w : Plane S J) (failed_targets : List String)
      → r.generation ≡ g
      → member t failed_targets ≡ false
      → Tracks r (w, failed_targets)
      → Tracks r (
        record w { history = mark_target settings failed (some (message x)) false t w.history },
        t ∷ failed_targets,
      )
  Tracks-failure r x t w failed_targets same fresh k = elim (Bool-cases (t == name)) [
    | inl e ↦
        let is_name : t ≡ name = (eq_iff t name).0 e in
        inr (ground arith, (message x, rw is_name (marked (not_yet (rw is_name at fresh) k))))
    | inr f ↦
        let apart : t ≢ name = λ e. ground (arith, f, e, eq_iff t name) in
        elim k [
          | inl (m, h) ↦ inl (
            ground (arith, m, f),
            latest-mark_other settings name g current failed (some (message x)) false t w.history r
                apart h,
          )
          | inr (m, (text, h)) ↦ inr (
            ground (arith, m, f),
            (
              text,
              latest-mark_other settings name g current failed (some (message x)) false t w.history
                  (set_status failed (some text) none r) apart h,
            ),
          )
        ]
  ]
    where
      not_yet :
          member name failed_targets ≡ false
          → Tracks r (w, failed_targets)
          → get_latest_table_config name w.history ≡ some r
      not_yet m (inl (n, h)) = h
      not_yet m (inr (n, h)) = cc

      marked :
          get_latest_table_config name w.history ≡ some r
          → get_latest_table_config name
              (mark_target settings failed (some (message x)) false name w.history)
            ≡ some (set_status failed (some (message x)) none r)
      marked h =
          latest-mark_target settings name g current failed (some (message x)) false w.history r h
            same

  apply_one-Tracks :
      (r : HistoryRow J) (a : Action) (state : Plane S J × List String)
      → r.generation ≡ g
      → Tracks r state
      → Tracks r (apply_one ops message settings a state)
  unfolding apply_one note_failure
  apply_one-Tracks r a (w, failed_targets) same k =
      elim (Bool-cases (has_failed a.target_name failed_targets)) [
        | inl t ↦ rw (t, apply_one) k
        | inr f ↦
            let (s, result) = perform ops settings a w.databases in
            rw (f, apply_one) (after a.target_name (record w { databases = s }) result f k)
      ]
    where
      after :
          (target : Option String) (v : Plane S J) (result : Result (Unit {0}))
          → has_failed target failed_targets ≡ false
          → Tracks r (v, failed_targets)
          → Tracks r (after_action ops message settings target v failed_targets result)
      after target v (ok _) fresh k = k
      after none v (err x) fresh k = k
      after (some t) v (err x) fresh k = elim (Bool-cases (t == "")) [
        | inl y ↦ rw y k
        | inr n ↦ rw n (Tracks-failure r x t v failed_targets same (rw n at fresh) k)
      ]

  apply_from-Tracks :
      (r : HistoryRow J) (actions : List Action) (state : Plane S J × List String)
      → r.generation ≡ g
      → Tracks r state
      → Tracks r (apply_from ops message settings actions state)
  unfolding apply_from
  apply_from-Tracks r [] state same k = k
  apply_from-Tracks r (a ∷ actions) state same k =
      apply_from-Tracks r actions (apply_one ops message settings a state) same
        (apply_one-Tracks r a state same k)

  -- the plane after the first step of the application
  abbrev pub started : List Action → Plane S J → Plane S J
  started actions w = record w {
    history = mark_each settings syncing false (affected_targets actions) w.history;
  }

  abbrev pub failures : List Action → Plane S J → List String
  failures actions w = (apply ops message settings actions (started actions w)).1

  -- The outcome for the latest generation of an affected target: Ready and observed if none of its
  -- actions failed, and otherwise Failed with the text of an error.
  abbrev pub Outcome : List Action → Plane S J → HistoryRow J → Type 0
  Outcome actions w r =
      ((member name (failures actions w) ≡ false)
        × (get_latest_table_config name (apply_plan ops message settings actions w).history
            ≡ some (set_status ready none (some g) r)))
      ⊎ ((member name (failures actions w) ≡ true)
          × ((text : String) × (get_latest_table_config name
                  (apply_plan ops message settings actions w).history
                ≡ some (set_status failed (some text) none r))))

  pub apply_plan-Outcome :
      (actions : List Action) (w : Plane S J) (r : HistoryRow J)
      → get_latest_table_config name w.history ≡ some r
      → r.generation ≡ g
      → member name (affected_targets actions) ≡ true
      → Outcome actions w r
  unfolding apply_plan apply
  apply_plan-Outcome actions w r h same affected = elim tracked [
    | inl (m, k) ↦ inl (m, rw (affected, m) at (final begun k same))
    | inr (m, (text, k)) ↦
        inr
          (m, (text, rw (affected, m) at (final (set_status failed (some text) none begun) k same)))
  ]
    where
      targets : List String
      targets = affected_targets actions

      begun : HistoryRow J
      begun = set_status syncing none none r

      tracked : Tracks begun (apply_from ops message settings actions (started actions w, []))
      tracked =
          apply_from-Tracks begun actions (started actions w, []) same
            (inl (
              refl,
              rw affected at (
                  latest-mark_each settings name g current syncing false targets w.history r h
                    same),
            ))

      done : Plane S J
      done = (apply_from ops message settings actions (started actions w, [])).0

      kept : List String
      kept = keep (λ t. not (member t (failures actions w))) targets

      final :
          (row : HistoryRow J)
          → get_latest_table_config name done.history ≡ some row
          → row.generation ≡ g
          → get_latest_table_config name (mark_each settings ready true kept done.history)
            ≡ some (
                if member name targets && not (member name (failures actions w))
                then set_status ready none (some g) row
                else row)
      final row k e =
          rw (← member-keep-not name (failures actions w) targets)
            (latest-mark_each settings name g current ready true kept done.history row k e)
