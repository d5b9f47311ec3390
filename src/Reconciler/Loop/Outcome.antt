-- ===== src/Reconciler/Loop/Outcome.antt =====
-- The status of a generation after `reconcile` of src/pg_replica/reconciler.py has applied a plan.
use postgres_search_replica.Prelude.{
  ℕ, ◌≡◌, ◌≢◌, refl, ap, inl, inr, String, string_eq, nat_eq, ◌==◌, Bool, true, false, Option, none,
  some, List, [], ◌∷◌, arith, Bool-cases, Option-cases, eq_iff, if◌then◌else◌,
}
use postgres_search_replica.Prelude.Dict.{member}
use postgres_search_replica.Config.{Settings}
use postgres_search_replica.Control.History.{
  Status, History, HistoryRow, get_latest_table_config, set_status,
}
use postgres_search_replica.Control.Generations.{latest-update}
use postgres_search_replica.Reconciler.Applier.Apply.{generation_of, mark_target}
use postgres_search_replica.Reconciler.Loop.{mark_each}

module _ {J : Type 0} where
  latest-target :
      (name : String) (rows : History J) (r : HistoryRow J)
      → get_latest_table_config name rows ≡ some r
      → (r.target_name == name) ≡ true
  unfolding get_latest_table_config
  latest-target name [] r h = cc
  latest-target name (x ∷ rows) r h = elim (Option-cases (get_latest_table_config name rows)) [
    | inl n ↦ ground (arith, h, n)
    | inr (s, e) ↦ ground (arith, h, e, latest-target name rows s e)
  ]

module _ {J : Type 0} (settings : Settings) (name : String) (g : ℕ)
    (current : generation_of settings name ≡ some g) where
  -- marking the target
  pub latest-mark_target :
      (status : Status) (error : Option String) (observed : Bool) (rows : History J)
      (r : HistoryRow J)
      → get_latest_table_config name rows ≡ some r
      → r.generation ≡ g
      → get_latest_table_config name (mark_target settings status error observed name rows)
        ≡ some (set_status status error (if observed then some g else none) r)
  unfolding mark_target
  latest-mark_target status error observed rows r h same =
      rw
        (
          mark_target,
          current,
          latest-update name g status error (if observed then some g else none) name rows,
          h,
        )
        (ground (arith, same, latest-target name rows r h))

  -- marking another target
  pub latest-mark_other :
      (status : Status) (error : Option String) (observed : Bool) (t : String) (rows : History J)
      (r : HistoryRow J)
      → t ≢ name
      → get_latest_table_config name rows ≡ some r
      → get_latest_table_config name (mark_target settings status error observed t rows) ≡ some r
  unfolding mark_target
  latest-mark_other status error observed t rows r apart h =
      elim (Option-cases (generation_of settings t)) [
        | inl n ↦ rw (mark_target, n) h
        | inr (i, e) ↦
            rw
              (
                mark_target,
                e,
                latest-update t i status error (if observed then some i else none) name rows,
                h,
              )
              (ground (
                arith,
                latest-target name rows r h,
                eq_iff r.target_name name,
                eq_iff r.target_name t,
              ))
      ]

  marked_twice :
      (status : Status) (error : Option String) (observed : Bool) (r : HistoryRow J)
      → set_status status error
          (if observed then some g else none)
          (set_status status error (if observed then some g else none) r)
        ≡ set_status status error (if observed then some g else none) r
  marked_twice status error true r = refl
  marked_twice status error false r = refl

  -- marking a list of targets
  pub latest-mark_each :
      (status : Status) (observed : Bool) (targets : List String) (rows : History J)
      (r : HistoryRow J)
      → get_latest_table_config name rows ≡ some r
      → r.generation ≡ g
      → get_latest_table_config name (mark_each settings status observed targets rows)
        ≡ some (
            if member name targets
            then set_status status none (if observed then some g else none) r
            else r)
  unfolding mark_each
  latest-mark_each status observed [] rows r h same = h
  latest-mark_each status observed (t ∷ targets) rows r h same = elim (Bool-cases (t == name)) [
    | inl e ↦
        let is_name : t ≡ name = (eq_iff t name).0 e in
        let next =
          latest-mark_each status observed targets
            (mark_target settings status none observed t rows)
            (set_status status none (if observed then some g else none) r)
            (rw is_name (latest-mark_target status none observed rows r h same)) same in
        rw (next, e) (settle (member name targets))
    | inr f ↦
        rw
          (
            latest-mark_each status observed targets
                (mark_target settings status none observed t rows) r
                (latest-mark_other status none observed t rows r
                  (λ e. ground (arith, f, e, eq_iff t name)) h)
                same,
            f,
          )
          refl
  ]
    where
      settle :
          (b : Bool)
          → some (
              if b
              then set_status status none
                  (if observed then some g else none)
                  (set_status status none (if observed then some g else none) r)
              else set_status status none (if observed then some g else none) r)
            ≡ some (set_status status none (if observed then some g else none) r)
      settle true = ap some (marked_twice status none observed r)
      settle false = refl
