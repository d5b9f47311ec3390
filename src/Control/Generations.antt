-- ===== src/Control/Generations.antt =====
-- What the history of configurations in src/pg_replica/database.py keeps: the latest generation is
-- the one saved last, and a change of status touches one generation.
use postgres_search_replica.Prelude.{
  ℕ, suc, ◌<◌, ◌≡◌, ◌≢◌, refl, ap, inl, inr, String, string_eq, nat_eq, ◌==◌, Option, none, some,
  [], ◌∷◌, ◌++◌, arith, Bool-cases, eq_iff, if◌then◌else◌,
}
use postgres_search_replica.Control.History.{
  Status, pending, HistoryRow, History, max_generation, save_table_config, newer,
  get_latest_table_config, mark, update_config_status,
}

module _ {J : Type 0} where
  latest-append :
      (target : String) (rows : History J) (new : HistoryRow J)
      → new.target_name ≡ target
      → max_generation target rows < new.generation
      → get_latest_table_config target (rows ++ new ∷ []) ≡ some new
  unfolding get_latest_table_config max_generation
  latest-append target [] new same above = rw (same, (eq_iff target target).1 refl) refl
  latest-append target (r ∷ rows) new same above = elim (Bool-cases (r.target_name == target)) [
    | inl t ↦
        let rest = latest-append target rows new same (ground (arith, above, t)) in
        rw (t, rest) (ground (arith, above, t))
    | inr f ↦ rw f (latest-append target rows new same (ground (arith, above, f)))
  ]

  latest-append_other :
      (target other : String) (rows : History J) (new : HistoryRow J)
      → new.target_name ≡ target
      → target ≢ other
      → get_latest_table_config other (rows ++ new ∷ []) ≡ get_latest_table_config other rows
  unfolding get_latest_table_config
  latest-append_other target other [] new same apart =
      ground (arith, same, apart, eq_iff new.target_name other)
  latest-append_other target other (r ∷ rows) new same apart =
      ap (λ rest. if r.target_name == other then some (newer r rest) else rest)
        (latest-append_other target other rows new same apart)

  -- A configuration that is saved is the latest of its target from then on: it has the generation
  -- that is returned, one above every generation of the target so far, and waits to be planned. The
  -- latest configuration of every other target is the old one.
  pub save-latest :
      (target : String) (json : J) (hash : String) (rows : History J)
      → (get_latest_table_config target (save_table_config target json hash rows).0
          ≡ some (record {
            target_name = target;
            config_json = json;
            config_hash = hash;
            generation = suc (max_generation target rows);
            status = pending;
            error_message = none;
            observed_generation = 0;
          }))
        × ((save_table_config target json hash rows).1 ≡ suc (max_generation target rows))
        × ((other : String)
            → target ≢ other
            → get_latest_table_config other (save_table_config target json hash rows).0
              ≡ get_latest_table_config other rows)
  unfolding save_table_config
  save-latest target json hash rows = (
    latest-append target rows _ refl (omega arith),
    refl,
    λ other apart. latest-append_other target other rows _ refl apart,
  )

  abbrev pub map_option :
      (HistoryRow J → HistoryRow J) → Option (HistoryRow J) → Option (HistoryRow J)
  map_option f none = none
  map_option f (some r) = some (f r)

  mark-target :
      (target : String) (generation : ℕ) (status : Status) (error : Option String)
      (observed : Option ℕ) (r : HistoryRow J)
      → (mark target generation status error observed r).target_name ≡ r.target_name
  mark-target target generation status error observed r = ground arith

  newer-mark :
      (target : String) (generation : ℕ) (status : Status) (error : Option String)
      (observed : Option ℕ) (r : HistoryRow J) (o : Option (HistoryRow J))
      → newer
          (mark target generation status error observed r)
          (map_option (mark target generation status error observed) o)
        ≡ mark target generation status error observed (newer r o)
  newer-mark target generation status error observed r none = refl
  newer-mark target generation status error observed r (some s) = ground arith

  -- A change of status changes the row of that target and that generation, wherever it is the
  -- latest, and never which generation is the latest.
  pub latest-update :
      (target : String) (generation : ℕ) (status : Status) (error : Option String)
      (observed : Option ℕ) (name : String) (rows : History J)
      → get_latest_table_config name
          (update_config_status target generation status error observed rows)
        ≡ map_option
            (mark target generation status error observed)
            (get_latest_table_config name rows)
  unfolding get_latest_table_config update_config_status
  latest-update target generation status error observed name [] = refl
  latest-update target generation status error observed name (r ∷ rows) =
      let rest = latest-update target generation status error observed name rows in
      elim (Bool-cases (r.target_name == name)) [
        | inl t ↦
            rw (mark-target target generation status error observed r, t, rest)
              (ap some (
                newer-mark target generation status error observed r
                  (get_latest_table_config name rows)))
        | inr f ↦ rw (mark-target target generation status error observed r, f) rest
      ]
