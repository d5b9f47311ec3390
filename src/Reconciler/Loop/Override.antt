-- ===== src/Reconciler/Loop/Override.antt =====
-- What `reconcile` of src/pg_replica/reconciler.py takes over from the control plane.
use postgres_search_replica.Prelude.{
  ℕ, ◌≡◌, refl, inl, inr, String, string_eq, nat_eq, ◌==◌, Bool, true, false, Option, none, some,
  List, [], ◌∷◌, ◌++◌, arith, Bool-cases, Option-cases, eq_iff, if◌then◌else◌,
}
use postgres_search_replica.Prelude.Dict.{
  keys, lookup, lookup-insert, member, dedup, member-dedup, member-append,
}
use postgres_search_replica.Prelude.Effects.{Result, ok, err}
use postgres_search_replica.Config.{SearchPipeline, Settings}
use postgres_search_replica.Control.History.{History, HistoryRow, get_latest_table_config}
use postgres_search_replica.Reconciler.Loop.{
  with_override, load_override, load_from, db_targets, load_overrides,
}

-- the configuration of a target after the control plane has been read
abbrev pub result_of : Result SearchPipeline → ℕ → Option SearchPipeline → Option SearchPipeline
result_of (err x) g old = old
result_of (ok c) g old = some (record c { generation = some g })

module _ {J : Type 0} (parse : J → Result SearchPipeline) where
  abbrev pub overridden : Option (HistoryRow J) → Option SearchPipeline → Option SearchPipeline
  overridden none old = old
  overridden (some row) old = result_of (parse row.config_json) row.generation old

  lookup-load_override :
      (rows : History J) (name t : String) (settings : Settings)
      → lookup name (load_override parse rows t settings).pipelines ≡ (
          if t == name
          then overridden (get_latest_table_config t rows) (lookup name settings.pipelines)
          else lookup name settings.pipelines)
  unfolding load_override
  lookup-load_override rows name t settings = elim (Option-cases (get_latest_table_config t rows)) [
    | inl n ↦ rw (load_override, n) (ground arith)
    | inr (row, s) ↦ rw (load_override, s) (go (parse row.config_json) row.generation)
  ]
    where
      go :
          (r : Result SearchPipeline) (g : ℕ)
          → lookup name (with_override parse settings t g r).pipelines ≡ (
              if t == name
              then result_of r g (lookup name settings.pipelines)
              else lookup name settings.pipelines)
      go (err x) g = ground arith
      go (ok c) g =
          ground (arith, lookup-insert t name (record c { generation = some g }) settings.pipelines)

  twice :
      (o : Option (HistoryRow J)) (old : Option SearchPipeline)
      → overridden o (overridden o old) ≡ overridden o old
  twice none old = refl
  twice (some row) old = go (parse row.config_json)
    where
      go :
          (r : Result SearchPipeline)
          → result_of r row.generation (result_of r row.generation old)
            ≡ result_of r row.generation old
      go (err x) = refl
      go (ok c) = refl

  lookup-load_from :
      (rows : History J) (name : String) (names : List String) (settings : Settings)
      → lookup name (load_from parse rows names settings).pipelines ≡ (
          if member name names
          then overridden (get_latest_table_config name rows) (lookup name settings.pipelines)
          else lookup name settings.pipelines)
  unfolding load_from
  lookup-load_from rows name [] settings = refl
  lookup-load_from rows name (t ∷ names) settings = elim (Bool-cases (t == name)) [
    | inl e ↦
        let is_name : t ≡ name = (eq_iff t name).0 e in
        let step = lookup-load_override rows name t settings in
        rw
          (lookup-load_from rows name names (load_override parse rows t settings), step, e, is_name)
          (settle (member name names))
    | inr f ↦
        rw
          (
            lookup-load_from rows name names (load_override parse rows t settings),
            lookup-load_override rows name t settings,
            f,
          )
          refl
  ]
    where
      old : Option SearchPipeline
      old = lookup name settings.pipelines

      latest : Option (HistoryRow J)
      latest = get_latest_table_config name rows

      settle :
          (b : Bool)
          → (if b then overridden latest (overridden latest old) else overridden latest old)
            ≡ overridden latest old
      settle true = twice latest old
      settle false = refl

  latest-member :
      (name : String) (rows : History J)
      → member name (db_targets rows) ≡ false
      → get_latest_table_config name rows ≡ none
  unfolding get_latest_table_config
  latest-member name [] h = refl
  latest-member name (r ∷ rows) h = ground (arith, h, latest-member name rows)

  -- After the control plane has been read, the pipeline of every target is the latest configuration
  -- that is stored for it, marked with its generation, if that parses, and otherwise the one that was
  -- in memory.
  pub lookup-load_overrides :
      (name : String) (rows : History J) (settings : Settings)
      → lookup name (load_overrides parse rows settings).pipelines
        ≡ overridden (get_latest_table_config name rows) (lookup name settings.pipelines)
  unfolding load_overrides
  lookup-load_overrides name rows settings = elim (Bool-cases (member name (db_targets rows))) [
    | inl t ↦
        rw
          (
            lookup-load_from rows name (dedup (keys settings.pipelines ++ db_targets rows))
                settings,
            member-dedup name (keys settings.pipelines ++ db_targets rows),
            member-append name (keys settings.pipelines) (db_targets rows),
            t,
          )
          (ground arith)
    | inr f ↦
        rw
          (
            lookup-load_from rows name (dedup (keys settings.pipelines ++ db_targets rows))
                settings,
            latest-member name rows f,
          )
          (ground arith)
  ]
