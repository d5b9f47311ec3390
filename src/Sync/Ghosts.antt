-- ===== src/Sync/Ghosts.antt =====
-- `find_and_fix_ghost_records` of src/pg_replica/database.py: rows that the source has lost are
-- deleted from the sink. Numeric keys are natural numbers here. `checksum` stands for the aggregate
-- bit_xor of the database.
use Prim.Native.Nat.{min, max}
use postgres_search_replica.Prelude.{
  ℕ, zero, suc, ◌+◌, ◌-◌, Bool, not, ◌&&◌, List, [], ◌∷◌, ◌++◌, Eq, leb, ◌==◌, nat_eq, keep, length,
  if◌then◌else◌,
}
use postgres_search_replica.Prelude.Dict.{Dict, keys, member}
use postgres_search_replica.Sync.Table.{delete_any}

-- `[kid for kid in sink_ids if kid not in source_ids]`
unfoldable pub ghosts_among : {K : Type 0} ⦃e : Eq K⦄ → List K → List K → List K
ghosts_among source_ids sink_ids = keep (λ k. not (member k source_ids)) sink_ids

-- `if ghosts: DELETE …`
unfoldable pub delete_ghosts : {K V : Type 0} ⦃e : Eq K⦄ → List K → Dict K V → Dict K V
delete_ghosts [] table = table
delete_ghosts (g ∷ gs) table = delete_any (g ∷ gs) table

-- Strategy 2, for keys that are no numbers: the sets are compared whole.
unfoldable pub set_sweep : {K V : Type 0} ⦃e : Eq K⦄ → List K → Dict K V → Dict K V
set_sweep source_ids table = delete_ghosts (ghosts_among source_ids (keys table)) table

-- WHERE p_key BETWEEN start AND stop
abbrev pub between : ℕ → ℕ → ℕ → Bool
between start stop k = leb start k && leb k stop

abbrev pub ids_between : ℕ → ℕ → List ℕ → List ℕ
ids_between start stop = keep (between start stop)

-- the least and the greatest id of one table, as the two LIMIT 1 queries find them
abbrev pub least : ℕ → List ℕ → ℕ
least a [] = a
least a (b ∷ ids) = least (min a b) ids

abbrev pub greatest : ℕ → List ℕ → ℕ
greatest a [] = a
greatest a (b ∷ ids) = greatest (max a b) ids

abbrev pub id_range : List ℕ → List ℕ
id_range [] = []
id_range (a ∷ ids) = least a ids ∷ greatest a ids ∷ []

abbrev pub chunk_size : ℕ
chunk_size = 50000

module _ {C V : Type 0} ⦃ec : Eq C⦄ (checksum : List ℕ → C) (source : List ℕ) where
  -- do the counts and the checksums of a range agree?
  unfoldable pub agrees : ℕ → ℕ → Dict ℕ V → Bool
  agrees start stop table =
      length (ids_between start stop source) == length (ids_between start stop (keys table))
      && checksum (ids_between start stop source) == checksum (ids_between start stop (keys table))

  -- one range: the deep check runs where they do not
  unfoldable pub sweep_chunk : ℕ → ℕ → Dict ℕ V → Dict ℕ V
  sweep_chunk start stop table =
      if agrees start stop table
      then table
      else delete_ghosts
          (ghosts_among (ids_between start stop source) (ids_between start stop (keys table))) table

  -- `for start_id in range(min_id, max_id + 1, chunk_size)`, with the number of rounds as fuel
  unfoldable pub sweep_from : ℕ → ℕ → ℕ → ℕ → Dict ℕ V → Dict ℕ V
  sweep_from chunk zero start last table = table
  sweep_from chunk (suc rounds) start last table =
      if leb start last
      then sweep_from chunk rounds (start + chunk) last (sweep_chunk start (start + chunk) table)
      else table

  -- Strategy 3, for numeric keys. With no id in either table there is nothing to do.
  unfoldable pub range_sweep : ℕ → Dict ℕ V → Dict ℕ V
  range_sweep chunk table = elim (id_range (keys table) ++ id_range source) [
    | [] ↦ table
    | a ∷ ids ↦
        sweep_from chunk (suc (greatest a ids - least a ids)) (least a ids) (greatest a ids) table
  ]
