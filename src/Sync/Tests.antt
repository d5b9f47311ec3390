-- ===== src/Sync/Tests.antt =====
-- The recovery of a target on small tables.
use postgres_search_replica.Prelude.{
  ℕ, ◌+◌, ◌≡◌, refl, String, Bool, not, none, some, List, [], ◌∷◌, ◌++◌, arith, string_eq, nat_eq,
  ◌==◌,
}
use postgres_search_replica.Prelude.Dict.{Dict, lookup, keys}
use postgres_search_replica.Sync.Order.{nat_order, Ascending}
use postgres_search_replica.Sync.Keyset.{fetch_batch}
use postgres_search_replica.Sync.CatchUp.{Progress, catch_up}
use postgres_search_replica.Sync.Exact.{synced, catch_up_exact}
use postgres_search_replica.Sync.Ghosts.{
  agrees, sweep_chunk, sweep_from, range_sweep, least, id_range,
}
use postgres_search_replica.Sync.Recovery.{recover, recovered, recover_exact}
use postgres_search_replica.Sync.Sweep.{BlindSpot, range_sweep-survivor, range_sweep-keeps}

abbrev source_rows : Dict ℕ String
source_rows = (3, "c") ∷ (1, "a") ∷ (2, "b") ∷ []

abbrev sorted_rows : Dict ℕ String
sorted_rows = (1, "a") ∷ (2, "b") ∷ (3, "c") ∷ []

abbrev no_b : ℕ × String → Bool
no_b r = not (r.1 == "b")

abbrev start : Progress ℕ String
start = record { table = (3, "old") ∷ (9, "z") ∷ []; saved = some none; total = 0 }

catch_up_exact_example :
    (t : Progress ℕ String) × (catch_up (fetch_batch source_rows no_b) 2 4 none start ≡ some t)
    × ((k : ℕ)
        → lookup k t.table ≡ synced no_b none k (lookup k source_rows) (lookup k start.table))
catch_up_exact_example = catch_up_exact source_rows no_b 1 none start (refl, (refl, (refl, tt)))

sorted_rows-Ascending : Ascending sorted_rows
sorted_rows-Ascending = ((refl, (refl, tt)), ((refl, tt), (tt, tt)))

-- a checksum that, like bit_xor, does not tell all lists of ids apart
abbrev sum : List ℕ → ℕ
sum [] = 0
sum (i ∷ ids) = i + sum ids

-- a source with the ids 1 and 2, and a sink with 0 and 3
abbrev drifted : Dict ℕ String
drifted = (0, "x") ∷ (3, "y") ∷ []

range_sweep-survivor_example :
    (a : ℕ) × (ids : List ℕ) × (id_range (keys drifted) ++ id_range (1 ∷ 2 ∷ []) ≡ a ∷ ids)
    × BlindSpot sum (1 ∷ 2 ∷ []) 10 (least a ids) 0 "x" drifted
unfolding range_sweep sweep_from sweep_chunk agrees
range_sweep-survivor_example =
    range_sweep-survivor sum (1 ∷ 2 ∷ []) 0 10 "x" drifted (omega arith) refl refl

abbrev kept : Dict ℕ String
kept = (1, "a") ∷ (3, "y") ∷ []

range_sweep-keeps_example : lookup 1 (range_sweep sum (1 ∷ 2 ∷ []) 10 kept) ≡ some "a"
range_sweep-keeps_example = range_sweep-keeps sum (1 ∷ 2 ∷ []) 1 10 kept refl

recover_exact_example :
    (table : Dict ℕ String) × (recover source_rows no_b 2 4 start ≡ some table)
    × ((k : ℕ) → lookup k table ≡ recovered no_b k (lookup k source_rows) (lookup k start.table))
recover_exact_example = recover_exact source_rows no_b 1 start (refl, (refl, (refl, tt)))
