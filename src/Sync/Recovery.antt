-- ===== src/Sync/Recovery.antt =====
-- SINK_RECOVERY of src/pg_replica/reconciler.py from the start, for a Postgres source whose keys are no
-- numbers: the catch-up, and then the ghost cleaner of database.py, which compares all ids.
use postgres_search_replica.Prelude.{
  ℕ, suc, ◌≡◌, refl, ap, ◌∙◌, inl, inr, Bool, true, false, ◌&&◌, Option, none, some, List, Eq,
  length, Option-cases, if◌then◌else◌,
}
use postgres_search_replica.Prelude.Dict.{Dict, keys, lookup, contains, member}
use postgres_search_replica.Sync.Order.{Order}
use postgres_search_replica.Sync.Table.{Unique, member-keys}
use postgres_search_replica.Sync.Keyset.{fetch_batch}
use postgres_search_replica.Sync.CatchUp.{Progress, catch_up}
use postgres_search_replica.Sync.Exact.{synced, catch_up_exact}
use postgres_search_replica.Sync.Ghosts.{set_sweep}
use postgres_search_replica.Sync.Sweep.{lookup-set_sweep}

module _ {K V : Type 0} ⦃e : Eq K⦄ ⦃o : Order K⦄ where
  abbrev pub swept : List K → Option (Progress K V) → Option (Dict K V)
  swept ids none = none
  swept ids (some t) = some (set_sweep ids t.table)

  -- the sink table after the recovery; the ghost cleaner reads the ids of the source with no filter
  unfoldable pub recover : Dict K V → (K × V → Bool) → ℕ → ℕ → Progress K V → Option (Dict K V)
  recover rows filter size fuel s =
      swept (keys rows) (catch_up (fetch_batch rows filter) size fuel none s)

  -- what the sink holds under a key, from the source's row and the old one
  abbrev pub recovered : (K × V → Bool) → K → Option V → Option V → Option V
  recovered filter k none old = none
  recovered filter k (some v) old = if filter (k, v) then some v else old

  -- A recovery over a source table with distinct keys ends, for every page size above 0. It leaves no
  -- row whose key the source lacks, and the source's row under every key whose row matches the filter;
  -- where the source's row does not match the filter, the sink keeps what it held there before.
  pub recover_exact :
      (rows : Dict K V) (filter : K × V → Bool) (m : ℕ) (s : Progress K V)
      → Unique rows
      → (table : Dict K V) × (recover rows filter (suc m) (suc (length rows)) s ≡ some table)
        × ((k : K) → lookup k table ≡ recovered filter k (lookup k rows) (lookup k s.table))
  unfolding recover
  recover_exact rows filter m s u =
      let (t, ended, exact) = catch_up_exact rows filter m none s u in
      (
        set_sweep (keys rows) t.table,
        ap (swept (keys rows)) ended,
        λ k.
            lookup-set_sweep k (keys rows) t.table
            ∙ settle k (lookup k t.table) (member-keys rows k) (exact k),
      )
    where
      settle :
          (k : K) (now : Option V)
          → member k (keys rows) ≡ contains k rows
          → now ≡ synced filter none k (lookup k rows) (lookup k s.table)
          → (if member k (keys rows) then now else none)
            ≡ recovered filter k (lookup k rows) (lookup k s.table)
      settle k now known h = elim (Option-cases (lookup k rows)) [
        | inl n ↦ rw (known, n) refl
        | inr (v, found) ↦
            rw (known, found)
              (h
                ∙ ap (λ q. synced filter none k q (lookup k s.table)) found
                ∙ after_none (filter (k, v)) v k)
      ]
        where
          after_none :
              (b : Bool) (v : V) (k : K)
              → (if b && true then some v else lookup k s.table)
                ≡ (if b then some v else lookup k s.table)
          after_none true v k = refl
          after_none false v k = refl
