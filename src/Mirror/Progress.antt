-- ===== src/Mirror/Progress.antt =====
-- What one pass of `_process_mirror` in src/pg_replica/mirror_worker.py does to the progress of a
-- mirror: no outbox row is skipped, none is handed over again after a success, and a failure costs
-- nothing but an error count.
use postgres_search_replica.Prelude.{
  ℕ, zero, suc, ◌<◌, ◌≡◌, refl, All-imp, inl, inr, String, string_eq, pair_eq, nat_eq, ◌==◌, true,
  ◌&&◌, some, List, [], ◌∷◌, map, arith, take, All, Bool-cases, Option-cases, List-cases, prefix,
}
use postgres_search_replica.Prelude.Dict.{lookup}
use postgres_search_replica.Prelude.Effects.{Result, ok, err, Exn}
use postgres_search_replica.Config.{Settings}
use postgres_search_replica.Sync.Order.{nat_order, order_by}
use postgres_search_replica.Sync.Table.{Unique}
use postgres_search_replica.Sync.Keyset.{fetch_batch, last_key, after, keep-true, drop}
use postgres_search_replica.Sync.Sorted.{order_by-Ascending}
use postgres_search_replica.Sync.CatchUp.{pending-page, pending}
use postgres_search_replica.Mirror.Outbox.{
  OutboxRow, OutboxEntry, entry_of, SinkAdapter, RegistryKey, Sink, last_processed,
  promoted_version,
}
use postgres_search_replica.Mirror.Registry.{
  last_processed-record_progress, last_processed-record_promotion,
}
use postgres_search_replica.Mirror.Worker.{
  World, new_rows, is_promoted, dispatch, after_batch, went_well, promote, promote_version,
  promoted_hash, after_alias, process_mirror, dimension_of,
}

-- the rows of the target above the last processed id, by ascending ids, with no limit
unfoldable pub backlog : RegistryKey → Sink → List (ℕ × OutboxRow)
backlog key sink =
    pending (order_by sink.outbox) (λ r. r.1.target_name == key.1)
      (some (last_processed key sink.registry))

new_rows-eq-take :
    (key : RegistryKey) (sink : Sink)
    → new_rows key.1 (last_processed key sink.registry) sink ≡ take 100 (backlog key sink)
unfolding new_rows backlog fetch_batch
new_rows-eq-take key sink = refl

pub All-last_key :
    (P : ℕ → Type 0) (r : ℕ × OutboxRow) (rs : List (ℕ × OutboxRow))
    → All (λ s. P s.0) (r ∷ rs)
    → P (last_key r.0 rs)
All-last_key P r [] h = h.0
All-last_key P r (s ∷ rs) h = All-last_key P s rs h.1

pub All-take :
    (P : ℕ × OutboxRow → Type 0) (n : ℕ) (rows : List (ℕ × OutboxRow))
    → All P rows
    → All P (take n rows)
All-take P zero rows h = tt
All-take P (suc n) [] h = tt
All-take P (suc n) (r ∷ rs) h = (h.0, All-take P n rs h.1)

pub backlog-above :
    (key : RegistryKey) (sink : Sink)
    → All (λ s. last_processed key sink.registry < s.0) (backlog key sink)
unfolding backlog
backlog-above key sink =
    let last = last_processed key sink.registry in
    All-imp (λ s h. ground (arith, h)) (backlog key sink)
      (keep-true (λ r. (r.1.target_name == key.1) && after (some last) r) (order_by sink.outbox))

-- what the adapter is given in a pass that has new rows
abbrev pub batch_of : {M : Type 0} → RegistryKey → World M → List OutboxEntry
batch_of key w = map entry_of (take 100 (backlog key w.sink))

module _ {M : Type 0} (settings : Settings) (message : Exn → String)
    (latency : List OutboxEntry → ℕ) (adapter : SinkAdapter M) (key : RegistryKey) where
  pub after_alias-progress :
      (version : String) (w : World M) (result : Result (Unit {0}))
      → last_processed key (after_alias settings message latency key version w result).sink.registry
        ≡ last_processed key w.sink.registry
  unfolding after_alias
  after_alias-progress version w (ok _) =
      last_processed-record_promotion key w.sink.registry version
  after_alias-progress version w (err x) = refl

  pub after_alias-outbox :
      (version : String) (w : World M) (result : Result (Unit {0}))
      → (after_alias settings message latency key version w result).sink.outbox ≡ w.sink.outbox
  unfolding after_alias
  after_alias-outbox version w (ok _) = refl
  after_alias-outbox version w (err x) = refl

  -- the promotion writes no progress
  promote_version-backlog :
      (version : String) (w : World M)
      → backlog key (promote_version settings message latency adapter key version w).sink
        ≡ backlog key w.sink
  unfolding promote_version backlog
  promote_version-backlog version w =
      elim (Bool-cases (is_promoted version (promoted_version key w.sink.registry))) [
        | inl t ↦ rw (promote_version, t) refl
        | inr f ↦
            let (m, result) =
              adapter.update_alias key.1 version (dimension_of (lookup key.1 settings.pipelines))
                w.mirror in
            let v : World M = record w { mirror = m } in
            rw
              (
                promote_version,
                f,
                after_alias-progress version v result,
                after_alias-outbox version v result,
              )
              refl
      ]

  pub promote-backlog :
      (w : World M)
      → backlog key (promote settings message latency adapter key w).sink ≡ backlog key w.sink
  unfolding promote
  promote-backlog w = elim (Option-cases (promoted_hash key.1 w.sink)) [
    | inl n ↦ rw (promote, n) refl
    | inr (h, s) ↦ rw (promote, s) (promote_version-backlog (prefix 8 h) w)
  ]

  pub dispatch-nil :
      (w : World M)
      → backlog key w.sink ≡ []
      → dispatch settings message latency adapter key w ≡ (w, true)
  unfolding dispatch
  dispatch-nil w h = rw (dispatch, new_rows-eq-take key w.sink, h) refl

  pub dispatch-cons :
      (w : World M) (r : ℕ × OutboxRow) (rs : List (ℕ × OutboxRow))
      → backlog key w.sink ≡ r ∷ rs
      → dispatch settings message latency adapter key w ≡ (
          let (m, result) = adapter.sync_batch (batch_of key w) w.mirror in
          (
            after_batch settings message latency key r
                (take 99 rs)
                (record w { mirror = m })
                result,
            went_well result,
          ))
  unfolding dispatch
  dispatch-cons w r rs h = rw (dispatch, new_rows-eq-take key w.sink, h) refl

  after_batch-backlog :
      (w : World M) (m : M) (r : ℕ × OutboxRow) (rs : List (ℕ × OutboxRow))
      → Unique w.sink.outbox
      → backlog key w.sink ≡ r ∷ rs
      → backlog key
          (after_batch settings message latency key r
            (take 99 rs)
            (record w { mirror = m })
            (ok tt)).sink
        ≡ drop 99 rs
  unfolding after_batch backlog
  after_batch-backlog w m r rs u h =
      rw
        (last_processed-record_progress key w.sink.registry (last_key r.0 (take 99 rs))
          (latency (map entry_of (r ∷ take 99 rs))))
        (pending-page (order_by w.sink.outbox) (λ s. s.1.target_name == key.1)
          (order_by-Ascending w.sink.outbox u) (some (last_processed key w.sink.registry)) 99 r rs
          h)

  -- A pass whose batch the adapter takes moves the mirror's progress past exactly the rows of that
  -- batch: what is left to do is what was to do, without its first 100 rows. (Outbox ids differ.)
  pub process_mirror-delivers :
      (w : World M)
      → Unique w.sink.outbox
      → (adapter.sync_batch (batch_of key w) w.mirror).1 ≡ ok tt
      → backlog key (process_mirror settings message latency adapter key w).sink
        ≡ drop 100 (backlog key w.sink)
  unfolding process_mirror
  process_mirror-delivers w u taken = elim (List-cases (backlog key w.sink)) [
    | inl e ↦ rw (process_mirror, dispatch-nil w e, promote-backlog w, e) refl
    | inr (r, rs, e) ↦
        let m = (adapter.sync_batch (batch_of key w) w.mirror).0 in
        rw
          (
            process_mirror,
            dispatch-cons w r rs e,
            taken,
            promote-backlog (
                after_batch settings message latency key r (take 99 rs) (record w { mirror = m })
                  (ok tt)),
            after_batch-backlog w m r rs u e,
            e,
          )
          refl
  ]
