-- ===== src/Mirror/Failure.antt =====
-- A pass of `_process_mirror` in src/pg_replica/mirror_worker.py whose batch raises, and the bound
-- that every pass keeps.
use postgres_search_replica.Prelude.{
  ℕ, ◌+◌, ◌≤◌, ◌<◌, ◌≡◌, refl, ◌∙◌, inl, inr, String, string_eq, pair_eq, nat_eq, List, ◌∷◌, map,
  arith, take, Bool-cases, Option-cases, List-cases, prefix,
}
use postgres_search_replica.Prelude.Dict.{lookup}
use postgres_search_replica.Prelude.Effects.{Result, ok, err, Exn}
use postgres_search_replica.Config.{Settings}
use postgres_search_replica.Sync.Order.{nat_order}
use postgres_search_replica.Sync.Keyset.{last_key}
use postgres_search_replica.Mirror.Outbox.{
  OutboxRow, OutboxEntry, entry_of, SinkAdapter, RegistryKey, record_error, last_processed,
  promoted_version,
}
use postgres_search_replica.Mirror.Registry.{
  error_count, last_processed-record_progress, last_processed-record_error,
  promoted_version-record_error, error_count-record_error,
}
use postgres_search_replica.Mirror.Progress.{
  backlog, backlog-above, All-last_key, All-take, after_alias-progress, after_alias-outbox,
  dispatch-nil, dispatch-cons, batch_of,
}
use postgres_search_replica.Mirror.Worker.{
  World, is_promoted, after_batch, went_well, promote, promote_version, promoted_hash,
  process_mirror, dimension_of,
}

module _ {M : Type 0} (settings : Settings) (message : Exn → String)
    (latency : List OutboxEntry → ℕ) (adapter : SinkAdapter M) (key : RegistryKey) where
  failed-backlog :
      (w : World M) (text : String)
      → backlog key (record (w.sink) { registry = record_error text key w.sink.registry })
        ≡ backlog key w.sink
  unfolding backlog
  failed-backlog w text = rw (last_processed-record_error key w.sink.registry text) refl

  -- A pass whose batch raises an Exception, so no cancellation, and whose own statements to the sink
  -- succeed leaves the engine as the adapter left it, with no change of alias. The same rows are still
  -- to do, the promoted version is the old one, and the error count is one higher.
  pub process_mirror-fails :
      (w : World M) (x : Exn) (r : ℕ × OutboxRow) (rs : List (ℕ × OutboxRow))
      → backlog key w.sink ≡ r ∷ rs
      → (adapter.sync_batch (batch_of key w) w.mirror).1 ≡ err x
      → ((process_mirror settings message latency adapter key w).mirror
          ≡ (adapter.sync_batch (batch_of key w) w.mirror).0)
        × (backlog key (process_mirror settings message latency adapter key w).sink
            ≡ backlog key w.sink)
        × (promoted_version key
              (process_mirror settings message latency adapter key w).sink.registry
            ≡ promoted_version key w.sink.registry)
        × (error_count key (process_mirror settings message latency adapter key w).sink.registry
            ≡ error_count key w.sink.registry + 1)
  unfolding process_mirror after_batch
  process_mirror-fails w x r rs e raised =
      rw
        (
          process_mirror,
          dispatch-cons settings message latency adapter key w r rs e,
          raised,
          after_batch,
        )
        (
          refl,
          failed-backlog w (message x),
          promoted_version-record_error key w.sink.registry (message x),
          error_count-record_error key w.sink.registry (message x),
        )

  promote-outbox :
      (w : World M) → (promote settings message latency adapter key w).sink.outbox ≡ w.sink.outbox
  unfolding promote promote_version
  promote-outbox w = elim (Option-cases (promoted_hash key.1 w.sink)) [
    | inl n ↦ rw (promote, n) refl
    | inr (h, s) ↦
        elim (Bool-cases (is_promoted (prefix 8 h) (promoted_version key w.sink.registry))) [
          | inl t ↦ rw (promote, s, promote_version, t) refl
          | inr f ↦
              let (m, result) =
                adapter.update_alias key.1 (prefix 8 h)
                  (dimension_of (lookup key.1 settings.pipelines)) w.mirror in
              rw (promote, s, promote_version, f)
                (after_alias-outbox settings message latency adapter key (prefix 8 h)
                  (record w { mirror = m }) result)
        ]
  ]

  after_batch-outbox :
      (w : World M) (r : ℕ × OutboxRow) (rs : List (ℕ × OutboxRow)) (result : Result (Unit {0}))
      → (after_batch settings message latency key r rs w result).sink.outbox ≡ w.sink.outbox
  unfolding after_batch
  after_batch-outbox w r rs (ok _) = refl
  after_batch-outbox w r rs (err x) = refl

  -- the worker never writes the outbox
  pub process_mirror-outbox :
      (w : World M)
      → (process_mirror settings message latency adapter key w).sink.outbox ≡ w.sink.outbox
  unfolding process_mirror
  process_mirror-outbox w = elim (List-cases (backlog key w.sink)) [
    | inl e ↦
        rw (process_mirror, dispatch-nil settings message latency adapter key w e)
          (promote-outbox w)
    | inr (r, rs, e) ↦
        let (m, result) = adapter.sync_batch (batch_of key w) w.mirror in
        let v =
          after_batch settings message latency key r (take 99 rs) (record w { mirror = m })
            result in
        let same = after_batch-outbox (record w { mirror = m }) r (take 99 rs) result in
        elim (Bool-cases (went_well result)) [
          | inl t ↦
              rw (process_mirror, dispatch-cons settings message latency adapter key w r rs e, t)
                (promote-outbox v ∙ same)
          | inr f ↦
              rw (process_mirror, dispatch-cons settings message latency adapter key w r rs e, f)
                same
        ]
  ]

  promote-progress :
      (w : World M)
      → last_processed key (promote settings message latency adapter key w).sink.registry
        ≡ last_processed key w.sink.registry
  unfolding promote promote_version
  promote-progress w = elim (Option-cases (promoted_hash key.1 w.sink)) [
    | inl n ↦ rw (promote, n) refl
    | inr (h, s) ↦
        elim (Bool-cases (is_promoted (prefix 8 h) (promoted_version key w.sink.registry))) [
          | inl t ↦ rw (promote, s, promote_version, t) refl
          | inr f ↦
              let (m, result) =
                adapter.update_alias key.1 (prefix 8 h)
                  (dimension_of (lookup key.1 settings.pipelines)) w.mirror in
              rw (promote, s, promote_version, f)
                (after_alias-progress settings message latency adapter key (prefix 8 h)
                  (record w { mirror = m }) result)
        ]
  ]

  after_batch-progress :
      (w : World M) (m : M) (r : ℕ × OutboxRow) (rs : List (ℕ × OutboxRow))
      (result : Result (Unit {0}))
      → backlog key w.sink ≡ r ∷ rs
      → last_processed key w.sink.registry
        ≤ last_processed key
            (after_batch settings message latency key r
              (take 99 rs)
              (record w { mirror = m })
              result).sink.registry
  unfolding after_batch
  after_batch-progress w m r rs (ok _) e =
      let old = last_processed key w.sink.registry in
      let last = last_key r.0 (take 99 rs) in
      let higher : old < last =
        All-last_key (λ i. old < i) r (take 99 rs)
          (All-take (λ s. old < s.0) 100 (r ∷ rs) (rw e at (backlog-above key w.sink))) in
      omega (
        arith,
        higher,
        last_processed-record_progress key w.sink.registry last
            (latency (map entry_of (r ∷ take 99 rs))),
      )
  after_batch-progress w m r rs (err x) e =
      omega (arith, last_processed-record_error key w.sink.registry (message x))

  -- No pass moves the progress of its mirror back, whatever the adapter does.
  pub last_processed-grows :
      (w : World M)
      → last_processed key w.sink.registry
        ≤ last_processed key (process_mirror settings message latency adapter key w).sink.registry
  unfolding process_mirror
  last_processed-grows w = elim (List-cases (backlog key w.sink)) [
    | inl e ↦
        rw (process_mirror, dispatch-nil settings message latency adapter key w e)
          (omega (arith, promote-progress w))
    | inr (r, rs, e) ↦
        let (m, result) = adapter.sync_batch (batch_of key w) w.mirror in
        let v =
          after_batch settings message latency key r (take 99 rs) (record w { mirror = m })
            result in
        let grown = after_batch-progress w m r rs result e in
        elim (Bool-cases (went_well result)) [
          | inl t ↦
              rw (process_mirror, dispatch-cons settings message latency adapter key w r rs e, t)
                (omega (arith, promote-progress v, grown))
          | inr f ↦
              rw (process_mirror, dispatch-cons settings message latency adapter key w r rs e, f)
                grown
        ]
  ]
