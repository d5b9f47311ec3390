-- ===== src/Mirror/Drain.antt =====
-- Passes of `_process_mirror` in src/pg_replica/mirror_worker.py, one after the other, and a row of
-- the outbox that is committed late.
use mathlib.Core.List.{append-nil, append_assoc, map-append}
use postgres_search_replica.Prelude.{
  ℕ, zero, suc, ◌*◌, ◌≤◌, ◌≡◌, refl, sym, ap, ◌∙◌, inl, inr, String, string_eq, pair_eq, nat_eq,
  List, [], ◌∷◌, ◌++◌, map, arith, take, length, Bool-cases, Option-cases, List-cases, prefix,
}
use postgres_search_replica.Prelude.Effects.{ok, Exn}
use postgres_search_replica.Config.{Settings}
use postgres_search_replica.Sync.Order.{nat_order}
use postgres_search_replica.Sync.Table.{Unique}
use postgres_search_replica.Sync.Keyset.{drop, take-append-drop, length-drop}
use postgres_search_replica.Mirror.Outbox.{
  OutboxRow, OutboxEntry, entry_of, SinkAdapter, RegistryKey, promoted_version,
}
use postgres_search_replica.Mirror.Progress.{
  backlog, dispatch-nil, dispatch-cons, batch_of, process_mirror-delivers,
}
use postgres_search_replica.Mirror.Failure.{process_mirror-outbox}
use postgres_search_replica.Mirror.Worker.{
  World, is_promoted, after_batch, promote, promote_version, promoted_hash, after_alias,
  process_mirror,
}

-- `rounds` passes for one mirror and one target
abbrev pub passes : {M : Type 0} → (World M → World M) → ℕ → World M → World M
passes pass zero w = w
passes pass (suc n) w = passes pass n (pass w)

module _ {M : Type 0} (settings : Settings) (message : Exn → String)
    (latency : List OutboxEntry → ℕ) (adapter : SinkAdapter M) (key : RegistryKey) where
  -- Where the adapter never raises, one pass for each 100 rows of the backlog leaves nothing to do.
  pub passes-drain :
      (n : ℕ) (w : World M)
      → ((es : List OutboxEntry) (m : M) → (adapter.sync_batch es m).1 ≡ ok tt)
      → Unique w.sink.outbox
      → length (backlog key w.sink) ≤ 100 * n
      → backlog key (passes (process_mirror settings message latency adapter key) n w).sink ≡ []
  passes-drain zero w takes u small = empty_list (backlog key w.sink) small
    where
      empty_list : (rows : List (ℕ × OutboxRow)) → length rows ≤ 0 → rows ≡ []
      empty_list [] h = refl
      empty_list (r ∷ rs) h = absurd (omega (arith, h))
  passes-drain (suc n) w takes u small =
      let next = process_mirror settings message latency adapter key w in
      let left =
        process_mirror-delivers settings message latency adapter key w u
          (takes (batch_of key w) w.mirror) in
      passes-drain n next takes
        (rw (process_mirror-outbox settings message latency adapter key w) u)
        (rw left (omega (arith, length-drop 100 (backlog key w.sink), small)))

-- An engine that keeps every entry it is given.
abbrev pub log_adapter : SinkAdapter (List OutboxEntry)
log_adapter = record {
  sync_batch = λ es log. (log ++ es, ok tt);
  update_alias = λ target version size log. (log, ok tt);
}

module _ (settings : Settings) (message : Exn → String) (latency : List OutboxEntry → ℕ)
    (key : RegistryKey) where
  abbrev logged : World (List OutboxEntry) → World (List OutboxEntry)
  logged = process_mirror settings message latency log_adapter key

  promote-log :
      (w : World (List OutboxEntry))
      → (promote settings message latency log_adapter key w).mirror ≡ w.mirror
  unfolding promote promote_version after_alias
  promote-log w = elim (Option-cases (promoted_hash key.1 w.sink)) [
    | inl n ↦ rw (promote, n) refl
    | inr (h, s) ↦
        elim (Bool-cases (is_promoted (prefix 8 h) (promoted_version key w.sink.registry))) [
          | inl t ↦ rw (promote, s, promote_version, t) refl
          | inr f ↦ rw (promote, s, promote_version, f) refl
        ]
  ]

  logged-eq-append : (w : World (List OutboxEntry)) → (logged w).mirror ≡ w.mirror ++ batch_of key w
  unfolding process_mirror after_batch
  logged-eq-append w = elim (List-cases (backlog key w.sink)) [
    | inl e ↦
        rw (process_mirror, dispatch-nil settings message latency log_adapter key w e)
          (promote-log w
            ∙ sym (append-nil w.mirror)
            ∙ ap (λ b. w.mirror ++ map entry_of (take 100 b)) (sym e))
    | inr (r, rs, e) ↦
        let v =
          after_batch settings message latency key r (take 99 rs)
            (record w { mirror = w.mirror ++ batch_of key w }) (ok tt) in
        rw (process_mirror, dispatch-cons settings message latency log_adapter key w r rs e)
          (promote-log v)
  ]

  -- Over the passes that the backlog needs, an engine that never raises is handed every entry of
  -- the backlog exactly once, by ascending ids.
  pub passes-log :
      (n : ℕ) (w : World (List OutboxEntry))
      → Unique w.sink.outbox
      → length (backlog key w.sink) ≤ 100 * n
      → (passes logged n w).mirror ≡ w.mirror ++ map entry_of (backlog key w.sink)
  passes-log zero w u small = elim (List-cases (backlog key w.sink)) [
    | inl e ↦ sym (append-nil w.mirror) ∙ ap (λ b. w.mirror ++ map entry_of b) (sym e)
    | inr (r, rs, e) ↦ absurd (omega (arith, small, ap length e))
  ]
  passes-log (suc n) w u small =
      let todo = backlog key w.sink in
      let left = process_mirror-delivers settings message latency log_adapter key w u refl in
      passes-log n (logged w)
        (rw (process_mirror-outbox settings message latency log_adapter key w) u)
        (rw left (omega (arith, length-drop 100 todo, small)))
      ∙ ap (λ b. (logged w).mirror ++ map entry_of b) left
      ∙ ap (λ l. l ++ map entry_of (drop 100 todo)) (logged-eq-append w)
      ∙ append_assoc w.mirror (batch_of key w) (map entry_of (drop 100 todo))
      ∙ ap (λ l. w.mirror ++ l) (sym (map-append entry_of (take 100 todo) (drop 100 todo)))
      ∙ ap (λ b. w.mirror ++ map entry_of b) (take-append-drop 100 todo)
