-- ===== src/Handshake.antt =====
-- Where the planner and the mirror worker meet: `get_sink_state` of src/pg_replica/reconciler.py reads the
-- outbox and the registry of the mirrors, and `plan` compares what it read.
mod Tests
use Prim.Native.Nat.{max}
use postgres_search_replica.Prelude.{
  ℕ, ◌≤◌, ◌<◌, ◌≡◌, ◌≢◌, refl, sym, ap, ◌∙◌, inl, inr, String, string_eq, pair_eq, nat_eq, ◌==◌,
  Bool, true, false, ◌&&◌, Option, none, some, or_else, List, [], ◌∷◌, arith, map, Elem, keep-Elem,
  All-Elem, Bool-cases, Option-cases, eq_iff, if◌then◌else◌,
}
use postgres_search_replica.Prelude.Dict.{Dict, lookup, insert, lookup-insert}
use postgres_search_replica.Config.{SearchPipeline}
use postgres_search_replica.Sync.Order.{nat_order, order_by, insert_row, ◌≺◌}
use postgres_search_replica.Sync.Keyset.{after}
use postgres_search_replica.Reconciler.{SinkState}
use postgres_search_replica.Reconciler.Planner.Plan.{is_synced}
use postgres_search_replica.Reconciler.Planner.Promotion.{is_synced_lem, IsSynced}
use postgres_search_replica.Mirror.Outbox.{OutboxRow, RegistryKey, Registry, Sink, last_processed}
use postgres_search_replica.Mirror.Progress.{backlog, backlog-above}

-- SELECT version_id, MAX(id) … GROUP BY version_id
unfoldable pub watermarks_of : List (ℕ × OutboxRow) → Dict String ℕ
watermarks_of [] = []
watermarks_of ((i, row) ∷ rows) =
    let rest = watermarks_of rows in
    insert row.version_id (max i (or_else (lookup row.version_id rest) 0)) rest

-- SELECT mirror_id, target_name, last_processed_id
unfoldable pub progress_of : Registry → Dict RegistryKey ℕ
progress_of [] = []
progress_of ((key, row) ∷ rows) = (key, row.last_processed_id) ∷ progress_of rows

-- The discovered state tells what the tables of the sink say.
pub record Discovered (sink : SinkState) (tables : Sink) : Type 0 where
  pub watermarks : sink.outbox_watermarks ≡ watermarks_of tables.outbox
  pub progress : sink.mirror_progress ≡ progress_of tables.registry

last_processed-progress :
    (key : RegistryKey) (registry : Registry)
    → or_else (lookup key (progress_of registry)) 0 ≡ last_processed key registry
unfolding progress_of last_processed
last_processed-progress key [] = refl
last_processed-progress key ((k, row) ∷ rows) = elim (Bool-cases (k == key)) [
  | inl t ↦ rw t refl
  | inr f ↦ rw f (last_processed-progress key rows)
]

-- the watermark of a version is at or above every id of the version
below-watermark :
    (i : ℕ) (row : OutboxRow) (rows : List (ℕ × OutboxRow))
    → Elem (i, row) rows
    → i ≤ or_else (lookup row.version_id (watermarks_of rows)) 0
unfolding watermarks_of
below-watermark i row [] m = elim m [ ]
below-watermark i row ((j, other) ∷ rows) (inl e) =
    let rest = watermarks_of rows in
    let same_id : i ≡ j = ap (λ p. p.0) e in
    let same_version : row.version_id ≡ other.version_id = ap (λ p. p.1.version_id) e in
    ground (
      arith,
      same_id,
      same_version,
      lookup-insert other.version_id row.version_id
          (max j (or_else (lookup other.version_id rest) 0)) rest,
      eq_iff other.version_id row.version_id,
    )
below-watermark i row ((j, other) ∷ rows) (inr m) =
    let rest = watermarks_of rows in
    let old = below-watermark i row rows m in
    ground (
      arith,
      old,
      lookup-insert other.version_id row.version_id
          (max j (or_else (lookup other.version_id rest) 0)) rest,
      eq_iff other.version_id row.version_id,
    )

Elem-insert_row :
    (x r : ℕ × OutboxRow) (rows : List (ℕ × OutboxRow))
    → Elem x (insert_row r rows)
    → Elem x (r ∷ rows)
Elem-insert_row x r [] m = m
Elem-insert_row x r (s ∷ rs) m = elim (Bool-cases (r.0 ≺ s.0)) [
  | inl t ↦ rw t at m
  | inr f ↦ elim (behind f) [
    | inl e ↦ inr (inl e)
    | inr n ↦ elim (Elem-insert_row x r rs n) [ inl e ↦ inl e | inr k ↦ inr (inr k) ]
  ]
]
  where
    behind : (r.0 ≺ s.0) ≡ false → Elem x (s ∷ insert_row r rs)
    behind f = rw f at m

Elem-order_by :
    (x : ℕ × OutboxRow) (rows : List (ℕ × OutboxRow)) → Elem x (order_by rows) → Elem x rows
unfolding order_by
Elem-order_by x [] m = m
Elem-order_by x (r ∷ rs) m = elim (Elem-insert_row x r (order_by rs) m) [
  | inl e ↦ inl e
  | inr n ↦ inr (Elem-order_by x rs n)
]

-- Where the planner takes a version for synced, from a discovered state that tells what the tables of
-- the sink say, no mirror of the pipeline has an entry of that version left to process. A mirror's key in
-- the settings is its id here.
pub is_synced-backlog :
    (sink : SinkState) (tables : Sink) (name : String) (config : SearchPipeline)
    (version mirror : String) (r : ℕ × OutboxRow)
    → Discovered sink tables
    → is_synced sink name config version ≡ true
    → Elem mirror config.storage.mirrors
    → Elem r (backlog (mirror, name) tables)
    → r.1.version_id ≢ version
unfolding backlog
is_synced-backlog sink tables name config version mirror r found synced m left same =
    let last = last_processed (mirror, name) tables.registry in
    let reached =
      All-Elem
        (λ k.
          or_else (lookup version sink.outbox_watermarks) 0
          ≤ or_else (lookup (k, name) sink.mirror_progress) 0)
        mirror config.storage.mirrors (is_synced_lem sink name config version synced).mirrored m in
    let higher : last < r.0 =
      All-Elem (λ s. last < s.0) r (backlog (mirror, name) tables)
        (backlog-above (mirror, name) tables) left in
    let (sorted, kept) =
      keep-Elem (λ s. (s.1.target_name == name) && after (some last) s) r (order_by tables.outbox)
        left in
    let low = below-watermark r.0 r.1 tables.outbox (Elem-order_by r tables.outbox sorted) in
    let wm : ℕ = or_else (lookup version (watermarks_of tables.outbox)) 0 in
    let caught_up : wm ≤ last =
      rw (found.watermarks, found.progress, last_processed-progress (mirror, name) tables.registry)
        at reached in
    let bounded : r.0 ≤ wm = rw same at low in omega (arith, higher, caught_up, bounded)
