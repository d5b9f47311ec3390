-- ===== src/Capture.antt =====
-- `setup_outbox_trigger` of src/pg_replica/database.py, and what its trigger writes to _sink_outbox
-- while the store table of a vectorizer changes. The store is the list of its rows; pgai keeps in
-- each the primary key of the source row.
pub mod Replay
pub mod Changes
pub mod Covers
pub mod Faithful
mod Tests
use postgres_search_replica.Prelude.{
  ℕ, ◌+◌, String, string_eq, ◌==◌, ◌&&◌, ◌≡◌, Bool, true, false, Option, none, some, List, [], ◌∷◌,
  ◌++◌, is_some, if◌then◌else◌,
}
use postgres_search_replica.Prelude.Dict.{Dict}
use postgres_search_replica.Prelude.Effects.{Result, ok, err, Exn, db_error}
use postgres_search_replica.Mirror.Outbox.{OutboxRow}
use package.text.Mathlib.Text.{find?}

-- Values as the trigger reads them, the vector and the key cast to text.
pub record StoreRow : Type 0 where
  pub p_key : String
  pub chunk : Option String
  pub embedding : Option String

-- The store table once the worker has made it, whether the trigger is on it, the outbox, and the
-- next id of its sequence.
pub record Capture : Type 0 where
  pub store : Option (List StoreRow)
  pub attached : Bool
  pub outbox : List (ℕ × OutboxRow)
  pub next_id : ℕ

-- one row that a statement inserts, updates or deletes
pub data RowEvent : Type 0 where
  inserted : StoreRow → RowEvent
  updated : (old new : StoreRow) → RowEvent
  deleted : StoreRow → RowEvent

-- `jsonb_build_object('content', chunk, 'embedding', embedding::text)`
abbrev pub payload_of : StoreRow → Dict String (Option String)
payload_of r = ("content", r.chunk) ∷ ("embedding", r.embedding) ∷ []

-- INSERT INTO _sink_outbox, for each row in turn. The table has no key but its sequence, so ON
-- CONFLICT DO NOTHING never applies.
unfoldable pub emit : List OutboxRow → Capture → Capture
emit [] s = s
emit (x ∷ xs) s =
    emit xs (record s { outbox = s.outbox ++ (s.next_id, x) ∷ []; next_id = s.next_id + 1 })

-- The statement that attaches the trigger raises where the store is not there yet; otherwise it
-- may fail for reasons of its own, `attach`, and so may the back-fill.
abbrev pub attached_error : Option (List StoreRow) → Option String → Option String
attached_error none attach = some "relation does not exist"
attached_error (some rows) attach = attach

abbrev pub rows_of : Option (List StoreRow) → List StoreRow
rows_of none = []
rows_of (some rows) = rows

module _ (target version : String) where
  abbrev pub upsert_of : StoreRow → OutboxRow
  upsert_of r = record {
    target_name = target;
    version_id = version;
    source_id = r.p_key;
    action = "UPSERT";
    payload = some (payload_of r);
  }

  abbrev pub delete_of : StoreRow → OutboxRow
  delete_of r = record {
    target_name = target;
    version_id = version;
    source_id = r.p_key;
    action = "DELETE";
    payload = none;
  }

  -- the trigger function
  abbrev pub captured : RowEvent → OutboxRow
  captured (inserted r) = upsert_of r
  captured (updated old new) = upsert_of new
  captured (deleted r) = delete_of r

  -- the trigger fires for each row, where it is attached
  unfoldable pub fire : RowEvent → Capture → Capture
  fire e s = if s.attached then emit (captured e ∷ []) s else s

  -- the rows of the back-fill
  abbrev pub backfill_rows : List StoreRow → List OutboxRow
  backfill_rows [] = []
  backfill_rows (r ∷ rs) = upsert_of r ∷ backfill_rows rs

  abbrev pub backfill : Option String → Capture → Capture × Result (Unit {0})
  backfill none s = (emit (backfill_rows (rows_of s.store)) s, ok tt)
  backfill (some m) s = (s, err (db_error m))

  -- whether the trigger is on; a missing relation is left to the next loop
  unfoldable pub attach_trigger : (attach : Option String) → Capture → Capture × Result Bool
  attach_trigger attach s = elim (attached_error s.store attach) [
    | some m ↦ if is_some (find? m "does not exist") then (s, ok false) else (s, err (db_error m))
    | none ↦ (record s { attached = true }, ok true)
  ]

  abbrev pub after_attach : Option String → Capture × Result Bool → Capture × Result (Unit {0})
  after_attach fill (s, err x) = (s, err x)
  after_attach fill (s, ok on) = if on then backfill fill s else (s, ok tt)

  unfoldable pub setup_outbox_trigger :
      (attach fill : Option String) → Capture → Capture × Result (Unit {0})
  setup_outbox_trigger attach fill s = after_attach fill (attach_trigger attach s)

  -- What may happen, one statement at a time: the worker makes the store, its rows change, a set-up
  -- attaches the trigger or fails to, a set-up that has attached it back-fills or fails to, and other
  -- targets and versions write to the outbox. Each statement of a set-up commits by itself. The worker
  -- does not change the key of a row.
  pub data Step (s : Capture) : Capture → Type 0 where
    create : s.store ≡ none → Step s (record s { store = some [] })
    insert_row :
        (rows : List StoreRow) (r : StoreRow)
        → s.store ≡ some rows
        → Step s (fire (inserted r) (record s { store = some (rows ++ r ∷ []) }))
    update_row :
        (front back : List StoreRow) (old new : StoreRow)
        → s.store ≡ some (front ++ old ∷ back)
        → old.p_key ≡ new.p_key
        → Step s (fire (updated old new) (record s { store = some (front ++ new ∷ back) }))
    delete_row :
        (front back : List StoreRow) (r : StoreRow)
        → s.store ≡ some (front ++ r ∷ back)
        → Step s (fire (deleted r) (record s { store = some (front ++ back) }))
    try_attach : (m : Option String) → Step s (attach_trigger m s).0
    try_fill : (m : Option String) → s.attached ≡ true → Step s (backfill m s).0
    other :
        (x : OutboxRow)
        → (x.target_name == target && x.version_id == version) ≡ false
        → Step s (emit (x ∷ []) s)
