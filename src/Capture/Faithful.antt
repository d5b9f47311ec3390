-- ===== src/Capture/Faithful.antt =====
-- The outbox that the trigger and the back-fill of src/pg_replica/database.py write describes the store,
-- where a source row has one chunk.
use mathlib.Core.Path.{subst}
use postgres_search_replica.Prelude.{
  ℕ, String, string_eq, ◌==◌, ◌&&◌, ◌||◌, ◌≡◌, refl, sym, ◌∙◌, ap, Bool, true, false, Option, none,
  List, [], ◌∷◌, ◌++◌, arith, eq_iff, All, inl, inr,
}
use postgres_search_replica.Prelude.Dict.{lookup, contains}
use postgres_search_replica.Prelude.Effects.{ok}
use postgres_search_replica.Sync.Table.{Unique, lookup-delete_any}
use postgres_search_replica.Mirror.Outbox.{OutboxRow}
use postgres_search_replica.Capture.{
  StoreRow, Capture, deleted, delete_of, fire, backfill_rows, rows_of, Step, attach_trigger,
  setup_outbox_trigger, attached_error, backfill, try_attach, try_fill,
}
use postgres_search_replica.Capture.Replay.{
  Documents, as_table, replay, apply_row-delete, apply_row-other, replay-emit,
}
use postgres_search_replica.Capture.Covers.{
  Distinct, fills, with_rows, fire-attached, fire-store, Covers, emit-keeps, Step-Covers,
}

-- A history of the store, from before it was made, and whether a back-fill has succeeded in it. Each
-- state has one chunk for each source row.
pub data History (target version : String) (outbox : List (ℕ × OutboxRow)) (n : ℕ)
    : Bool → Capture → Type 0 where
  start :
      History target version outbox n false
        (record { store = none; attached = false; outbox = outbox; next_id = n })
  next :
      {filled : Bool} {s t : Capture}
      → History target version outbox n filled s
      → (step : Step target version s t) → Distinct t
      → History target version outbox n (filled || fills step) t

module _ (target version : String) where
  start-quiet :
      (outbox : List (ℕ × OutboxRow))
      → All (λ e. (e.1.target_name == target && e.1.version_id == version) ≡ false) outbox
      → (docs : Documents) → replay target version outbox docs ≡ docs
  unfolding replay
  start-quiet [] h docs = refl
  start-quiet ((n, x) ∷ outbox) h docs =
      ap (replay target version outbox) (apply_row-other target version x docs h.0)
      ∙ start-quiet outbox h.1 docs

  History-Distinct :
      {outbox : List (ℕ × OutboxRow)} {n : ℕ} {filled : Bool} {s : Capture}
      → History target version outbox n filled s
      → Distinct s
  History-Distinct start = tt
  History-Distinct (next g step d) = d

  History-Covers :
      {outbox : List (ℕ × OutboxRow)} {n : ℕ} {filled : Bool} {s : Capture}
      → History target version outbox n filled s
      → All (λ e. (e.1.target_name == target && e.1.version_id == version) ≡ false) outbox
      → (i : String) → Covers target version filled i s
  History-Covers {outbox} start foreign i =
      inr (refl, ap (lookup i) (start-quiet outbox foreign []))
  History-Covers (next {filled} g step d) foreign i =
      Step-Covers target version filled i step (History-Distinct g) d (History-Covers g foreign i)

  -- a set-up whose statements all succeed is two of the steps
  setup-History :
      {outbox : List (ℕ × OutboxRow)} {n : ℕ} {filled : Bool} (attach : Option String) (s : Capture)
      → attached_error s.store attach ≡ none
      → History target version outbox n filled s
      → History target version outbox n true (setup_outbox_trigger target version attach none s).0
  unfolding setup_outbox_trigger attach_trigger
  setup-History {outbox} {n} {filled} attach s none_raised g =
      let on : Capture = record s { attached = true } in
      let on_is : attach_trigger target version attach s ≡ (on, ok true) =
        rw (attach_trigger, none_raised) refl in
      let first : History target version outbox n (filled || false) on =
        subst (History target version outbox n (filled || false)) (ap (λ r. r.0) on_is) (
          next g (try_attach attach)
            (subst Distinct (sym (ap (λ r. r.0) on_is)) (History-Distinct g))) in
      let (same_on, same_store) =
        emit-keeps target version (backfill_rows target version (rows_of s.store)) on in
      let second =
        next first (try_fill none refl)
          (subst (λ o. Unique (as_table (rows_of o))) (sym same_store) (History-Distinct g)) in
      rw on_is (
        subst (λ b. History target version outbox n b (backfill target version none on).0)
          (or_true (filled || false)) second)
    where
      or_true : (b : Bool) → (b || true) ≡ true
      or_true b = ground arith

  -- Once a back-fill of a version has succeeded, which the trigger's attachment precedes, the outbox
  -- entries of the version, applied in the order of their ids, give for every id exactly the store's row
  -- with that key or nothing. This holds in every history of statements one after the other in which the
  -- store, once made, stays, its rows keep their keys and a source row has one chunk at a time, from an
  -- outbox without entries of the version, whatever changes come between the trigger and the back-fill
  -- and whichever set-ups fail in between.
  pub history-replays :
      {outbox : List (ℕ × OutboxRow)} {n : ℕ} {s : Capture}
      → History target version outbox n true s
      → All (λ e. (e.1.target_name == target && e.1.version_id == version) ≡ false) outbox
      → (i : String)
      → lookup i (replay target version s.outbox []) ≡ lookup i (as_table (rows_of s.store))
  history-replays g foreign i = elim (History-Covers g foreign i) [
    | inl (on, same) ↦ same
    | inr (f, gone) ↦ cc f
  ]

  -- Right after the deletion of a chunk whose source row has another one, the outbox says that the row is
  -- gone, although the store still holds it.
  pub chunk-lost :
      (s : Capture) (front back : List StoreRow) (r : StoreRow)
      → s.attached ≡ true
      → contains r.p_key (as_table (front ++ back)) ≡ true
      → (lookup r.p_key (
            replay target version
              (fire target version (deleted r) (with_rows target version s (front ++ back))).outbox
              [])
          ≡ none)
        × (contains r.p_key (
              as_table (
                rows_of
                  (fire target version
                    (deleted r)
                    (with_rows target version s (front ++ back))).store))
            ≡ true)
  chunk-lost s front back r t more = (
    ap (λ c. lookup r.p_key (replay target version c.outbox []))
          (fire-attached target version (deleted r) (with_rows target version s (front ++ back)) t)
        ∙ ap (lookup r.p_key) (
            replay-emit target version (delete_of target version r)
              (with_rows target version s (front ++ back))
            ∙ apply_row-delete target version r (replay target version s.outbox []))
        ∙ ground (
          arith,
          lookup-delete_any (r.p_key ∷ []) (replay target version s.outbox []) r.p_key,
          eq_iff r.p_key r.p_key,
        ),
    ap (λ o. contains r.p_key (as_table (rows_of o)))
          (fire-store target version (deleted r) (with_rows target version s (front ++ back)))
        ∙ more,
  )
