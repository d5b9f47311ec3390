-- ===== src/Capture/Covers.antt =====
-- What each step of `setup_outbox_trigger` of src/pg_replica/database.py and of the changes of the store does
-- to the agreement of the outbox with the store.
use mathlib.Core.Path.{subst}
use mathlib.Core.List.{append-nil}
use postgres_search_replica.Prelude.{
  String, string_eq, ◌||◌, ◌+◌, ◌≡◌, ◌⊎◌, refl, sym, ◌∙◌, ap, Bool, true, false, Option, none, some,
  List, [], ◌∷◌, ◌++◌, arith, if◌then◌else◌, Bool-cases, Option-cases, is_some, inl, inr,
}
use postgres_search_replica.Prelude.Dict.{lookup}
use package.text.Mathlib.Text.{find?}
use postgres_search_replica.Sync.Table.{Unique, lookup-upsert_all}
use postgres_search_replica.Mirror.Outbox.{OutboxRow}
use postgres_search_replica.Capture.{
  StoreRow, RowEvent, Capture, inserted, updated, deleted, captured, emit, fire, backfill_rows,
  rows_of, Step, create, insert_row, update_row, delete_row, attach_trigger, attached_error,
  backfill, try_attach, try_fill, other,
}
use postgres_search_replica.Capture.Replay.{
  Documents, as_table, replay, apply_row, apply_row-other, replay-emit, replay-backfill,
}
use postgres_search_replica.Capture.Changes.{
  absent-rest, upsert-change, delete-change, changed, upsert-blank, delete-blank,
}

-- no two rows of the store come from one source row
abbrev pub Distinct : Capture → Type 0
Distinct s = Unique (as_table (rows_of s.store))

-- a back-fill without an error
abbrev pub fills : {target version : String} {s t : Capture} → Step target version s t → Bool
fills (create none_yet) = false
fills (insert_row rows r made) = false
fills (update_row front back old new made same) = false
fills (delete_row front back r made) = false
fills (try_attach m) = false
fills (try_fill none on) = true
fills (try_fill (some m) on) = false
fills (other x foreign) = false

module _ (target version : String) where
  abbrev pub with_rows : Capture → List StoreRow → Capture
  with_rows s rows = record s { store = some rows }

  pub fire-attached :
      (e : RowEvent) (s : Capture)
      → s.attached ≡ true
      → fire target version e s ≡ emit (captured target version e ∷ []) s
  unfolding fire
  fire-attached e s t = ap (λ b. if b then emit (captured target version e ∷ []) s else s) t

  fire-detached : (e : RowEvent) (s : Capture) → s.attached ≡ false → fire target version e s ≡ s
  unfolding fire
  fire-detached e s f = ap (λ b. if b then emit (captured target version e ∷ []) s else s) f

  -- What the entries of the version give for an id: where the trigger is attached, what the store has;
  -- or, before the back-fill, nothing.
  abbrev pub Covers : Bool → String → Capture → Type 0
  Covers filled i s =
      ((s.attached ≡ true)
        × (lookup i (replay target version s.outbox []) ≡ lookup i (as_table (rows_of s.store))))
      ⊎ ((filled ≡ false) × (lookup i (replay target version s.outbox []) ≡ none))

  -- A change keeps that, where its entry makes the change of the table, and makes nothing out of nothing
  -- but what the table has.
  fire-Covers :
      (filled : Bool) (i : String) (e : RowEvent) (s : Capture) (rows : List StoreRow)
      → Covers filled i s
      → (lookup i (replay target version s.outbox []) ≡ lookup i (as_table (rows_of s.store))
          → lookup i (
              apply_row target version
                (captured target version e)
                (replay target version s.outbox []))
            ≡ lookup i (as_table rows))
      → (lookup i (replay target version s.outbox []) ≡ none
          → (lookup i (
                apply_row target version
                  (captured target version e)
                  (replay target version s.outbox []))
              ≡ lookup i (as_table rows))
            ⊎ (lookup i (
                  apply_row target version
                    (captured target version e)
                    (replay target version s.outbox []))
                ≡ none))
      → Covers filled i (fire target version e (with_rows s rows))
  unfolding emit
  fire-Covers filled i e s rows h change blank = elim (Bool-cases s.attached) [
    | inl t ↦ subst (Covers filled i) (sym (fire-attached e (with_rows s rows) t)) (elim h [
      | inl (on, same) ↦ inl (t, one_more ∙ change same)
      | inr (f, q) ↦ elim (blank q) [
        | inl there ↦ inl (t, one_more ∙ there)
        | inr gone ↦ inr (f, one_more ∙ gone)
      ]
    ])
    | inr off ↦
        subst (Covers filled i) (sym (fire-detached e (with_rows s rows) off))
          (elim h [ inl (on, same) ↦ cc (on, off) | inr q ↦ inr q ])
  ]
    where
      one_more :
          lookup i (
            replay target version
              (emit (captured target version e ∷ []) (with_rows s rows)).outbox
              [])
          ≡ lookup i (
              apply_row target version
                (captured target version e)
                (replay target version s.outbox []))
      one_more =
          ap (lookup i) (replay-emit target version (captured target version e) (with_rows s rows))

  pub fire-store : (e : RowEvent) (s : Capture) → (fire target version e s).store ≡ s.store
  unfolding fire emit
  fire-store e s = ground arith

  attach-Covers :
      (filled : Bool) (i : String) (m : Option String) (s : Capture)
      → Covers filled i s
      → Covers filled i (attach_trigger target version m s).0
  unfolding attach_trigger
  attach-Covers filled i m s h = elim (Option-cases (attached_error s.store m)) [
    | inl n ↦ rw (attach_trigger, n) (elim h [ inl (on, same) ↦ inl (refl, same) | inr q ↦ inr q ])
    | inr (x, e) ↦
        rw (attach_trigger, e)
          (elim (Bool-cases (is_some (find? x "does not exist"))) [
            | inl t ↦ rw t h
            | inr f ↦ rw f h
          ])
  ]

  pub emit-keeps :
      (xs : List OutboxRow) (s : Capture)
      → ((emit xs s).attached ≡ s.attached) × ((emit xs s).store ≡ s.store)
  unfolding emit
  emit-keeps [] s = (refl, refl)
  emit-keeps (x ∷ xs) s =
      emit-keeps xs (record s { outbox = s.outbox ++ (s.next_id, x) ∷ []; next_id = s.next_id + 1 })

  -- the rows of the back-fill win over what was there
  wins :
      (docs table : Documents) (i : String)
      → (lookup i docs ≡ lookup i table) ⊎ (lookup i docs ≡ none)
      → elim (lookup i table) [ none ↦ lookup i docs | some v ↦ some v ] ≡ lookup i table
  wins docs table i (inl same) = ground (arith, same)
  wins docs table i (inr gone) = ground (arith, gone)

  backfill-Covers :
      (filled : Bool) (i : String) (s : Capture)
      → s.attached ≡ true
      → Unique (as_table (rows_of s.store))
      → Covers filled i s
      → Covers true i (backfill target version none s).0
  backfill-Covers filled i s on u h =
      let xs = backfill_rows target version (rows_of s.store) in
      let docs = replay target version s.outbox [] in
      let (same_on, same_store) = emit-keeps xs s in
      inl (
        same_on ∙ on,
        ap (lookup i) (replay-backfill target version (rows_of s.store) s)
            ∙ lookup-upsert_all docs (as_table (rows_of s.store)) i u
            ∙ wins docs (as_table (rows_of s.store)) i
                (elim h [ inl (t, same) ↦ inl same | inr (f, gone) ↦ inr gone ])
            ∙ ap (λ o. lookup i (as_table (rows_of o))) (sym same_store),
      )

  insert-Covers :
      (filled : Bool) (i : String) (s : Capture) (rows : List StoreRow) (r : StoreRow)
      → s.store ≡ some rows
      → Distinct (with_rows s (rows ++ r ∷ []))
      → Covers filled i s
      → Covers filled i (fire target version (inserted r) (with_rows s (rows ++ r ∷ [])))
  insert-Covers filled i s rows r made v h =
      let absent : lookup r.p_key (as_table (rows ++ [])) ≡ none = absent-rest rows [] r v in
      let docs = replay target version s.outbox [] in
      fire-Covers filled i (inserted r) s (rows ++ r ∷ []) h
        (λ same. upsert-change target version rows [] r docs i absent (
          inr (
            same
            ∙ ap (λ o. lookup i (as_table (rows_of o))) made
            ∙ ap (λ l. lookup i (as_table l)) (sym (append-nil rows)))))
        (upsert-blank target version rows [] r docs i absent)

  update-Covers :
      (filled : Bool) (i : String) (s : Capture) (front back : List StoreRow) (old new : StoreRow)
      → s.store ≡ some (front ++ old ∷ back)
      → old.p_key ≡ new.p_key
      → Distinct s
      → Covers filled i s
      → Covers filled i (fire target version (updated old new) (with_rows s (front ++ new ∷ back)))
  update-Covers filled i s front back old new made same u h =
      let gone : lookup old.p_key (as_table (front ++ back)) ≡ none =
        absent-rest front back old (subst (λ o. Unique (as_table (rows_of o))) made u) in
      let absent : lookup new.p_key (as_table (front ++ back)) ≡ none = rw same at gone in
      let docs = replay target version s.outbox [] in
      fire-Covers filled i (updated old new) s (front ++ new ∷ back) h
        (λ agree. upsert-change target version front back new docs i absent (
          changed target version front back old new i docs same gone
            (agree ∙ ap (λ o. lookup i (as_table (rows_of o))) made)))
        (upsert-blank target version front back new docs i absent)

  delete-Covers :
      (filled : Bool) (i : String) (s : Capture) (front back : List StoreRow) (r : StoreRow)
      → s.store ≡ some (front ++ r ∷ back)
      → Distinct s
      → Covers filled i s
      → Covers filled i (fire target version (deleted r) (with_rows s (front ++ back)))
  delete-Covers filled i s front back r made u h =
      let gone : lookup r.p_key (as_table (front ++ back)) ≡ none =
        absent-rest front back r (subst (λ o. Unique (as_table (rows_of o))) made u) in
      let docs = replay target version s.outbox [] in
      fire-Covers filled i (deleted r) s (front ++ back) h
        (λ same.
          delete-change target version front back r docs i gone
            (same ∙ ap (λ o. lookup i (as_table (rows_of o))) made))
        (λ blank. inr (delete-blank target version r docs i blank))

  or_false : (b : Bool) → b ≡ (b || false)
  or_false b = ground arith

  pub Step-Covers :
      {s t : Capture} (filled : Bool) (i : String) (step : Step target version s t)
      → Distinct s
      → Distinct t
      → Covers filled i s
      → Covers (filled || fills step) i t
  unfolding emit
  Step-Covers {s} filled i (create none_yet) u v h =
      subst (λ b. Covers b i (with_rows s [])) (or_false filled)
        (elim h [
          | inl (on, same) ↦ inl (on, same ∙ ap (λ o. lookup i (as_table (rows_of o))) none_yet)
          | inr q ↦ inr q
        ])
  Step-Covers {s} filled i (insert_row rows r made) u v h =
      let t = fire target version (inserted r) (with_rows s (rows ++ r ∷ [])) in
      subst (λ b. Covers b i t) (or_false filled)
        (insert-Covers filled i s rows r made
          (subst (λ o. Unique (as_table (rows_of o)))
            (fire-store (inserted r) (with_rows s (rows ++ r ∷ []))) v)
          h)
  Step-Covers {s} filled i (update_row front back old new made same) u v h =
      let t = fire target version (updated old new) (with_rows s (front ++ new ∷ back)) in
      subst (λ b. Covers b i t) (or_false filled)
        (update-Covers filled i s front back old new made same u h)
  Step-Covers {s} filled i (delete_row front back r made) u v h =
      let t = fire target version (deleted r) (with_rows s (front ++ back)) in
      subst (λ b. Covers b i t) (or_false filled) (delete-Covers filled i s front back r made u h)
  Step-Covers {s} filled i (try_attach m) u v h =
      subst (λ b. Covers b i (attach_trigger target version m s).0) (or_false filled)
        (attach-Covers filled i m s h)
  Step-Covers {s} true i (try_fill none on) u v h = backfill-Covers true i s on u h
  Step-Covers {s} false i (try_fill none on) u v h = backfill-Covers false i s on u h
  Step-Covers {s} filled i (try_fill (some m) on) u v h =
      subst (λ b. Covers b i s) (or_false filled) h
  Step-Covers {s} filled i (other x foreign) u v h =
      let kept = ap (lookup i) (
        replay-emit target version x s
        ∙ apply_row-other target version x (replay target version s.outbox []) foreign) in
      subst (λ b. Covers b i (emit (x ∷ []) s)) (or_false filled)
        (elim h [ inl (on, same) ↦ inl (on, kept ∙ same) | inr (f, gone) ↦ inr (f, kept ∙ gone) ])
