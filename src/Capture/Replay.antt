-- ===== src/Capture/Replay.antt =====
-- What an engine holds that applies the outbox entries of one version in the order of their ids.
use postgres_search_replica.Prelude.{
  ℕ, String, string_eq, ◌==◌, ◌&&◌, ◌≡◌, refl, ◌∙◌, ap, true, false, Option, none, some, List, [],
  ◌∷◌, ◌++◌, arith, eq_iff, if◌then◌else◌,
}
use postgres_search_replica.Prelude.Dict.{Dict, insert}
use postgres_search_replica.Sync.Table.{upsert_all, delete_any}
use postgres_search_replica.Mirror.Outbox.{OutboxRow}
use postgres_search_replica.Capture.{
  StoreRow, Capture, payload_of, upsert_of, delete_of, emit, backfill_rows,
}

abbrev pub Documents : Type 0
Documents = Dict String (Dict String (Option String))

-- an upsert without a payload changes nothing
abbrev pub with_payload : String → Option (Dict String (Option String)) → Documents → Documents
with_payload i none docs = docs
with_payload i (some p) docs = insert i p docs

-- the store as a table under the key of the source row
abbrev pub as_table : List StoreRow → Documents
as_table [] = []
as_table (r ∷ rs) = (r.p_key, payload_of r) ∷ as_table rs

module _ (target version : String) where
  abbrev pub apply_row : OutboxRow → Documents → Documents
  apply_row x docs =
      if x.target_name == target && x.version_id == version
      then if x.action == "DELETE"
        then delete_any (x.source_id ∷ []) docs
        else with_payload x.source_id x.payload docs
      else docs

  unfoldable pub replay : List (ℕ × OutboxRow) → Documents → Documents
  replay [] docs = docs
  replay ((i, x) ∷ xs) docs = replay xs (apply_row x docs)

  pub replay-append :
      (xs ys : List (ℕ × OutboxRow)) (docs : Documents)
      → replay (xs ++ ys) docs ≡ replay ys (replay xs docs)
  unfolding replay
  replay-append [] ys docs = refl
  replay-append ((i, x) ∷ xs) ys docs = replay-append xs ys (apply_row x docs)

  own : (target == target && version == version) ≡ true
  own = ground (arith, eq_iff target target, eq_iff version version)

  pub apply_row-upsert :
      (r : StoreRow) (docs : Documents)
      → apply_row (upsert_of target version r) docs ≡ insert r.p_key (payload_of r) docs
  apply_row-upsert r docs = rw own refl

  pub apply_row-delete :
      (r : StoreRow) (docs : Documents)
      → apply_row (delete_of target version r) docs ≡ delete_any (r.p_key ∷ []) docs
  apply_row-delete r docs = rw own refl

  pub apply_row-other :
      (x : OutboxRow) (docs : Documents)
      → (x.target_name == target && x.version_id == version) ≡ false
      → apply_row x docs ≡ docs
  apply_row-other x docs h = rw h refl

  -- one entry more is one change more
  pub replay-emit :
      (x : OutboxRow) (s : Capture)
      → replay (emit (x ∷ []) s).outbox [] ≡ apply_row x (replay s.outbox [])
  unfolding emit replay
  replay-emit x s = replay-append s.outbox ((s.next_id, x) ∷ []) []

  -- the back-fill writes the whole store
  pub replay-backfill :
      (rows : List StoreRow) (s : Capture)
      → replay (emit (backfill_rows target version rows) s).outbox []
        ≡ upsert_all (replay s.outbox []) (as_table rows)
  unfolding emit upsert_all
  replay-backfill [] s = refl
  replay-backfill (r ∷ rs) s =
      replay-backfill rs (emit (upsert_of target version r ∷ []) s)
      ∙ ap (λ docs. upsert_all docs (as_table rs))
          (replay-emit (upsert_of target version r) s ∙ apply_row-upsert r (replay s.outbox []))
