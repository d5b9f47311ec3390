-- ===== src/Capture/Tests.antt =====
-- Runs of the outbox trigger, and the theorems about it at them.
use postgres_search_replica.Prelude.{◌≡◌, refl, true, none, some, List, [], ◌∷◌, string_eq}
use postgres_search_replica.Prelude.Dict.{lookup}
use postgres_search_replica.Mirror.Outbox.{OutboxRow}
use postgres_search_replica.Capture.{
  StoreRow, Capture, create, insert_row, update_row, delete_row, try_attach, try_fill, emit, fire,
  attach_trigger, rows_of,
}
use postgres_search_replica.Capture.Replay.{replay, as_table}
use postgres_search_replica.Capture.Faithful.{History, start, next, history-replays}

abbrev foreign_row : OutboxRow
foreign_row = record {
  target_name = "users";
  version_id = "v0";
  source_id = "1";
  action = "UPSERT";
  payload = none;
}

abbrev early : StoreRow
early = record { p_key = "1"; chunk = some "a"; embedding = some "[1]" }

abbrev late : StoreRow
late = record { p_key = "2"; chunk = some "b"; embedding = some "[2]" }

abbrev renewed : StoreRow
renewed = record { p_key = "2"; chunk = some "c"; embedding = some "[3]" }

-- a store whose trigger is attached
abbrev chunked : List StoreRow → Capture
chunked rows = record { store = some rows; attached = true; outbox = []; next_id = 1 }

-- Made and written to before the set-up, whose first back-fill fails; a row comes before the next.
history :
    (s : Capture) × History "docs" "v1" ((7, foreign_row) ∷ []) 8 true s
    × (rows_of s.store ≡ renewed ∷ [])
unfolding emit fire attach_trigger
history = (
  _,
  next
      (next
        (next
          (next
            (next
              (next (next (next start (create refl) tt) (insert_row [] early refl) (refl, tt))
                (try_attach none) (refl, tt))
              (try_fill (some "canceled") refl) (refl, tt))
            (insert_row (early ∷ []) late refl) (refl, (refl, tt)))
          (try_fill none refl) (refl, (refl, tt)))
        (update_row (early ∷ []) [] late renewed refl refl) (refl, (refl, tt)))
      (delete_row [] (renewed ∷ []) early refl) (refl, tt),
  refl,
)

history-replays_example :
    lookup "2" (replay "docs" "v1" history.0.outbox [])
    ≡ lookup "2" (as_table (rows_of history.0.store))
history-replays_example = history-replays "docs" "v1" history.1 (refl, tt) "2"
