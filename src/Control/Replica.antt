-- ===== src/Control/Replica.antt =====
-- _replica_state and the statements on it, in src/pg_replica/database.py. Rows are under their key.
use postgres_search_replica.Prelude.{
  ◌≡◌, refl, ap, ◌∙◌, inl, inr, String, string_eq, Option, none, some, [], ◌∷◌, concat,
  Option-cases,
}
use postgres_search_replica.Prelude.Dict.{Dict, lookup, insert, lookup-insert_self}

pub record StateRow : Type 0 where
  pub last_id : Option String
  pub last_lsn : Option String
  pub config_hash : Option String

abbrev pub sub_name : String → String
sub_name target = concat ("sub_" ∷ target ∷ [])

abbrev pub fresh_row : StateRow
fresh_row = record { last_id = some "0"; last_lsn = none; config_hash = none }

-- INSERT … ON CONFLICT DO NOTHING
unfoldable pub setup_state_table : String → Dict String StateRow → Dict String StateRow
setup_state_table target states = elim (lookup (sub_name target) states) [
  | none ↦ insert (sub_name target) fresh_row states
  | some row ↦ states
]

-- a missing row gives two NULLs
unfoldable pub get_replica_state : String → Dict String StateRow → Option String × Option String
get_replica_state target states = elim (lookup (sub_name target) states) [
  | none ↦ (none, none)
  | some row ↦ (row.last_id, row.last_lsn)
]

abbrev pub or_old : Option String → Option String → Option String
or_old none old = old
or_old (some new) old = some new

-- UPDATE … WHERE key = …: what is not given stays, and a missing row stays missing
unfoldable pub update_replica_state :
    String → Option String → Option String → Dict String StateRow → Dict String StateRow
update_replica_state target last_id lsn states = elim (lookup (sub_name target) states) [
  | none ↦ states
  | some row ↦
      insert (sub_name target)
        (record row { last_id = or_old last_id row.last_id; last_lsn = or_old lsn row.last_lsn })
        states
]

-- A row that a target's set-up has made takes the progress that is saved afterwards, and keeps the
-- position that is not given.
pub saved-after-setup :
    (target last_id : String) (lsn : Option String) (states : Dict String StateRow)
    → get_replica_state target
        (update_replica_state target (some last_id) lsn (setup_state_table target states))
      ≡ (some last_id, or_old lsn (get_replica_state target (setup_state_table target states)).1)
unfolding get_replica_state update_replica_state setup_state_table
saved-after-setup target last_id lsn states =
    elim (Option-cases (lookup (sub_name target) states)) [
      | inl n ↦
          rw (setup_state_table, n)
            (saved fresh_row (insert (sub_name target) fresh_row states)
              (lookup-insert_self (sub_name target) fresh_row states))
      | inr (row, s) ↦ rw (setup_state_table, s) (saved row states s)
    ]
  where
    saved :
        (row : StateRow) (rows : Dict String StateRow)
        → lookup (sub_name target) rows ≡ some row
        → get_replica_state target (update_replica_state target (some last_id) lsn rows)
          ≡ (some last_id, or_old lsn (get_replica_state target rows).1)
    saved row rows s =
        rw
          (
            get_replica_state,
            update_replica_state,
            s,
            lookup-insert_self (sub_name target)
                (record row { last_id = some last_id; last_lsn = or_old lsn row.last_lsn }) rows,
          )
          refl

-- Progress that is saved before the target's set-up has made its row is lost: the set-up then starts
-- the target at "0", with no position.
pub lost-before-setup :
    (target : String) (last_id lsn : Option String) (states : Dict String StateRow)
    → lookup (sub_name target) states ≡ none
    → get_replica_state target
        (setup_state_table target (update_replica_state target last_id lsn states))
      ≡ (some "0", none)
unfolding get_replica_state update_replica_state setup_state_table
lost-before-setup target last_id lsn states absent =
    ap (λ rows. get_replica_state target (setup_state_table target rows)) unchanged
    ∙ ap (get_replica_state target) made
    ∙ ap read (lookup-insert_self (sub_name target) fresh_row states)
  where
    unchanged : update_replica_state target last_id lsn states ≡ states
    unchanged = rw (update_replica_state, absent) refl

    made : setup_state_table target states ≡ insert (sub_name target) fresh_row states
    made = rw (setup_state_table, absent) refl

    read : Option StateRow → Option String × Option String
    read o = elim o [ none ↦ (none, none) | some row ↦ (row.last_id, row.last_lsn) ]
