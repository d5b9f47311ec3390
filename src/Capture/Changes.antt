-- ===== src/Capture/Changes.antt =====
-- What one entry of the outbox changes in the documents, and one row in the store, for
-- `setup_outbox_trigger` of src/pg_replica/database.py.
use postgres_search_replica.Prelude.{
  String, string_eq, ◌==◌, ◌≡◌, ◌⊎◌, refl, ◌∙◌, ap, true, false, none, some, List, [], ◌∷◌, ◌++◌,
  arith, eq_iff, if◌then◌else◌, Bool-cases, inl, inr,
}
use postgres_search_replica.Prelude.Dict.{lookup, lookup-insert}
use postgres_search_replica.Sync.Table.{Unique, lookup-delete_any}
use postgres_search_replica.Capture.{StoreRow, payload_of, upsert_of, delete_of}
use postgres_search_replica.Capture.Replay.{
  Documents, as_table, apply_row, apply_row-upsert, apply_row-delete,
}

-- An insertion in the middle adds its key, where that is new.
lookup-middle :
    (front back : List StoreRow) (r : StoreRow) (i : String)
    → lookup r.p_key (as_table (front ++ back)) ≡ none
    → lookup i (as_table (front ++ r ∷ back))
      ≡ (if r.p_key == i then some (payload_of r) else lookup i (as_table (front ++ back)))
lookup-middle [] back r i h = refl
lookup-middle (f ∷ front) back r i h = ground (
  arith,
  lookup-middle front back r i,
  eq_iff f.p_key r.p_key,
  eq_iff f.p_key i,
  eq_iff r.p_key i,
)

present :
    (front back : List StoreRow) (r : StoreRow) (k : String)
    → lookup k (as_table (front ++ r ∷ back)) ≡ none
    → (r.p_key == k) ≡ false
present [] back r k h = ground arith
present (f ∷ front) back r k h = ground (arith, present front back r k)

pub absent-rest :
    (front back : List StoreRow) (r : StoreRow)
    → Unique (as_table (front ++ r ∷ back))
    → lookup r.p_key (as_table (front ++ back)) ≡ none
absent-rest [] back r u = u.0
absent-rest (f ∷ front) back r u = ground (
  arith,
  absent-rest front back r u.1,
  present front back r f.p_key u.0,
  eq_iff f.p_key r.p_key,
  eq_iff r.p_key f.p_key,
)

module _ (target version : String) where
  -- the entry of an upsert, against a table that agrees with the rest of the store
  pub upsert-change :
      (front back : List StoreRow) (r : StoreRow) (docs : Documents) (i : String)
      → lookup r.p_key (as_table (front ++ back)) ≡ none
      → (r.p_key == i) ≡ true ⊎ (lookup i docs ≡ lookup i (as_table (front ++ back)))
      → lookup i (apply_row target version (upsert_of target version r) docs)
        ≡ lookup i (as_table (front ++ r ∷ back))
  upsert-change front back r docs i new same =
      ap (lookup i) (apply_row-upsert target version r docs)
      ∙ ground (
        arith,
        lookup-insert r.p_key i (payload_of r) docs,
        lookup-middle front back r i new,
        same,
      )

  pub delete-change :
      (front back : List StoreRow) (r : StoreRow) (docs : Documents) (i : String)
      → lookup r.p_key (as_table (front ++ back)) ≡ none
      → lookup i docs ≡ lookup i (as_table (front ++ r ∷ back))
      → lookup i (apply_row target version (delete_of target version r) docs)
        ≡ lookup i (as_table (front ++ back))
  delete-change front back r docs i gone same =
      ap (lookup i) (apply_row-delete target version r docs)
      ∙ ground (
        arith,
        lookup-delete_any (r.p_key ∷ []) docs i,
        lookup-middle front back r i gone,
        same,
        eq_iff r.p_key i,
      )

  pub changed :
      (front back : List StoreRow) (old new : StoreRow) (i : String) (docs : Documents)
      → old.p_key ≡ new.p_key
      → lookup old.p_key (as_table (front ++ back)) ≡ none
      → lookup i docs ≡ lookup i (as_table (front ++ old ∷ back))
      → (new.p_key == i) ≡ true ⊎ (lookup i docs ≡ lookup i (as_table (front ++ back)))
  changed front back old new i docs same gone agree = elim (Bool-cases (new.p_key == i)) [
    | inl t ↦ inl t
    | inr f ↦ inr (ground (arith, lookup-middle front back old i gone, agree, same, f))
  ]

  -- the entry of a row whose key is another's changes nothing for that
  upsert-elsewhere :
      (r : StoreRow) (docs : Documents) (i : String)
      → (r.p_key == i) ≡ false
      → lookup i (apply_row target version (upsert_of target version r) docs) ≡ lookup i docs
  upsert-elsewhere r docs i f =
      ap (lookup i) (apply_row-upsert target version r docs)
      ∙ lookup-insert r.p_key i (payload_of r) docs
      ∙ rw f refl

  pub upsert-blank :
      (front back : List StoreRow) (r : StoreRow) (docs : Documents) (i : String)
      → lookup r.p_key (as_table (front ++ back)) ≡ none
      → lookup i docs ≡ none
      → (lookup i (apply_row target version (upsert_of target version r) docs)
          ≡ lookup i (as_table (front ++ r ∷ back)))
        ⊎ (lookup i (apply_row target version (upsert_of target version r) docs) ≡ none)
  upsert-blank front back r docs i new gone = elim (Bool-cases (r.p_key == i)) [
    | inl t ↦ inl (upsert-change front back r docs i new (inl t))
    | inr f ↦ inr (upsert-elsewhere r docs i f ∙ gone)
  ]

  pub delete-blank :
      (r : StoreRow) (docs : Documents) (i : String)
      → lookup i docs ≡ none
      → lookup i (apply_row target version (delete_of target version r) docs) ≡ none
  delete-blank r docs i gone =
      ap (lookup i) (apply_row-delete target version r docs)
      ∙ ground (arith, lookup-delete_any (r.p_key ∷ []) docs i, gone)
