-- ===== src/Source/Local.antt =====
-- `LocalFileAdapter.fetch_batch` of src/pg_replica/source/local.py. `files` is what os.walk finds: the
-- relative posix paths with their stat; `as_uri` stands for `absolute().as_uri()`, and `int_text` for
-- `str(int(st_mtime))`. The order of texts is the order that Python compares them by. The columns and
-- the filter of the pipeline are not used.
use postgres_search_replica.Prelude.{
  ℕ, ◌≡◌, refl, ap, ◌∙◌, inl, inr, String, string_eq, ◌==◌, Bool, true, ◌&&◌, Option, none, some,
  List, [], ◌∷◌, keep, take, concat, arith, All, All-imp, Eq, eq_iff, Bool-cases, if◌then◌else◌,
}
use postgres_search_replica.Config.{truthy}
use postgres_search_replica.Sync.Order.{Order, ◌≺◌, Ascending, insert_row, order_by}
use postgres_search_replica.Sync.Table.{Unique}
use postgres_search_replica.Sync.Sorted.{order_by-Ascending}
use postgres_search_replica.Sync.Keyset.{after, All-keep}
use postgres_search_replica.Sync.CatchUp.{Fetcher, IsKeyset}
use postgres_search_replica.Source.Names.{FileRow, rstrip_slash}

pub record FileStat (T : Type 0) : Type 0 where
  pub st_size : ℕ
  pub st_mtime : T

module _ ⦃o : Order String⦄ where
  -- `last_id and uri <= last_id: continue`
  abbrev pub beyond : Option String → String → Bool
  beyond none uri = true
  beyond (some last) uri = if truthy (some last) then last ≺ uri else true

module _ {T : Type 0} ⦃o : Order String⦄ (as_uri : String → String) (int_text : T → String) where
  abbrev pub uri_of : Option String → String → String
  uri_of none path = as_uri path
  uri_of (some p) path =
      if truthy (some p) then concat (rstrip_slash p ∷ "/" ∷ path ∷ []) else as_uri path

  abbrev pub row_of : FileStat T → FileRow T
  row_of stat = record {
    size = stat.st_size;
    last_modified = stat.st_mtime;
    etag = int_text stat.st_mtime;
  }

  -- all files, as rows under their URIs, in the order of the walk
  unfoldable pub listing : Option String → List (String × FileStat T) → List (String × FileRow T)
  listing uri_prefix [] = []
  listing uri_prefix ((path, stat) ∷ files) =
      (uri_of uri_prefix path, row_of stat) ∷ listing uri_prefix files

  unfoldable pub fetch_files :
      Option String → List (String × FileStat T) → Fetcher String (FileRow T)
  fetch_files uri_prefix files last n =
      take n (order_by (keep (λ r. beyond last r.0) (listing uri_prefix files)))

module _ {K V : Type 0} ⦃o : Order K⦄ where
  -- a row below all others goes in front
  insert_row-first :
      (r : K × V) (rows : List (K × V))
      → All (λ s. (r.0 ≺ s.0) ≡ true) rows
      → insert_row r rows ≡ r ∷ rows
  insert_row-first r [] h = refl
  insert_row-first r (s ∷ rs) h = rw h.0 refl

  All-below :
      (a b : K) (rows : List (K × V))
      → (a ≺ b) ≡ true
      → All (λ s. (b ≺ s.0) ≡ true) rows
      → All (λ s. (a ≺ s.0) ≡ true) rows
  All-below a b [] h k = tt
  All-below a b (s ∷ rs) h k = (o.trans a b s.0 h k.0, All-below a b rs h k.1)

  keep-insert_row :
      (p : K × V → Bool) (r : K × V) (rows : List (K × V))
      → Ascending rows
      → keep p (insert_row r rows) ≡ (if p r then insert_row r (keep p rows) else keep p rows)
  keep-insert_row p r [] h = refl
  keep-insert_row p r (s ∷ rs) h = elim (Bool-cases (r.0 ≺ s.0)) [
    | inr f ↦ rw f (ground (arith, keep-insert_row p r rs h.1, f))
    | inl t ↦ rw t (
        ground
          (arith, t, insert_row-first r (keep p rs) (All-keep _ p rs (All-below r.0 s.0 rs t h.0))))
  ]

  keep-same :
      (p q : K × V → Bool) (rows : List (K × V))
      → All (λ r. p r ≡ q r) rows
      → keep p rows ≡ keep q rows
  keep-same p q [] h = refl
  keep-same p q (r ∷ rs) h = ground (arith, keep-same p q rs h.1, h.0)

module _ {K V : Type 0} ⦃e : Eq K⦄ ⦃o : Order K⦄ where
  -- to filter and sort is to sort and filter
  order_by-keep :
      (p : K × V → Bool) (rows : List (K × V))
      → Unique rows
      → order_by (keep p rows) ≡ keep p (order_by rows)
  unfolding order_by
  order_by-keep p [] u = refl
  order_by-keep p (r ∷ rs) u =
      ground (
        arith,
        keep-insert_row p r (order_by rs) (order_by-Ascending rs u.1),
        order_by-keep p rs u.1,
      )

module _ {T : Type 0} ⦃o : Order String⦄ (as_uri : String → String) (int_text : T → String) where
  -- A local source pages by URI, like a table that is read by its key, where the URIs of the files differ
  -- and none is empty: the pages are those of the sorted listing, with no filter.
  pub fetch_files-IsKeyset :
      (uri_prefix : Option String) (files : List (String × FileStat T))
      → Unique (listing as_uri int_text uri_prefix files)
      → All (λ r. ("" ≺ r.0) ≡ true) (order_by (listing as_uri int_text uri_prefix files))
      → IsKeyset
          (order_by (listing as_uri int_text uri_prefix files))
          (λ r. true)
          (fetch_files as_uri int_text uri_prefix files)
  unfolding fetch_files
  fetch_files-IsKeyset uri_prefix files u filled = record {
    page = λ last n. ap (take n) (
        order_by-keep (λ r. beyond last r.0) rows u
        ∙ keep-same (λ r. beyond last r.0) (λ r. true && after last r) (order_by rows)
            (All-imp (λ r h. bound last r h) (order_by rows) filled));
  }
    where
      rows : List (String × FileRow T)
      rows = listing as_uri int_text uri_prefix files

      bound :
          (last : Option String) (r : String × FileRow T)
          → ("" ≺ r.0) ≡ true
          → beyond last r.0 ≡ (true && after last r)
      bound none r h = refl
      bound (some last) r h = elim (Bool-cases (last == "")) [
        | inl t ↦ ground (arith, t, h, eq_iff last "")
        | inr f ↦ ground (arith, f)
      ]
