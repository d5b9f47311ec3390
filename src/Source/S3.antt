-- ===== src/Source/S3.antt =====
-- `S3SourceAdapter.fetch_batch` of src/pg_replica/source/s3.py, connected. `list_objects` stands for
-- list_objects_v2 of the client: prefix, the key to start after, and the number of keys give a page
-- (`none` where the response has no Contents).
use postgres_search_replica.Prelude.{
  ℕ, suc, ◌≡◌, refl, String, string_eq, true, not, Option, none, some, or_else, List, [], ◌∷◌, keep,
  map, concat, All,
}
use postgres_search_replica.Sync.Order.{Order}
use postgres_search_replica.Sync.CatchUp.{Fetcher, Progress, catch_up}
use postgres_search_replica.Source.Names.{FileRow, ends_with_slash, strip_prefix}

pub record S3Object (T : Type 0) : Type 0 where
  pub key : String
  pub size : ℕ
  pub last_modified : T
  pub etag : String

abbrev pub bucket_uri : String → String
bucket_uri bucket = concat ("s3://" ∷ bucket ∷ "/" ∷ [])

-- the key of the last URI, if it lies in the bucket
unfoldable pub start_after : String → Option String → String
start_after bucket none = ""
start_after bucket (some last) = or_else (strip_prefix (bucket_uri bucket) last) ""

module _ {T : Type 0} (list_objects : String → String → ℕ → Option (List (S3Object T)))
    (strip_quotes : String → String) (bucket s3_prefix : String) where
  abbrev pub row_of : S3Object T → String × FileRow T
  row_of x = (
    concat (bucket_uri bucket ∷ x.key ∷ []),
    record { size = x.size; last_modified = x.last_modified; etag = strip_quotes x.etag },
  )

  unfoldable pub fetch_objects : Fetcher String (FileRow T)
  fetch_objects last n = map row_of (
      keep (λ x. not (ends_with_slash x.key))
        (or_else (list_objects s3_prefix (start_after bucket last) n) []))

  no_rows :
      (page : List (S3Object T))
      → All (λ x. ends_with_slash x.key ≡ true) page
      → map row_of (keep (λ x. not (ends_with_slash x.key)) page) ≡ []
  no_rows [] h = refl
  no_rows (x ∷ page) h = rw h.0 (no_rows page h.1)

  module _ ⦃o : Order String⦄ where
    -- The catch-up from an S3 source ends at the first page that holds directory markers only,
    -- whatever the bucket holds after that page: it stores nothing more and reports success.
    pub catch_up-stalls :
        (size fuel : ℕ) (last : Option String) (s : Progress String (FileRow T))
        (page : List (S3Object T))
        → list_objects s3_prefix (start_after bucket last) size ≡ some page
        → All (λ x. ends_with_slash x.key ≡ true) page
        → catch_up fetch_objects size (suc fuel) last s ≡ some s
    unfolding catch_up fetch_objects
    catch_up-stalls size fuel last s page listed markers =
        rw (catch_up, fetch_objects, listed, no_rows page markers) refl
