-- ===== src/Source/Tests.antt =====
-- The file sources on small listings.
use postgres_search_replica.Prelude.{
  ℕ, ◌==◌, ◌≡◌, if◌then◌else◌, refl, String, string_eq, true, Option, none, some, List, [], ◌∷◌,
}
use postgres_search_replica.Prelude.Effects.{err, Exn, db_error}
use postgres_search_replica.Config.{SourceConfig, postgres, local, cdc, polling}
use postgres_search_replica.Source.Registry.{
  cdc_adapter, get_adapter_class, init_adapter, init_source_adapters,
}
use postgres_search_replica.Sync.Order.{order_by}
use postgres_search_replica.Sync.CatchUp.{Progress, IsKeyset}
use postgres_search_replica.Source.Names.{FileRow}
use postgres_search_replica.Source.TextOrder.{text_order}
use postgres_search_replica.Source.Local.{FileStat, listing, fetch_files, fetch_files-IsKeyset}
use postgres_search_replica.Source.S3.{S3Object}

abbrev as_uri : String → String
as_uri path = path

abbrev int_text : ℕ → String
int_text n = "0"

abbrev files : List (String × FileStat ℕ)
files =
    ("b.md", record { st_size = 2; st_mtime = 5 })
    ∷ ("a.md", record { st_size = 3; st_mtime = 4 })
    ∷ []

fetch_files-IsKeyset_example :
    IsKeyset
      (order_by (listing as_uri int_text (some "docs/") files))
      (λ r. true)
      (fetch_files as_uri int_text (some "docs/") files)
unfolding listing order_by
fetch_files-IsKeyset_example =
    fetch_files-IsKeyset as_uri int_text (some "docs/") files (refl, (refl, tt)) (refl, (refl, tt))

-- a bucket whose first page is one directory marker
abbrev marker : S3Object ℕ
marker = record { key = "docs/"; size = 0; last_modified = 1; etag = "0" }

abbrev list_objects : String → String → ℕ → Option (List (S3Object ℕ))
list_objects s3_prefix start n = some (marker ∷ [])

abbrev begun : Progress String (FileRow ℕ)
begun = record { table = []; saved = some none; total = 0 }

-- a source that cannot be connected stops the rest
abbrev unreachable : String → SourceConfig → Option Exn
unreachable name config = if name == "archive" then some (db_error "refused") else none

registered :
    init_source_adapters unreachable
      (("default", postgres cdc "postgres://source")
        ∷ ("archive", postgres polling "postgres://archive")
        ∷ ("files", local "/data" none)
        ∷ [])
      []
    ≡ (("default", cdc_adapter) ∷ [], err (db_error "refused"))
unfolding init_source_adapters init_adapter get_adapter_class
registered = refl
