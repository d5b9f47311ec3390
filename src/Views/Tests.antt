-- ===== src/Views/Tests.antt =====
-- Swaps of a search view at concrete catalogs, and the theorems about them there.
use postgres_search_replica.Prelude.{
  String, string_eq, nat_eq, pair_eq, ◌≡◌, ◌≢◌, refl, true, Option, none, some, [], ◌∷◌,
}
use postgres_search_replica.Prelude.Effects.{err, db_error}
use postgres_search_replica.Config.Json.{Json}
use postgres_search_replica.Config.Samples.{books, small_chunks, book_settings}
use postgres_search_replica.Config.{with_pipeline}
use postgres_search_replica.Control.Replica.{fresh_row}
use postgres_search_replica.Reconciler.{Vectorizer}
use postgres_search_replica.Inspector.{SinkCatalog, get_sink_state, all_targets}
use postgres_search_replica.Views.{
  Statement, create_view, update_hash, drop_view, atomic_view_swap, swap_transaction,
  drop_search_view, create_search_view, set_hash, record_hash, embedding_view, view_of,
  view_columns, used,
}
use postgres_search_replica.Views.Promoted.{IsAtomic, atomic_view_swap-Swapped}
use postgres_search_replica.Reconciler.Planner.Names.{live_target, store_name}
use postgres_search_replica.Views.Replanned.{swap-unfound}

abbrev digest : Json → String
digest j = "0123456789abcdef"

abbrev store : Vectorizer
store = record {
  id = 1;
  target_table = some "books_store_v01234567";
  view_name = some "books_embedding_v01234567";
  name = "books_store_v01234567";
}

abbrev catalog : SinkCatalog
catalog = record {
  extensions = "ai" ∷ "vector" ∷ [];
  base_tables =
      ("books", "id" ∷ "title" ∷ [])
      ∷ ("_replica_state", "last_id" ∷ "last_lsn" ∷ "config_hash" ∷ [])
      ∷ [];
  views = "books_search" ∷ "books_embedding_v01234567" ∷ [];
  triggers = [];
  view_usage = ("books_search", "books" ∷ "books_embedding_v0" ∷ []) ∷ [];
  states = ("sub_books", fresh_row) ∷ [];
  outbox = [];
  registry = [];
  vectorizers = ("public.books", store) ∷ [];
  statuses = some (("books_store_v01234567", 0) ∷ []);
}

abbrev willing : Statement → Option String
willing s = none

-- refuses the last statement
abbrev refuses_hash : Statement → Option String
refuses_hash drop_view = none
refuses_hash create_view = none
refuses_hash update_hash = some "deadlock detected"

refused :
    atomic_view_swap refuses_hash true books "books" "h"
      (some "books")
      (some "books_store_v01234567")
      catalog
    ≡ (catalog, err (db_error "deadlock detected"))
unfolding atomic_view_swap swap_transaction drop_search_view create_search_view record_hash
    embedding_view view_of view_columns
refused = refl

atomic_view_swap-Swapped_example :
    IsAtomic "books" "h"
      (used true "books" (embedding_view "books" (some "books_store_v01234567") catalog))
      catalog
      (atomic_view_swap willing true books "books" "h"
        (some "books")
        (some "books_store_v01234567")
        catalog)
atomic_view_swap-Swapped_example =
    atomic_view_swap-Swapped willing true books "books" "h" (some "books")
      (some "books_store_v01234567") catalog

swap-unfound_example :
    (t : String) × (live_target
        (get_sink_state digest
          (atomic_view_swap willing true books "books" "0123456789abcdef"
            (some "books")
            (some "books_store_v01234567")
            catalog).0
          book_settings)
        "books"
      ≡ some t)
    × ((version : String) → t ≢ store_name "books" version)
unfolding atomic_view_swap swap_transaction drop_search_view create_search_view record_hash set_hash
    embedding_view view_of view_columns all_targets
swap-unfound_example =
    swap-unfound willing true digest books "books" "0123456789abcdef" (some "books")
      (some "books_store_v01234567") catalog book_settings []
      (("books_branch_small", with_pipeline books small_chunks.pipeline) ∷ []) refl refl
      (λ h. cc, tt) ((refl, refl), ((refl, refl), tt))
