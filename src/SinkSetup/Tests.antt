-- ===== src/SinkSetup/Tests.antt =====
-- Set-ups of a sink for the books, and the theorems about them there.
use postgres_search_replica.Prelude.{
  ℕ, zero, suc, ◌+◌, ◌≤◌, ◌<◌, String, string_eq, ◌==◌, ◌≡◌, ◌⊎◌, refl, sym, ap, ◌∙◌, Bool, true,
  false, Option, none, some, [], ◌∷◌, ◌++◌, any, has, arith, if◌then◌else◌,
}
use postgres_search_replica.Prelude.Dict.{Dict, member}
use postgres_search_replica.Prelude.Effects.{ok, err, Exn, timeout_error, db_error}
use postgres_search_replica.Waiting.{wait_until, wait_from}
use postgres_search_replica.Config.{Settings, SearchPipeline, postgres, cdc, strategy_of}
use postgres_search_replica.Config.Json.{Json}
use postgres_search_replica.Config.Samples.{books, book_settings}
use postgres_search_replica.Control.Replica.{setup_state_table, get_replica_state}
use postgres_search_replica.Reconciler.{Vectorizer, Params, sink_vectorizer_setup}
use postgres_search_replica.Reconciler.Planner.Names.{action}
use postgres_search_replica.Reconciler.Planner.Blocks.{vectorizer_actions}
use postgres_search_replica.Inspector.{SinkCatalog, get_sink_state}
use postgres_search_replica.SinkSetup.Databases.{Databases, returned, raise}
use postgres_search_replica.SinkSetup.Subscribe.{
  no_adapter, slot_source, strategy_at, options_of, copies_data, sub_conn_url, subscribe_at,
  try_create_subscription, wait_subscription, subscribe_new, subscribe,
}
use postgres_search_replica.SinkSetup.Options.{IsSilent}
use postgres_search_replica.SinkSetup.Subscribed.{Starts, subscribe-Starts}
use postgres_search_replica.SinkSetup.Elsewhere.{branch-unsubscribed}
use postgres_search_replica.SinkSetup.Vectorizer.{
  Call, Made, made, failed, create_raw_table, create_extension, install_ai, vectorizer_name,
  destination_of, chunking_function, try_create_vectorizer, vectorizer_call, wait_vectorizer,
}
use postgres_search_replica.SinkSetup.Setup.{
  Servers, setup_vectorizer, setup_tables, prepare, setup_sink,
}
use postgres_search_replica.SinkSetup.Made.{IsPgai}
use postgres_search_replica.SinkSetup.Replans.{manual-replanned}
use postgres_search_replica.Teardown.{drop_listed, drop_vectorizer}
use postgres_search_replica.SinkSetup.Cleanup.{
  cascade, drop_view, drop_table, is_live, drop_live_view, drop_zombies, cleaned,
  cleanup_vectorizer_infrastructure, rebuild,
}
use postgres_search_replica.SinkSetup.Rebuilt.{rebuild-settles}
use postgres_search_replica.SinkSetup.Cleared.{IsCleared, cleanup-Clears}
use postgres_search_replica.SinkSetup.Waits.{failing-waits}

abbrev catalog : SinkCatalog
catalog = record {
  extensions = [];
  base_tables = [];
  views = [];
  triggers = [];
  view_usage = [];
  states = [];
  outbox = [];
  registry = [];
  vectorizers = [];
  statuses = none;
}

abbrev blank : Databases
blank = record { sink = catalog; subscriptions = []; sources = ("default", []) ∷ [] }

abbrev streaming : Dict String String
streaming = ("streaming", "'on'") ∷ []

-- a server that refuses the first attempt
abbrev refuses : ℕ → Option String
refuses zero = some "could not connect to the publisher"
refuses (suc k) = none

abbrev clock : ℕ → ℕ
clock j = j + j

unwrap : {a b : String} → some a ≡ some b → a ≡ b
unwrap h = cc

honest : (k : ℕ) (m : String) → refuses k ≡ some m → has "already exists" m ≡ false
honest zero m h = ap (has "already exists") (sym (unwrap h))
honest (suc k) m h = cc

streaming-IsSilent : IsSilent streaming
streaming-IsSilent = record { connect = refl; create_slot = refl; slot_name = refl }

subscribe-Starts_example :
    ((x : Exn) × (subscribe book_settings streaming refuses clock "books" books blank
        ≡ raise x blank))
    ⊎ Starts "books" books blank
        (subscribe book_settings streaming refuses clock "books" books blank)
unfolding slot_source
subscribe-Starts_example =
    subscribe-Starts book_settings streaming refuses clock "books" books blank "postgres://source"
      refl refl refl streaming-IsSilent refl honest (λ j. omega arith)

-- a pipeline on another source, which has a slot for a branch of it
abbrev papers : SearchPipeline
papers = record books { ingest = record (books.ingest) { source = "archive" } }

abbrev archive_settings : Settings
archive_settings = record book_settings {
  sources = ("archive", postgres cdc "postgres://archive") ∷ book_settings.sources;
}

abbrev with_slot : Databases
with_slot = record blank {
  sources = ("default", []) ∷ ("archive", "sub_papers_branch_small" ∷ []) ∷ [];
}

abbrev served : ℕ → Option String
served k = none

branch-unsubscribed_example :
    (subscribe archive_settings streaming served clock "papers_branch_small" papers with_slot
      ≡ returned with_slot)
    ⊎ (subscribe archive_settings streaming served clock "papers_branch_small" papers with_slot
        ≡ raise (no_adapter "default") with_slot)
branch-unsubscribed_example =
    branch-unsubscribed archive_settings streaming served clock "papers_branch_small" papers
      with_slot "postgres://archive" refl refl refl streaming-IsSilent refl refl refl

abbrev store_of : Option (String × String) → Option String
store_of none = none
store_of (some (store, view)) = some store

abbrev new_row : Call → String × Vectorizer
new_row call = (
  call.table,
  record { id = 1; target_table = store_of call.destination; view_name = none; name = call.name },
)

-- pgai with the second attempt on
abbrev grown : Call → SinkCatalog → SinkCatalog
grown call c =
    if any (λ r. r.1.name == call.name) c.vectorizers
    then c
    else record c { vectorizers = c.vectorizers ++ new_row call ∷ [] }

abbrev create : ℕ → Call → SinkCatalog → Made
create zero call c = failed "relation \"books\" does not exist"
create (suc k) call c = made (grown call c)

made_inj : {a b : SinkCatalog} → made a ≡ made b → a ≡ b
made_inj h = cc

made_grown :
    (k : ℕ) (call : Call) (c new : SinkCatalog) → create k call c ≡ made new → new ≡ grown call c
made_grown zero call c new h = cc
made_grown (suc k) call c new h = sym (made_inj h)

grown-there :
    (call : Call) (c : SinkCatalog)
    → any (λ r. r.1.name == call.name) c.vectorizers ≡ true
    → grown call c ≡ c
grown-there call c there = rw there refl

grown-fresh :
    (call : Call) (c : SinkCatalog)
    → any (λ r. r.1.name == call.name) c.vectorizers ≡ false
    → (grown call c).vectorizers ≡ c.vectorizers ++ new_row call ∷ []
grown-fresh call c fresh = rw fresh refl

grown-extensions : (call : Call) (c : SinkCatalog) → (grown call c).extensions ≡ c.extensions
grown-extensions call c = ground arith

create-IsPgai : IsPgai create
create-IsPgai = record {
  kept = λ k call c new h there. made_grown k call c new h ∙ grown-there call c there;
  added = λ k call c new store view h fresh plain d. (
    new_row call,
    ap (λ (x : SinkCatalog). x.vectorizers) (made_grown k call c new h) ∙ grown-fresh call c fresh,
    plain,
    ap store_of d,
  );
  extensions_kept = λ k call c new h.
      ap (λ (x : SinkCatalog). x.extensions) (made_grown k call c new h) ∙ grown-extensions call c;
}

abbrev digest : Json → String
digest j = "0123456789abcdef"

abbrev servers : Bool → Servers
servers standard = record {
  show = λ n. "3";
  source_types = λ table. ok [];
  installer = record { standard = standard; sql_found = true; manual = none };
  create_vectorizer = create;
  vectorizer_clock = clock;
  refuses = served;
  subscription_clock = clock;
}

abbrev after : Bool → Databases
after standard =
    (setup_sink (servers standard) book_settings streaming books "books"
      (some "books_store_v01234567") blank).0

set_up :
    (standard : Bool)
    → setup_sink
        (servers standard)
        book_settings
        streaming
        books
        "books"
        (some "books_store_v01234567")
        blank
      ≡ returned (after standard)
unfolding setup_sink prepare setup_tables create_raw_table create_extension install_ai
    setup_vectorizer wait_vectorizer vectorizer_name vectorizer_call destination_of
    chunking_function try_create_vectorizer wait_until wait_from subscribe strategy_at strategy_of
    subscribe_new slot_source options_of copies_data get_replica_state setup_state_table
    wait_subscription try_create_subscription subscribe_at sub_conn_url
set_up true = refl
set_up false = refl

-- a store of the version that was left half made, with a live view on it
abbrev littered : SinkCatalog
littered = record catalog {
  base_tables = ("books", []) ∷ ("books_store_v01234567", []) ∷ [];
  views = "books_search" ∷ "books_embedding_v01234567" ∷ "other_search" ∷ [];
  triggers = ("trg", "books") ∷ [];
  view_usage =
      ("books_search", "books" ∷ "books_embedding_v01234567" ∷ [])
      ∷ ("books_embedding_v01234567", "books_store_v01234567" ∷ [])
      ∷ [];
  vectorizers =
      (
        "public.elsewhere",
        record { id = 4; target_table = none; view_name = none; name = "books_store_v01234567" },
      )
      ∷ [];
}

abbrev source_of : String → String
source_of trigger = "insert into books_store_v01234567"

abbrev littered_site : Databases
littered_site = record blank { sink = littered }

abbrev none_stays : String → Bool
none_stays name = false

abbrev rebuilt : Databases
rebuilt =
    (rebuild source_of none_stays none_stays none (servers true) book_settings streaming books
      "books" "books_store_v01234567" littered_site).0

rebuilds :
    rebuild source_of none_stays none_stays none
      (servers true)
      book_settings
      streaming
      books
      "books"
      "books_store_v01234567"
      littered_site
    ≡ returned rebuilt
unfolding rebuild cleanup_vectorizer_infrastructure cleaned drop_zombies drop_live_view is_live
    drop_view drop_table cascade drop_listed drop_vectorizer setup_sink prepare setup_tables
    create_raw_table create_extension install_ai setup_vectorizer wait_vectorizer vectorizer_name
    vectorizer_call destination_of chunking_function try_create_vectorizer wait_until wait_from
    subscribe strategy_at strategy_of subscribe_new slot_source options_of copies_data
    get_replica_state setup_state_table wait_subscription try_create_subscription subscribe_at
    sub_conn_url
rebuilds = refl

rebuild-settles_example :
    vectorizer_actions (get_sink_state digest rebuilt.sink book_settings) "books" "books" "01234567"
    ≡ []
rebuild-settles_example =
    rebuild-settles source_of none_stays none_stays none (servers true) book_settings streaming
      books "books" "01234567" littered_site rebuilt digest create-IsPgai refl refl rebuilds

cleanup-Clears_example :
    (((cleanup_vectorizer_infrastructure source_of none_stays none_stays none books "books"
          "books_store_v01234567" littered).1
        ≡ ok tt)
      × IsCleared source_of none_stays none_stays books "books" "books_store_v01234567" littered
          (cleanup_vectorizer_infrastructure source_of none_stays none_stays none books "books"
            "books_store_v01234567" littered).0)
    ⊎ ((m : String) × (cleanup_vectorizer_infrastructure source_of none_stays none_stays none books
            "books" "books_store_v01234567" littered
          ≡ (littered, err (db_error m))))
cleanup-Clears_example =
    cleanup-Clears source_of none_stays none_stays books "books" "books_store_v01234567" littered
      none

-- the view goes with the store that it reads, and the other view stays
cleared_views :
    (cleanup_vectorizer_infrastructure source_of none_stays none_stays none books "books"
      "books_store_v01234567" littered).0.views
    ≡ "other_search" ∷ []
unfolding cleanup_vectorizer_infrastructure cleaned drop_zombies drop_live_view is_live drop_view
    drop_table cascade drop_listed drop_vectorizer
cleared_views = refl

manual-replanned_example :
    (member "ai" (after false).sink.extensions ≡ false)
    × ((get_sink_state digest (after false).sink book_settings).vectorizers ≡ [])
    × (vectorizer_actions
          (get_sink_state digest (after false).sink book_settings)
          "books"
          "books"
          "01234567"
        ≡ action sink_vectorizer_setup (Params.vectorizer "01234567" none none) (some "books") ∷ [])
manual-replanned_example =
    manual-replanned (servers false) book_settings streaming books "books" "01234567" blank
      (after false) digest (some "books_store_v01234567") create-IsPgai refl refl (set_up false)

-- a pipeline that names a column that the table does not have
abbrev misnamed : ℕ → Call → SinkCatalog → Made
misnamed k call c = failed "column \"titel\" does not exist"

failing-waits_example :
    (k : ℕ) × (20 ≤ clock k)
    × ((j : ℕ) → j < k → clock j < 20)
    × (wait_vectorizer misnamed clock
          (vectorizer_call (λ n. "3") book_settings books "books_store_v01234567" catalog)
          blank
        ≡ raise timeout_error blank)
failing-waits_example =
    failing-waits misnamed clock
      (vectorizer_call (λ n. "3") book_settings books "books_store_v01234567" catalog) blank
      (λ k. "column \"titel\" does not exist") (λ j. refl) (λ j. omega arith)
