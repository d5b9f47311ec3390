-- ===== src/Teardown/Tests.antt =====
-- Teardowns at a concrete site, and the theorems about them there.
use postgres_search_replica.Prelude.{
  String, string_eq, nat_eq, ◌≡◌, ap, refl, inl, inr, true, false, some, none, [], ◌∷◌, Elem, Bool,
}
use postgres_search_replica.Prelude.Effects.{ok}
use postgres_search_replica.Config.Json.{Json}
use postgres_search_replica.Config.Samples.{book_settings}
use postgres_search_replica.Reconciler.{sink_vectorizer_setup, Params, Vectorizer}
use postgres_search_replica.Reconciler.Planner.Names.{action}
use postgres_search_replica.Reconciler.Planner.Blocks.{vectorizer_actions}
use postgres_search_replica.Inspector.{SinkCatalog, get_sink_state}
use postgres_search_replica.Waiting.{wait_until, wait_from}
use postgres_search_replica.Teardown.{
  Site, Servers, like, drop_vectorizer, drop_listed, teardown_sink, teardown_source,
  drop_subscription_completely,
}
use postgres_search_replica.Teardown.Resubscribe.{teardown-unsubscribed, teardown-resubscribed}

abbrev digest : Json → String
digest j = "0123456789abcdef"

abbrev store : Vectorizer
store = record {
  id = 1;
  target_table = some "books_store_v01234567";
  view_name = some "books_embedding_v01234567";
  name = "books_store_v01234567";
}

abbrev catalog : SinkCatalog
catalog = record {
  extensions = "ai" ∷ [];
  base_tables = ("books", []) ∷ ("books_store_v01234567", []) ∷ [];
  views = "books_search" ∷ "books_embedding_v01234567" ∷ [];
  triggers = ("trg_outbox_books_01234567", "books_store_v01234567") ∷ [];
  view_usage = [];
  states = [];
  outbox = [];
  registry = [];
  vectorizers = ("public.books", store) ∷ [];
  statuses = none;
}

abbrev site : String → Site
site sub = record { sink = catalog; subscriptions = sub ∷ []; slots = sub ∷ [] }

abbrev willing : Servers
willing = record {
  sink_up = true;
  attempt = λ n. ok true;
  elapsed = λ n. n;
  vectorizers_listed = true;
  refuses = λ i. false;
  source_up = true;
  slot_free = true;
}

-- all that belongs to the target is gone
dropped : drop_subscription_completely willing "books" (site "sub_books") ≡ record {
  sink = record catalog {
    base_tables = ("books", []) ∷ [];
    views = [];
    triggers = [];
    vectorizers = [];
  };
  subscriptions = [];
  slots = [];
}
unfolding drop_subscription_completely teardown_source teardown_sink drop_listed drop_vectorizer
    like wait_until wait_from
dropped = refl

only :
    (r : String × Vectorizer)
    → Elem r (("public.books", store) ∷ [])
    → r.1.id ≡ 1
    → r ≡ ("public.books", store)
only r (inl e) h = e
only r (inr k) h = elim k [ ]

-- a pipeline that is not named like its table
teardown-unsubscribed_example :
    Elem
      ("public.books", store)
      (drop_subscription_completely willing "library" (site "sub_library")).sink.vectorizers
    × (vectorizer_actions
          (get_sink_state digest
            (drop_subscription_completely willing "library" (site "sub_library")).sink
            book_settings)
          "library"
          "books"
          "01234567"
        ≡ [])
unfolding like
teardown-unsubscribed_example =
    teardown-unsubscribed willing "library" digest book_settings "books" "01234567"
      (site "sub_library") refl ("public.books", store) (inl refl) refl only refl

alike :
    (r : String × Vectorizer)
    → Elem r (("public.books", store) ∷ [])
    → like "books_store%" r.1.name ≡ true
unfolding like
alike r (inl e) = ap {A = String × Vectorizer} {B = Bool} (λ x. like "books_store%" x.1.name) e
alike r (inr k) = elim k [ ]

teardown-resubscribed_example :
    vectorizer_actions
      (get_sink_state digest
        (drop_subscription_completely willing "books" (site "sub_books")).sink
        book_settings)
      "books"
      "books"
      "01234567"
    ≡ action sink_vectorizer_setup (Params.vectorizer "01234567" none none) (some "books") ∷ []
teardown-resubscribed_example =
    teardown-resubscribed willing "books" digest book_settings "books" "01234567" (site "sub_books")
      refl refl refl (λ i. refl) (λ r k h. alike r k)
