-- ===== src/Teardown.antt =====
-- `drop_subscription_completely` of src/pg_replica/database.py. Every exception of the sink and of the source
-- is caught; what was done before stays done, since the connections commit each statement.
mod Like
pub mod Dropping
pub mod Resubscribe
mod Tests
unfoldable pub use Like.{like}
use postgres_search_replica.Prelude.{
  ℕ, String, string_eq, nat_eq, ◌==◌, Bool, true, false, not, Option, none, some, List, [], ◌∷◌,
  keep, concat, if◌then◌else◌,
}
use postgres_search_replica.Prelude.Effects.{Result, ok, err}
use postgres_search_replica.Waiting.{wait_until}
use postgres_search_replica.Control.Replica.{sub_name}
use postgres_search_replica.Reconciler.{Vectorizer}
use postgres_search_replica.Reconciler.Planner.Names.{view_name, is_target}
use postgres_search_replica.Inspector.{SinkCatalog}

-- the sink, its subscriptions, and the replication slots of the source
pub record Site : Type 0 where
  pub sink : SinkCatalog
  pub subscriptions : List String
  pub slots : List String

-- What the servers do: whether a connection is made, what each attempt to drop the subscription
-- gives and the time that has then passed, whether ai.vectorizer can be read, which vectorizers
-- cannot be dropped, and whether the slot can be.
pub record Servers : Type 0 where
  pub sink_up : Bool
  pub attempt : ℕ → Result Bool
  pub elapsed : ℕ → ℕ
  pub vectorizers_listed : Bool
  pub refuses : ℕ → Bool
  pub source_up : Bool
  pub slot_free : Bool

abbrev pub without : String → List String → List String
without name = keep (λ s. not (s == name))

-- f"{target_name}_store%"
abbrev pub store_pattern : String → String
store_pattern target = concat (target ∷ "_store%" ∷ [])

-- `ai.drop_vectorizer(vid, drop_all => true)`: its row, its store with the triggers on it, and its
-- view
unfoldable pub drop_vectorizer : Vectorizer → SinkCatalog → SinkCatalog
drop_vectorizer v catalog = record catalog {
  vectorizers = keep (λ r. not (r.1.id == v.id)) catalog.vectorizers;
  base_tables = keep (λ t. not (is_target t.0 v.target_table)) catalog.base_tables;
  triggers = keep (λ t. not (is_target t.1 v.target_table)) catalog.triggers;
  views = keep (λ name. not (is_target name v.view_name)) catalog.views;
}

-- the vectorizers whose name is like the pattern
abbrev pub listed : String → List (String × Vectorizer) → List (String × Vectorizer)
listed pattern = keep (λ r. like pattern r.1.name)

-- the loop over them, up to the first that is refused
unfoldable pub drop_listed : (ℕ → Bool) → List (String × Vectorizer) → SinkCatalog → SinkCatalog
drop_listed refuses [] catalog = catalog
drop_listed refuses (row ∷ rows) catalog =
    let rest = drop_listed refuses rows (drop_vectorizer row.1 catalog) in
    if refuses row.1.id then catalog else rest

abbrev pub was_dropped : Option (Result ℕ) → Bool
was_dropped none = false
was_dropped (some (ok k)) = true
was_dropped (some (err x)) = false

module _ (servers : Servers) where
  abbrev pub drop_subscription : String → List String → List String
  drop_subscription target subscriptions =
      if was_dropped (wait_until servers.attempt servers.elapsed 15)
      then without (sub_name target) subscriptions
      else subscriptions

  abbrev pub drop_stores : String → SinkCatalog → SinkCatalog
  drop_stores target catalog =
      if servers.vectorizers_listed
      then drop_listed servers.refuses (listed (store_pattern target) catalog.vectorizers) catalog
      else catalog

  unfoldable pub teardown_sink : String → Site → Site
  teardown_sink target site =
      if servers.sink_up
      then record site {
        sink =
            drop_stores target
              (record (site.sink) { views = without (view_name target) site.sink.views });
        subscriptions = drop_subscription target site.subscriptions;
      }
      else site

  unfoldable pub teardown_source : String → Site → Site
  teardown_source target site =
      if servers.source_up
      then if servers.slot_free
        then record site { slots = without (sub_name target) site.slots }
        else site
      else site

  unfoldable pub drop_subscription_completely : String → Site → Site
  drop_subscription_completely target site = teardown_source target (teardown_sink target site)
