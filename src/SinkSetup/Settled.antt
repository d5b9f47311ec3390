-- ===== src/SinkSetup/Settled.antt =====
-- What discovery finds after `setup_sink` of src/pg_replica/database.py has returned.
use postgres_search_replica.Prelude.{
  ℕ, String, string_eq, ◌≡◌, refl, sym, ap, ◌∙◌, inl, inr, true, Option, none, some, Elem,
  after_dot, arith, Option-cases,
}
use postgres_search_replica.Prelude.Dict.{Dict, lookup, member}
use postgres_search_replica.Prelude.Effects.{Result, ok, err}
use postgres_search_replica.Config.{Settings, SearchPipeline}
use postgres_search_replica.Config.Json.{Json}
use postgres_search_replica.Control.Replica.{sub_name, get_replica_state}
use postgres_search_replica.Reconciler.{Vectorizer}
use postgres_search_replica.Reconciler.Planner.Blocks.{vectorizer_exists}
use postgres_search_replica.Inspector.{SinkCatalog, get_sink_state}
use postgres_search_replica.Inspector.Vectorizers.{has_store, vectorizer_exists-get_sink_state}
use postgres_search_replica.SinkSetup.Databases.{Databases, Outcome, returned}
use postgres_search_replica.SinkSetup.Subscribe.{
  Reply, after_reply, after_wait, slot_source, options_of, subscribed_with, subscribe_at,
  try_create_subscription, wait_subscription, subscribe_new, subscribe,
}
use postgres_search_replica.SinkSetup.Vectorizer.{made, vectorizer_name, vectorizer_call}
use postgres_search_replica.SinkSetup.Prepared.{prepare-vectorizers, prepare-ai}
use postgres_search_replica.SinkSetup.Setup.{Servers, setup_vectorizer, prepare, setup_sink}
use postgres_search_replica.SinkSetup.Made.{
  IsPgai, made-has_store, next-returned, wait_vectorizer-made,
}

module _ (settings : Settings) (subscription_options : Dict String String)
    (refuses : ℕ → Option String) (elapsed : ℕ → ℕ) (target : String) (config : SearchPipeline)
    (dbs : Databases) where
  -- the subscription is not in the catalog
  subscribed_with-sink :
      (options : Dict String String) (url : String)
      → (subscribed_with target config options url dbs).sink ≡ dbs.sink
  subscribed_with-sink options url = ground arith

  attempt-sink :
      (options : Dict String String) (k : ℕ)
      → (after_reply dbs (
          try_create_subscription settings subscription_options refuses elapsed target config
            options dbs k)).sink
        ≡ dbs.sink
  unfolding try_create_subscription subscribe_at
  attempt-sink options k = ground (arith, subscribed_with-sink options)

  after_wait-sink :
      (attempt : ℕ → Reply)
      → ((k : ℕ) → (after_reply dbs (attempt k)).sink ≡ dbs.sink)
      → (w : Option (Result ℕ)) → (after_wait dbs attempt w).0.sink ≡ dbs.sink
  after_wait-sink attempt same none = refl
  after_wait-sink attempt same (some (err x)) = refl
  after_wait-sink attempt same (some (ok k)) = same k

  wait_subscription-sink :
      (options : Dict String String)
      → (wait_subscription settings subscription_options refuses elapsed target config options
          dbs).0.sink
        ≡ dbs.sink
  unfolding wait_subscription
  wait_subscription-sink options =
      after_wait-sink
        (try_create_subscription settings subscription_options refuses elapsed target config options
          dbs)
        (attempt-sink options) _

  subscribe_new-sink :
      (subscribe_new settings subscription_options refuses elapsed target config dbs).0.sink
      ≡ dbs.sink
  unfolding subscribe_new
  subscribe_new-sink = elim (Option-cases (lookup (slot_source settings target) dbs.sources)) [
    | inl n ↦ rw (subscribe_new, n) refl
    | inr (slots, s) ↦
        rw (subscribe_new, s)
          (wait_subscription-sink (
            options_of subscription_options (member (sub_name target) slots)
              (get_replica_state target dbs.sink.states)))
  ]

  subscribe-sink :
      (subscribe settings subscription_options refuses elapsed target config dbs).0.sink ≡ dbs.sink
  unfolding subscribe
  subscribe-sink = ground (arith, subscribe_new-sink)

module _ (servers : Servers) (settings : Settings) (options : Dict String String)
    (config : SearchPipeline) (target : String) (vectorizer_target : Option String)
    (dbs end : Databases) where
  -- the stages of a set-up that returns
  pub stages :
      setup_sink servers settings options config target vectorizer_target dbs ≡ returned end
      → (middle indexed : Databases) × (prepare servers settings options config target dbs
          ≡ returned middle)
        × (setup_vectorizer servers settings options config vectorizer_target middle
            ≡ returned indexed)
        × (end.sink ≡ indexed.sink)
  unfolding setup_sink
  stages h =
      let (middle, p, rest) =
        next-returned (prepare servers settings options config target dbs) _ end h in
      let (indexed, v, s) =
        next-returned (setup_vectorizer servers settings options config vectorizer_target middle) _
          end rest in
      (
        middle,
        indexed,
        p,
        v,
        sym (ap (λ (o : Outcome). o.0.sink) s)
            ∙ subscribe-sink settings options servers.refuses servers.subscription_clock target
                config indexed,
      )

  -- the vectorizer that the set-up waits for
  pub stage-made :
      (middle indexed : Databases)
      → setup_vectorizer servers settings options config vectorizer_target middle ≡ returned indexed
      → (k : ℕ) × (servers.create_vectorizer k
            (vectorizer_call servers.show settings config
              (vectorizer_name config vectorizer_target)
              middle.sink)
            middle.sink
          ≡ made indexed.sink)
  unfolding setup_vectorizer
  stage-made middle indexed h =
      wait_vectorizer-made servers.create_vectorizer servers.vectorizer_clock _ middle indexed h

  -- A set-up that returns has given the target's table a vectorizer whose store has the name that was
  -- asked for, and the discovery that follows finds it, where the extension is installed in the usual
  -- way, the table's name has no dot, and a vectorizer that had the name before is one of that table
  -- with that store.
  pub setup-found :
      (hexdigest : Json → String)
      → IsPgai servers.create_vectorizer
      → servers.installer.standard ≡ true
      → after_dot config.ingest.table ≡ config.ingest.table
      → ((r : String × Vectorizer)
          → Elem r dbs.sink.vectorizers
          → r.1.name ≡ vectorizer_name config vectorizer_target
          → (after_dot r.0 ≡ config.ingest.table)
            × (r.1.target_table ≡ some (vectorizer_name config vectorizer_target)))
      → setup_sink servers settings options config target vectorizer_target dbs ≡ returned end
      → vectorizer_exists
          (get_sink_state hexdigest end.sink settings)
          config.ingest.table
          (vectorizer_name config vectorizer_target)
        ≡ true
  setup-found hexdigest pgai usual plain proper h =
      let (middle, indexed, p, v, e) = stages h in
      let (k, m) = stage-made middle indexed v in
      let same : middle.sink.vectorizers ≡ dbs.sink.vectorizers =
        sym (ap (λ (o : Outcome). o.0.sink.vectorizers) p)
        ∙ prepare-vectorizers servers settings options config target dbs in
      vectorizer_exists-get_sink_state hexdigest end.sink settings config.ingest.table
        (vectorizer_name config vectorizer_target)
        (ap (λ (c : SinkCatalog). member "ai" c.extensions) e
          ∙ ap (member "ai") (pgai.extensions_kept k _ middle.sink indexed.sink m)
          ∙ prepare-ai servers settings options config target dbs middle usual p)
      ∙ ap
          (λ (c : SinkCatalog).
            has_store config.ingest.table (vectorizer_name config vectorizer_target) c.vectorizers)
          e
      ∙ made-has_store servers.create_vectorizer pgai servers.show settings config
          (vectorizer_name config vectorizer_target) k middle.sink indexed.sink plain
          (λ r k. proper r (rw same at k)) m
