-- ===== src/Mirror/Promotion.antt =====
-- Step 4 of `_process_mirror` in src/pg_replica/mirror_worker.py: the alias of the engine follows
-- the hash that _replica_state holds; and the loop of `_process_all_mirrors`.
use postgres_search_replica.Prelude.{ℕ, ◌≡◌, refl, ap, String, string_eq, some, List, ◌∷◌}
use postgres_search_replica.Prelude.Dict.{Dict, lookup}
use postgres_search_replica.Prelude.Effects.{err, Exn, value_error, and_then}
use postgres_search_replica.Config.{Settings, SearchPipeline, MirrorConfig, pinecone}
use postgres_search_replica.Mirror.Outbox.{OutboxEntry, SinkAdapter}
use postgres_search_replica.Mirror.Worker.{World, get_adapter, process_ids, process_pipelines}

module _ {M : Type 0} (settings : Settings) (message : Exn → String)
    (latency : List OutboxEntry → ℕ) where
  -- A pipeline whose first mirror is of the type pinecone, which the settings accept, ends the pass
  -- with an error: no mirror of that pipeline and of the pipelines after it is served.
  pub pinecone-starves :
      (qdrant_adapter : MirrorConfig → SinkAdapter M) (target i : String) (ids : List String)
      (c : SearchPipeline) (rest : Dict String SearchPipeline) (cfg : MirrorConfig) (w : World M)
      → c.storage.mirrors ≡ i ∷ ids
      → lookup i settings.mirrors ≡ some cfg
      → cfg.type ≡ pinecone
      → process_pipelines settings message latency qdrant_adapter ((target, c) ∷ rest) w
        ≡ (w, err (value_error "Unsupported mirror type: pinecone"))
  unfolding process_pipelines process_ids get_adapter
  pinecone-starves qdrant_adapter target i ids c rest cfg w first found p =
      ap (λ r. and_then r (process_pipelines settings message latency qdrant_adapter rest)) blocked
    where
      head_blocked :
          process_ids settings message latency qdrant_adapter target (i ∷ ids) w
          ≡ (w, err (value_error "Unsupported mirror type: pinecone"))
      head_blocked = rw (process_ids, found, get_adapter, p) refl

      blocked :
          process_ids settings message latency qdrant_adapter target c.storage.mirrors w
          ≡ (w, err (value_error "Unsupported mirror type: pinecone"))
      blocked = rw first head_blocked
