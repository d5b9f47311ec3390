-- ===== src/Mirror/Worker.antt =====
-- `MirrorWorker` of src/pg_replica/mirror_worker.py. The statements on the sink succeed here; an
-- adapter may raise. `message` is `str(e)`, and `latency` the measured time of a batch.
use postgres_search_replica.Prelude.{
  ℕ, String, string_eq, ◌==◌, Bool, true, false, Option, none, some, List, [], ◌∷◌, map, prefix,
  concat, if◌then◌else◌,
}
use postgres_search_replica.Prelude.Dict.{Dict, lookup}
use postgres_search_replica.Prelude.Effects.{Result, ok, err, Exn, value_error, and_then}
use postgres_search_replica.Config.{Settings, SearchPipeline, MirrorConfig, qdrant, pinecone}
use postgres_search_replica.Sync.Order.{nat_order}
use postgres_search_replica.Sync.Keyset.{fetch_batch, last_key}
use postgres_search_replica.Mirror.Outbox.{
  OutboxRow, OutboxEntry, entry_of, SinkAdapter, RegistryKey, Registry, Sink, record_progress,
  record_error, record_promotion, last_processed, promoted_version,
}

-- the sink and the engines
pub record World (M : Type 0) : Type 0 where
  pub sink : Sink
  pub mirror : M

-- SELECT … WHERE target_name = … AND id > last ORDER BY id ASC LIMIT 100
unfoldable pub new_rows : String → ℕ → Sink → List (ℕ × OutboxRow)
new_rows target last sink = fetch_batch sink.outbox (λ r. r.1.target_name == target) (some last) 100

-- `promoted_version_id` as Python compares it with a version
unfoldable pub is_promoted : String → Option String → Bool
is_promoted version none = false
is_promoted version (some v) = v == version

abbrev pub went_well : Result (Unit {0}) → Bool
went_well (ok _) = true
went_well (err x) = false

abbrev pub dimension_of : Option SearchPipeline → ℕ
dimension_of none = 768
dimension_of (some c) = c.pipeline.embedding.dimension

-- `if state_row and state_row[0]`
unfoldable pub promoted_hash : String → Sink → Option String
promoted_hash target sink = elim (lookup (concat ("sub_" ∷ target ∷ [])) sink.hashes) [
  | none ↦ none
  | some none ↦ none
  | some (some h) ↦ if h == "" then none else some h
]

module _ {M : Type 0} (settings : Settings) (message : Exn → String)
    (latency : List OutboxEntry → ℕ) where
  abbrev pub with_registry : World M → Registry → World M
  with_registry w r = record w { sink = record (w.sink) { registry = r } }

  -- the rows `r ∷ rs` have been handed to the adapter
  unfoldable pub after_batch :
      RegistryKey → ℕ × OutboxRow → List (ℕ × OutboxRow) → World M → Result (Unit {0}) → World M
  after_batch key r rs w (ok _) =
      with_registry w
        (record_progress (last_key r.0 rs) (latency (map entry_of (r ∷ rs))) key w.sink.registry)
  after_batch key r rs w (err x) = with_registry w (record_error (message x) key w.sink.registry)

  -- steps 1 to 3, and whether step 4 follows
  unfoldable pub dispatch : SinkAdapter M → RegistryKey → World M → World M × Bool
  dispatch adapter key w = elim (new_rows key.1 (last_processed key w.sink.registry) w.sink) [
    | [] ↦ (w, true)
    | r ∷ rs ↦
        let (m, result) = adapter.sync_batch (map entry_of (r ∷ rs)) w.mirror in
        (after_batch key r rs (record w { mirror = m }) result, went_well result)
  ]

  unfoldable pub after_alias : RegistryKey → String → World M → Result (Unit {0}) → World M
  after_alias key version w (ok _) = with_registry w (record_promotion version key w.sink.registry)
  after_alias key version w (err x) = w

  -- step 4, where _replica_state has a hash
  unfoldable pub promote_version : SinkAdapter M → RegistryKey → String → World M → World M
  promote_version adapter key version w =
      if is_promoted version (promoted_version key w.sink.registry)
      then w
      else let (m, result) =
          adapter.update_alias key.1 version (dimension_of (lookup key.1 settings.pipelines))
            w.mirror in
        after_alias key version (record w { mirror = m }) result

  unfoldable pub promote : SinkAdapter M → RegistryKey → World M → World M
  promote adapter key w = elim (promoted_hash key.1 w.sink) [
    | none ↦ w
    | some h ↦ promote_version adapter key (prefix 8 h) w
  ]

  unfoldable pub process_mirror : SinkAdapter M → RegistryKey → World M → World M
  process_mirror adapter key w =
      let (v, go_on) = dispatch adapter key w in if go_on then promote adapter key v else v

  module _ (qdrant_adapter : MirrorConfig → SinkAdapter M) where
    -- `_get_adapter`: the cache only saves a connection
    unfoldable pub get_adapter : MirrorConfig → Result (SinkAdapter M)
    get_adapter cfg = elim cfg.type [
      | qdrant ↦ ok (qdrant_adapter cfg)
      | pinecone ↦ err (value_error "Unsupported mirror type: pinecone")
    ]

    unfoldable pub process_ids : String → List String → World M → World M × Result (Unit {0})
    process_ids target [] w = (w, ok tt)
    process_ids target (i ∷ ids) w = elim (lookup i settings.mirrors) [
      | none ↦ process_ids target ids w
      | some cfg ↦ elim (get_adapter cfg) [
        | err x ↦ (w, err x)
        | ok adapter ↦ process_ids target ids (process_mirror adapter (cfg.id, target) w)
      ]
    ]

    unfoldable pub process_pipelines :
        Dict String SearchPipeline → World M → World M × Result (Unit {0})
    process_pipelines [] w = (w, ok tt)
    process_pipelines ((target, c) ∷ rest) w =
        and_then (process_ids target c.storage.mirrors w) (process_pipelines rest)

    unfoldable pub process_all_mirrors : World M → World M × Result (Unit {0})
    process_all_mirrors = process_pipelines settings.pipelines
