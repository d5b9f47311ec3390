-- ===== src/Mirror/Tests.antt =====
-- The mirror worker and the Qdrant adapter on a small outbox.
use postgres_search_replica.Prelude.{
  ℕ, ◌≡◌, ◌≤◌, refl, inl, ◌↔◌, String, string_eq, nat_eq, pair_eq, Eq, ◌==◌, ◌&&◌, Bool, true,
  false, Option, none, some, List, [], ◌∷◌, arith, if◌then◌else◌,
}
use postgres_search_replica.Prelude.Dict.{Dict, member, member-Elem}
use postgres_search_replica.Prelude.Effects.{Exn, Result, ok, err, runtime_error}
use postgres_search_replica.Config.Samples.{book_settings}
use postgres_search_replica.Sync.Order.{order_by, nat_order}
use postgres_search_replica.Sync.Keyset.{drop}
use postgres_search_replica.Mirror.Outbox.{
  OutboxRow, OutboxEntry, entry_of, SinkAdapter, RegistryKey, Sink, last_processed,
  promoted_version,
}
use postgres_search_replica.Mirror.Worker.{World, process_mirror}
use postgres_search_replica.Mirror.Registry.{error_count}
use postgres_search_replica.Mirror.Progress.{backlog, process_mirror-delivers}
use postgres_search_replica.Mirror.Failure.{process_mirror-fails, last_processed-grows}
use postgres_search_replica.Mirror.Drain.{passes, log_adapter, passes-log}
use postgres_search_replica.Mirror.Qdrant.{
  PointId, number, uuid, PointStruct, QdrantClient, point_id, collection_name, sync_batch,
  sync_groups, sync_group, send, send_upserts, send_deletes, ensure_collection, collect, add_entry,
  add_upsert, point_of, group_from, add_to_group,
}
use postgres_search_replica.Mirror.Replay.{IsEngine, sync_batch-deletes}

abbrev key : RegistryKey
key = ("engine", "books")

abbrev row : String → OutboxRow
row source_id = record {
  target_name = "books";
  version_id = "01234567";
  source_id = source_id;
  action = "DELETE";
  payload = none;
}

abbrev sink : Sink
sink = record {
  outbox = (2, row "b") ∷ (1, row "a") ∷ [];
  registry = [];
  hashes = ("sub_books", some "0123456789abcdef") ∷ [];
}

abbrev world : World (List OutboxEntry)
world = record { sink = sink; mirror = [] }

abbrev message : Exn → String
message x = "down"

abbrev latency : List OutboxEntry → ℕ
latency es = 5

-- an engine that is down
abbrev broken_adapter : SinkAdapter (List OutboxEntry)
broken_adapter = record {
  sync_batch = λ es log. (log, err (runtime_error "down"));
  update_alias = λ target version size log. (log, err (runtime_error "down"));
}

process_mirror-delivers_example :
    backlog key (process_mirror book_settings message latency log_adapter key world).sink
    ≡ drop 100 (backlog key sink)
process_mirror-delivers_example =
    process_mirror-delivers book_settings message latency log_adapter key world (refl, (refl, tt))
      refl

process_mirror-fails_example :
    ((process_mirror book_settings message latency broken_adapter key world).mirror ≡ [])
    × (backlog key (process_mirror book_settings message latency broken_adapter key world).sink
        ≡ backlog key sink)
    × (promoted_version key
          (process_mirror book_settings message latency broken_adapter key world).sink.registry
        ≡ promoted_version key [])
    × (error_count key
          (process_mirror book_settings message latency broken_adapter key world).sink.registry
        ≡ 1)
unfolding backlog last_processed order_by
process_mirror-fails_example =
    process_mirror-fails book_settings message latency broken_adapter key world
      (runtime_error "down") (1, row "a") ((2, row "b") ∷ []) refl refl

passes-log_example :
    (passes (process_mirror book_settings message latency log_adapter key) 1 world).mirror
    ≡ entry_of (1, row "a") ∷ entry_of (2, row "b") ∷ []
unfolding backlog last_processed order_by
passes-log_example =
    passes-log book_settings message latency key 1 world (refl, (refl, tt)) (omega arith)

last_processed-grows_example :
    last_processed key []
    ≤ last_processed key
        (process_mirror book_settings message latency broken_adapter key world).sink.registry
last_processed-grows_example =
    last_processed-grows book_settings message latency broken_adapter key world

-- an engine that stores points by collection and id
abbrev same_id : PointId ℕ → PointId ℕ → Bool
same_id (number m) (number n) = m == n
same_id (number m) (uuid t) = false
same_id (uuid s) (number n) = false
same_id (uuid s) (uuid t) = s == t

same_id_iff : (a b : PointId ℕ) → (same_id a b ≡ true) ↔ (a ≡ b)
same_id_iff (number m) (number n) = ground arith
same_id_iff (number m) (uuid t) = ground arith
same_id_iff (uuid s) (number n) = ground arith
same_id_iff (uuid s) (uuid t) = ground (arith, string_eq.beq_iff s t)

instance abbrev point_id_eq : Eq (PointId ℕ)
point_id_eq = record { beq = same_id; beq_iff = same_id_iff }

abbrev Points : Type 0
Points = String → PointId ℕ → Option (PointStruct ℕ ℕ)

abbrev last_point :
    PointId ℕ → List (PointStruct ℕ ℕ) → Option (PointStruct ℕ ℕ) → Option (PointStruct ℕ ℕ)
last_point i [] old = old
last_point i (p ∷ ps) old = last_point i ps (if p.id == i then some p else old)

abbrev memory : QdrantClient ℕ ℕ Points
memory = record {
  get_collection = λ name m. ok tt;
  create_collection = λ name size m. (m, ok tt);
  upsert = λ name ps m. ((λ c i. if name == c then last_point i ps (m c i) else m c i), ok tt);
  delete = λ name ids m. ((λ c i. if (name == c) && member i ids then none else m c i), ok tt);
  update_collection_aliases = λ ops m. (m, ok tt);
}

abbrev at : Points → String → PointId ℕ → Option (PointStruct ℕ ℕ)
at m = m

memory-IsEngine : IsEngine memory at
memory-IsEngine = record {
  create_keeps = λ name size m c i. refl;
  upsert_elsewhere = λ name ps m c i h. ground (arith, string_eq.beq_iff name c);
  delete_elsewhere = λ name ids m c i h. ground (arith, string_eq.beq_iff name c);
  delete_gone =
      λ name ids m i h e. ground (arith, string_eq.beq_iff name name, member-Elem i ids e);
}

-- the row is deleted and then written again
abbrev entry : String → Option (Dict String (Option String)) → OutboxEntry
entry action payload = record {
  id = 1;
  target_name = "books";
  version_id = "01234567";
  source_id = "a";
  action = action;
  payload = payload;
}

abbrev rewritten : List OutboxEntry
rewritten = entry "DELETE" none ∷ entry "UPSERT" (some (("embedding", some "[1]") ∷ [])) ∷ []

abbrev no_integer : String → Option ℕ
no_integer s = none

abbrev one : String → Result (List ℕ)
one s = ok (1 ∷ [])

abbrev nothing : Points
nothing c i = none

sync_batch-ok : (sync_batch no_integer one memory "" rewritten nothing).1 ≡ ok tt
unfolding sync_batch sync_groups sync_group send send_upserts send_deletes ensure_collection collect
    add_entry add_upsert point_of point_id group_from add_to_group collection_name
sync_batch-ok = refl

sync_batch-deletes_example :
    at (sync_batch no_integer one memory "" rewritten nothing).0 "books_01234567" (uuid "a") ≡ none
unfolding collection_name point_id
sync_batch-deletes_example =
    sync_batch-deletes no_integer one memory at memory-IsEngine "" rewritten nothing
      (entry "DELETE" none) refl (inl refl) sync_batch-ok
