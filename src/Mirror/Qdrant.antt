-- ===== src/Mirror/Qdrant.antt =====
-- `QdrantSinkAdapter` of src/pg_replica/adapters.py, over any Qdrant client: `client` stands for
-- the calls of qdrant_client, `loads` for json.loads, `integer` for int(…), and `says_not_found`
-- for `"not found" in str(e).lower()`.
use postgres_search_replica.Prelude.{
  ℕ, String, string_eq, ◌==◌, Bool, Option, none, some, List, [], ◌∷◌, ◌++◌, concat, length,
  or_else, if◌then◌else◌,
}
use postgres_search_replica.Prelude.Dict.{Dict, lookup, insert}
use postgres_search_replica.Prelude.Effects.{Result, ok, err, Exn, and_then, ◌>>=◌}
use postgres_search_replica.Config.{truthy}
use postgres_search_replica.Mirror.Outbox.{OutboxEntry, SinkAdapter}

-- an unsigned integer or a UUID
pub data PointId (N : Type 0) : Type 0 where
  number : N → PointId N
  uuid : String → PointId N

pub record Payload : Type 0 where
  pub content : Option String
  pub target_name : String
  pub version_id : String

-- X is the type of the vectors' elements.
pub record PointStruct (N X : Type 0) : Type 0 where
  pub id : PointId N
  pub vector : List X
  pub payload : Payload

pub data AliasOperation : Type 0 where
  delete_alias : (alias_name : String) → AliasOperation
  create_alias : (collection_name alias_name : String) → AliasOperation

-- the calls of the client; M is the state of the engine
pub record QdrantClient (N X M : Type 0) : Type 0 where
  pub get_collection : String → M → Result (Unit {0})
  pub create_collection : String → ℕ → M → M × Result (Unit {0})
  pub upsert : String → List (PointStruct N X) → M → M × Result (Unit {0})
  pub delete : String → List (PointId N) → M → M × Result (Unit {0})
  pub update_collection_aliases : List AliasOperation → M → M × Result (Unit {0})

-- `_get_collection_name`
unfoldable pub collection_name : String → String → String → String
collection_name collection_prefix target version =
    concat (collection_prefix ∷ target ∷ "_" ∷ version ∷ [])

-- `payload.get(k)` of a payload whose values are text or NULL
abbrev pub text_at : String → Dict String (Option String) → Option String
text_at k payload = or_else (lookup k payload) none

-- `a or b`
abbrev pub or_text : Option String → Option String → Option String
or_text a b = if truthy a then a else b

-- the lists that are filled for one collection
pub record Batch (N X : Type 0) : Type 0 where
  pub upserts : List (PointStruct N X)
  pub deletes : List (PointId N)
  pub vector_size : ℕ

abbrev pub no_batch : {N X : Type 0} → Batch N X
no_batch = record { upserts = []; deletes = []; vector_size = 0 }

-- `groups[key].append(entry)`, with `groups[key] = []` where the key is new
unfoldable pub add_to_group :
    String → OutboxEntry → Dict String (List OutboxEntry) → Dict String (List OutboxEntry)
add_to_group key entry groups = insert key (or_else (lookup key groups) [] ++ entry ∷ []) groups

unfoldable pub group_from :
    String → List OutboxEntry → Dict String (List OutboxEntry) → Dict String (List OutboxEntry)
group_from collection_prefix [] groups = groups
group_from collection_prefix (x ∷ xs) groups =
    group_from collection_prefix xs
      (add_to_group (collection_name collection_prefix x.target_name x.version_id) x groups)

-- `entry.action == "UPSERT" and entry.payload`: an empty payload is false
abbrev pub usable_payload : OutboxEntry → Option (Dict String (Option String))
usable_payload entry = elim entry.payload [
  | none ↦ none
  | some [] ↦ none
  | some (p ∷ ps) ↦ if entry.action == "UPSERT" then some (p ∷ ps) else none
]

module _ {N X : Type 0} (integer : String → Option N) (loads : String → Result (List X)) where
  -- `int(source_id)`, or the text itself after a ValueError
  unfoldable pub point_id : String → PointId N
  point_id s = elim (integer s) [ none ↦ uuid s | some n ↦ number n ]

  unfoldable pub point_of : OutboxEntry → Dict String (Option String) → List X → PointStruct N X
  point_of entry payload embedding = record {
    id = point_id entry.source_id;
    vector = embedding;
    payload = record {
      content = or_text (text_at "content" payload) (text_at "description" payload);
      target_name = entry.target_name;
      version_id = entry.version_id;
    };
  }

  abbrev pub append_upsert :
      OutboxEntry → Dict String (Option String) → Batch N X → Result (List X) → Result (Batch N X)
  append_upsert entry payload b (err x) = err x
  append_upsert entry payload b (ok embedding) = ok (record b {
    upserts = b.upserts ++ point_of entry payload embedding ∷ [];
    vector_size = length embedding;
  })

  -- an UPSERT with a payload; an entry without an embedding is passed over
  unfoldable pub add_upsert :
      OutboxEntry → Dict String (Option String) → Batch N X → Result (Batch N X)
  add_upsert entry payload b = elim (text_at "embedding" payload) [
    | none ↦ ok b
    | some text ↦ if text == "" then ok b else append_upsert entry payload b (loads text)
  ]

  unfoldable pub add_entry : OutboxEntry → Batch N X → Result (Batch N X)
  add_entry entry b = elim (usable_payload entry) [
    | some payload ↦ add_upsert entry payload b
    | none ↦
        if entry.action == "DELETE"
        then ok (record b { deletes = b.deletes ++ point_id entry.source_id ∷ [] })
        else ok b
  ]

  unfoldable pub collect : List OutboxEntry → Batch N X → Result (Batch N X)
  collect [] b = ok b
  collect (x ∷ xs) b = add_entry x b >>= collect xs

  module _ {M : Type 0} (client : QdrantClient N X M) where
    -- `except Exception: create_collection(…)`
    abbrev pub create_if_missing : String → ℕ → M → Result (Unit {0}) → M × Result (Unit {0})
    create_if_missing name size m (ok _) = (m, ok tt)
    create_if_missing name size m (err x) = client.create_collection name size m

    unfoldable pub ensure_collection : String → ℕ → M → M × Result (Unit {0})
    ensure_collection name size m = create_if_missing name size m (client.get_collection name m)

    unfoldable pub send_upserts : String → ℕ → List (PointStruct N X) → M → M × Result (Unit {0})
    send_upserts name size [] m = (m, ok tt)
    send_upserts name size (p ∷ ps) m =
        and_then (ensure_collection name size m) (client.upsert name (p ∷ ps))

    unfoldable pub send_deletes : String → List (PointId N) → M → M × Result (Unit {0})
    send_deletes name [] m = (m, ok tt)
    send_deletes name (i ∷ ids) m = client.delete name (i ∷ ids) m

    unfoldable pub send : String → Batch N X → M → M × Result (Unit {0})
    send name b m =
        and_then (send_upserts name b.vector_size b.upserts m) (send_deletes name b.deletes)

    abbrev pub send_collected : String → M → Result (Batch N X) → M × Result (Unit {0})
    send_collected name m (err x) = (m, err x)
    send_collected name m (ok b) = send name b m

    unfoldable pub sync_group : String → List OutboxEntry → M → M × Result (Unit {0})
    sync_group name batch m = send_collected name m (collect batch no_batch)

    unfoldable pub sync_groups : Dict String (List OutboxEntry) → M → M × Result (Unit {0})
    sync_groups [] m = (m, ok tt)
    sync_groups ((name, batch) ∷ groups) m = and_then (sync_group name batch m) (sync_groups groups)

    unfoldable pub sync_batch : String → List OutboxEntry → M → M × Result (Unit {0})
    sync_batch collection_prefix entries = sync_groups (group_from collection_prefix entries [])

    module _ (says_not_found : Exn → Bool) where
      abbrev pub alias_after : String → String → M × Result (Unit {0}) → M × Result (Unit {0})
      alias_after alias name (m, ok _) = (m, ok tt)
      alias_after alias name (m, err x) =
          if says_not_found x
          then client.update_collection_aliases (create_alias name alias ∷ []) m
          else (m, err x)

      unfoldable pub update_alias : String → String → String → ℕ → M → M × Result (Unit {0})
      update_alias collection_prefix target version size m =
          let alias = concat (collection_prefix ∷ target ∷ "_production" ∷ []) in
          let name = collection_name collection_prefix target version in
          and_then (ensure_collection name size m) (λ n. alias_after alias name (
            client.update_collection_aliases (delete_alias alias ∷ create_alias name alias ∷ []) n))

      abbrev pub qdrant_sink : String → SinkAdapter M
      qdrant_sink collection_prefix = record {
        sync_batch = sync_batch collection_prefix;
        update_alias = update_alias collection_prefix;
      }
