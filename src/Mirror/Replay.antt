-- ===== src/Mirror/Replay.antt =====
-- What `sync_batch` of src/pg_replica/adapters.py leaves in the engine. An engine whose client keeps
-- the laws below is any that stores points by collection and id, as Qdrant documents.
use mathlib.Core.Path.{subst}
use postgres_search_replica.Prelude.{
  ℕ, ◌≡◌, ◌≢◌, refl, ◌∙◌, inl, inr, String, string_eq, ◌==◌, Option, none, some, List, [], ◌∷◌,
  arith, Elem, Bool-cases, Option-cases, eq_iff,
}
use postgres_search_replica.Prelude.Dict.{Dict, lookup}
use postgres_search_replica.Prelude.Effects.{Result, Result-cases, ok, err, and_then}
use postgres_search_replica.Sync.Table.{Unique}
use postgres_search_replica.Mirror.Outbox.{OutboxEntry}
use postgres_search_replica.Mirror.Groups.{group_at, group_from-Unique, group_at-Elem}
use postgres_search_replica.Mirror.Collect.{collect-Elem}
use postgres_search_replica.Mirror.Qdrant.{
  PointId, PointStruct, QdrantClient, Batch, no_batch, collection_name, group_from, point_id,
  collect, ensure_collection, send_upserts, send_deletes, send, sync_group, sync_groups, sync_batch,
  create_if_missing, send_collected,
}

-- The documented behaviour of the client: creating a collection changes no point, a call changes no
-- other collection, and the points of a successful deletion are gone.
pub record IsEngine {N X M : Type 0} (client : QdrantClient N X M)
    (point : M → String → PointId N → Option (PointStruct N X)) : Type 0 where
  pub create_keeps :
      (name : String) (size : ℕ) (m : M) (c : String) (i : PointId N)
      → point (client.create_collection name size m).0 c i ≡ point m c i
  pub upsert_elsewhere :
      (name : String) (ps : List (PointStruct N X)) (m : M) (c : String) (i : PointId N)
      → name ≢ c
      → point (client.upsert name ps m).0 c i ≡ point m c i
  pub delete_elsewhere :
      (name : String) (ids : List (PointId N)) (m : M) (c : String) (i : PointId N)
      → name ≢ c
      → point (client.delete name ids m).0 c i ≡ point m c i
  pub delete_gone :
      (name : String) (ids : List (PointId N)) (m : M) (i : PointId N)
      → (client.delete name ids m).1 ≡ ok tt
      → Elem i ids
      → point (client.delete name ids m).0 name i ≡ none

pub and_then-eq-ok :
    {S : Type 0} (r : S × Result (Unit {0})) (f : S → S × Result (Unit {0}))
    → (and_then r f).1 ≡ ok tt
    → (r.1 ≡ ok tt) × ((f r.0).1 ≡ ok tt) × (and_then r f ≡ f r.0)
and_then-eq-ok (s, ok _) f h = (refl, h, refl)
and_then-eq-ok (s, err x) f h = cc

module _ {N X : Type 0} (integer : String → Option N) (loads : String → Result (List X)) where
  module _ {M : Type 0} (client : QdrantClient N X M)
      (point : M → String → PointId N → Option (PointStruct N X))
      (engine : IsEngine client point) where
    -- what both calls keep, the two in a row keep
    and_then-keeps :
        (c : String) (i : PointId N) (m : M) (r : M × Result (Unit {0}))
        (f : M → M × Result (Unit {0}))
        → point r.0 c i ≡ point m c i
        → ((n : M) → point (f n).0 c i ≡ point n c i)
        → point (and_then r f).0 c i ≡ point m c i
    and_then-keeps c i m (n, ok _) f h k = k n ∙ h
    and_then-keeps c i m (n, err x) f h k = h

    ensure-keeps :
        (name : String) (size : ℕ) (m : M) (c : String) (i : PointId N)
        → point (ensure_collection integer loads client name size m).0 c i ≡ point m c i
    unfolding ensure_collection
    ensure-keeps name size m c i = go (client.get_collection name m)
      where
        go :
            (r : Result (Unit {0}))
            → point (create_if_missing integer loads client name size m r).0 c i ≡ point m c i
        go (ok _) = refl
        go (err x) = engine.create_keeps name size m c i

    send_upserts-elsewhere :
        (name : String) (size : ℕ) (ps : List (PointStruct N X)) (m : M) (c : String)
        (i : PointId N)
        → name ≢ c
        → point (send_upserts integer loads client name size ps m).0 c i ≡ point m c i
    unfolding send_upserts
    send_upserts-elsewhere name size [] m c i h = refl
    send_upserts-elsewhere name size (p ∷ ps) m c i h =
        and_then-keeps c i m (ensure_collection integer loads client name size m)
          (client.upsert name (p ∷ ps)) (ensure-keeps name size m c i)
          (λ n. engine.upsert_elsewhere name (p ∷ ps) n c i h)

    send_deletes-elsewhere :
        (name : String) (ids : List (PointId N)) (m : M) (c : String) (i : PointId N)
        → name ≢ c
        → point (send_deletes integer loads client name ids m).0 c i ≡ point m c i
    unfolding send_deletes
    send_deletes-elsewhere name [] m c i h = refl
    send_deletes-elsewhere name (j ∷ ids) m c i h = engine.delete_elsewhere name (j ∷ ids) m c i h

    sync_group-elsewhere :
        (name : String) (batch : List OutboxEntry) (m : M) (c : String) (i : PointId N)
        → name ≢ c
        → point (sync_group integer loads client name batch m).0 c i ≡ point m c i
    unfolding sync_group send
    sync_group-elsewhere name batch m c i h = go (collect integer loads batch no_batch)
      where
        go :
            (r : Result (Batch N X))
            → point (send_collected integer loads client name m r).0 c i ≡ point m c i
        go (err x) = refl
        go (ok b) =
            and_then-keeps c i m (send_upserts integer loads client name b.vector_size b.upserts m)
              (send_deletes integer loads client name b.deletes)
              (send_upserts-elsewhere name b.vector_size b.upserts m c i h)
              (λ n. send_deletes-elsewhere name b.deletes n c i h)

    sync_groups-elsewhere :
        (groups : Dict String (List OutboxEntry)) (m : M) (c : String) (i : PointId N)
        → lookup c groups ≡ none
        → point (sync_groups integer loads client groups m).0 c i ≡ point m c i
    unfolding sync_groups
    sync_groups-elsewhere [] m c i h = refl
    sync_groups-elsewhere ((name, batch) ∷ groups) m c i h =
        and_then-keeps c i m (sync_group integer loads client name batch m)
          (sync_groups integer loads client groups)
          (sync_group-elsewhere name batch m c i (ground (arith, h, eq_iff name c)))
          (λ n. sync_groups-elsewhere groups n c i (ground (arith, h, eq_iff name c)))

    send_deletes-gone :
        (name : String) (ids : List (PointId N)) (m : M) (i : PointId N)
        → (send_deletes integer loads client name ids m).1 ≡ ok tt
        → Elem i ids
        → point (send_deletes integer loads client name ids m).0 name i ≡ none
    unfolding send_deletes
    send_deletes-gone name [] m i h e = elim e [ ]
    send_deletes-gone name (j ∷ ids) m i h e = engine.delete_gone name (j ∷ ids) m i h e

    -- a group that succeeds has deleted what one of its entries deletes
    sync_group-deletes :
        (name : String) (batch : List OutboxEntry) (m : M) (x : OutboxEntry)
        → x.action ≡ "DELETE"
        → Elem x batch
        → (sync_group integer loads client name batch m).1 ≡ ok tt
        → point
            (sync_group integer loads client name batch m).0
            name
            (point_id integer loads x.source_id)
          ≡ none
    unfolding sync_group send send_deletes
    sync_group-deletes name batch m x a e h =
        elim (Result-cases (collect integer loads batch no_batch)) [
          | inl (y, raised) ↦ absurd (cc (rw raised at h))
          | inr (b, collected) ↦
              let done : (send integer loads client name b m).1 ≡ ok tt = rw collected at h in
              let (first, second, same) =
                and_then-eq-ok (send_upserts integer loads client name b.vector_size b.upserts m)
                  (send_deletes integer loads client name b.deletes) done in
              rw (collected, same)
                (send_deletes-gone name b.deletes
                  (send_upserts integer loads client name b.vector_size b.upserts m).0
                  (point_id integer loads x.source_id) second
                  (collect-Elem integer loads x batch no_batch b a collected e))
        ]

    sync_groups-deletes :
        (groups : Dict String (List OutboxEntry)) (m : M) (c : String) (x : OutboxEntry)
        (batch : List OutboxEntry)
        → Unique groups
        → lookup c groups ≡ some batch
        → x.action ≡ "DELETE"
        → Elem x batch
        → (sync_groups integer loads client groups m).1 ≡ ok tt
        → point (sync_groups integer loads client groups m).0 c (point_id integer loads x.source_id)
          ≡ none
    unfolding sync_groups
    sync_groups-deletes [] m c x batch u l a e h = cc
    sync_groups-deletes ((name, first) ∷ groups) m c x batch u l a e h =
        let (one, rest, same) =
          and_then-eq-ok (sync_group integer loads client name first m)
            (sync_groups integer loads client groups) h in
        elim (Bool-cases (name == c)) [
          | inr f ↦ rw same (
              sync_groups-deletes groups (sync_group integer loads client name first m).0 c x batch
                u.1 (ground (arith, l, f)) a e rest)
          | inl t ↦
              let i = point_id integer loads x.source_id in
              let name_c : name ≡ c = (eq_iff name c).0 t in
              let first_batch : first ≡ batch = ground (arith, l, t) in
              rw same (
                sync_groups-elsewhere groups (sync_group integer loads client name first m).0 c i
                  (rw name_c at u.0)
                ∙ subst (λ z. point (sync_group integer loads client name first m).0 z i ≡ none)
                    name_c (sync_group-deletes name first m x a (rw first_batch e) one))
        ]

    -- After a batch that is taken without an error, a point that some entry of the batch deletes is
    -- gone, even where a later entry of the batch upserts it: the upserts are sent first.
    pub sync_batch-deletes :
        (collection_prefix : String) (entries : List OutboxEntry) (m : M) (x : OutboxEntry)
        → x.action ≡ "DELETE"
        → Elem x entries
        → (sync_batch integer loads client collection_prefix entries m).1 ≡ ok tt
        → point
            (sync_batch integer loads client collection_prefix entries m).0
            (collection_name collection_prefix x.target_name x.version_id)
            (point_id integer loads x.source_id)
          ≡ none
    unfolding sync_batch
    sync_batch-deletes collection_prefix entries m x a e h = elim (Option-cases (lookup c groups)) [
      | inl n ↦ absurd (rw n at member)
      | inr (batch, s) ↦
          sync_groups-deletes groups m c x batch (group_from-Unique collection_prefix entries [] tt)
            s a (rw s at member) h
    ]
      where
        c : String
        c = collection_name collection_prefix x.target_name x.version_id

        groups : Dict String (List OutboxEntry)
        groups = group_from collection_prefix entries []

        member : Elem x (group_at c groups)
        member = group_at-Elem collection_prefix x entries [] e
