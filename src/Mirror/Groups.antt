-- ===== src/Mirror/Groups.antt =====
-- How `sync_batch` of src/pg_replica/adapters.py groups a batch by collection.
use postgres_search_replica.Prelude.{
  ◌≡◌, refl, inl, inr, String, string_eq, ◌==◌, List, [], ◌∷◌, ◌++◌, arith, Elem, Elem-append_left,
  Elem-append_right, Bool-cases, or_else, if◌then◌else◌, eq_iff,
}
use postgres_search_replica.Prelude.Dict.{Dict, lookup, insert, lookup-insert}
use postgres_search_replica.Sync.Table.{Unique}
use postgres_search_replica.Mirror.Outbox.{OutboxEntry}
use postgres_search_replica.Mirror.Qdrant.{collection_name, add_to_group, group_from}

Unique-insert :
    {V : Type 0} (k : String) (v : V) (d : Dict String V) → Unique d → Unique (insert k v d)
Unique-insert k v [] u = (refl, tt)
Unique-insert k v ((j, w) ∷ d) u = elim (Bool-cases (j == k)) [
  | inl t ↦ rw t u
  | inr f ↦
      rw f (
        ground (arith, lookup-insert k j v d, eq_iff k j, eq_iff j k, u.0),
        Unique-insert k v d u.1,
      )
]

pub group_from-Unique :
    (collection_prefix : String) (xs : List OutboxEntry) (groups : Dict String (List OutboxEntry))
    → Unique groups
    → Unique (group_from collection_prefix xs groups)
unfolding group_from add_to_group
group_from-Unique collection_prefix [] groups u = u
group_from-Unique collection_prefix (x ∷ xs) groups u =
    group_from-Unique collection_prefix xs
      (add_to_group (collection_name collection_prefix x.target_name x.version_id) x groups)
      (Unique-insert _ _ groups u)

-- the group of a collection so far
abbrev pub group_at : String → Dict String (List OutboxEntry) → List OutboxEntry
group_at c groups = or_else (lookup c groups) []

group_at-add_to_group :
    (c key : String) (x : OutboxEntry) (groups : Dict String (List OutboxEntry))
    → group_at c (add_to_group key x groups)
      ≡ (if key == c then group_at c groups ++ x ∷ [] else group_at c groups)
unfolding add_to_group
group_at-add_to_group c key x groups =
    ground
      (arith, lookup-insert key c (or_else (lookup key groups) [] ++ x ∷ []) groups, eq_iff key c)

group_at-keeps :
    (c collection_prefix : String) (e : OutboxEntry) (xs : List OutboxEntry)
    (groups : Dict String (List OutboxEntry))
    → Elem e (group_at c groups)
    → Elem e (group_at c (group_from collection_prefix xs groups))
unfolding group_from
group_at-keeps c collection_prefix e [] groups m = m
group_at-keeps c collection_prefix e (x ∷ xs) groups m =
    group_at-keeps c collection_prefix e xs (add_to_group key x groups)
      (rw (group_at-add_to_group c key x groups) grown)
  where
    key : String
    key = collection_name collection_prefix x.target_name x.version_id

    grown : Elem e (if key == c then group_at c groups ++ x ∷ [] else group_at c groups)
    grown = elim (Bool-cases (key == c)) [
      | inl t ↦ rw t (Elem-append_left e (group_at c groups) (x ∷ []) m)
      | inr f ↦ rw f m
    ]

-- every entry is in the group of its collection
pub group_at-Elem :
    (collection_prefix : String) (e : OutboxEntry) (xs : List OutboxEntry)
    (groups : Dict String (List OutboxEntry))
    → Elem e xs
    → Elem e (
        group_at
          (collection_name collection_prefix e.target_name e.version_id)
          (group_from collection_prefix xs groups))
unfolding group_from
group_at-Elem collection_prefix e [] groups m = elim m [ ]
group_at-Elem collection_prefix e (x ∷ xs) groups (inr m) = group_at-Elem collection_prefix e xs _ m
group_at-Elem collection_prefix e (x ∷ xs) groups (inl p) =
    group_at-keeps key collection_prefix e xs _ (
      rw p (
        rw (group_at-add_to_group own own x groups, (eq_iff own own).1 refl)
          (Elem-append_right x (group_at own groups) (x ∷ []) (inl refl))))
  where
    key : String
    key = collection_name collection_prefix e.target_name e.version_id

    own : String
    own = collection_name collection_prefix x.target_name x.version_id
