-- ===== src/Sync/Sweep.antt =====
-- What the ghost cleaner of src/pg_replica/database.py deletes, and what it misses.
use Prim.Native.Nat.{min, max}
use postgres_search_replica.Prelude.{
  ℕ, zero, suc, ◌+◌, ◌-◌, ◌≤◌, ◌<◌, ◌≡◌, refl, ap, inl, inr, true, false, not, ◌&&◌, none, some,
  List, [], ◌∷◌, ◌++◌, arith, Eq, leb, nat_eq, Bool-cases, Option-cases, List-cases, if◌then◌else◌,
}
use postgres_search_replica.Prelude.Dict.{Dict, keys, lookup, member, contains, member-keep}
use postgres_search_replica.Sync.Table.{lookup-delete_any, member-keys}
use postgres_search_replica.Sync.Ghosts.{
  ghosts_among, delete_ghosts, set_sweep, between, ids_between, least, greatest, id_range, agrees,
  sweep_chunk, sweep_from, range_sweep,
}

module _ {K : Type 0} ⦃e : Eq K⦄ where
  member-ghosts_among :
      (j : K) (source_ids sink_ids : List K)
      → member j (ghosts_among source_ids sink_ids)
        ≡ (member j sink_ids && not (member j source_ids))
  unfolding ghosts_among
  member-ghosts_among j source_ids sink_ids =
      member-keep (λ k. not (member k source_ids)) j sink_ids

module _ {K V : Type 0} ⦃e : Eq K⦄ where
  lookup-delete_ghosts :
      (j : K) (ghosts : List K) (table : Dict K V)
      → lookup j (delete_ghosts ghosts table) ≡ (if member j ghosts then none else lookup j table)
  unfolding delete_ghosts
  lookup-delete_ghosts j [] table = refl
  lookup-delete_ghosts j (g ∷ gs) table = lookup-delete_any (g ∷ gs) table j

  contains_not : (j : K) (table : Dict K V) → contains j table ≡ false → lookup j table ≡ none
  contains_not j table h = elim (Option-cases (lookup j table)) [
    | inl n ↦ n
    | inr (v, s) ↦ ground (arith, s)
  ]

  -- After the comparison of the whole sets, the sink has a row exactly where it had one and the
  -- source has the id, and then it is the old row.
  pub lookup-set_sweep :
      (j : K) (source_ids : List K) (table : Dict K V)
      → lookup j (set_sweep source_ids table)
        ≡ (if member j source_ids then lookup j table else none)
  unfolding set_sweep
  lookup-set_sweep j source_ids table = ground (
    arith,
    lookup-delete_ghosts j (ghosts_among source_ids (keys table)) table,
    member-ghosts_among j source_ids (keys table),
    member-keys table j,
    contains_not j table,
  )

module _ {C V : Type 0} ⦃ec : Eq C⦄ (checksum : List ℕ → C) (source : List ℕ) where
  lookup-sweep_chunk :
      (j start stop : ℕ) (table : Dict ℕ V)
      → lookup j (sweep_chunk checksum source start stop table) ≡ (
          if agrees checksum source start stop table
          then lookup j table
          else if between start stop j && not (member j source)
          then none
          else lookup j table)
  unfolding sweep_chunk
  lookup-sweep_chunk j start stop table = ground (
    arith,
    lookup-delete_ghosts j
        (ghosts_among (ids_between start stop source) (ids_between start stop (keys table))) table,
    member-ghosts_among j (ids_between start stop source) (ids_between start stop (keys table)),
    member-keep (between start stop) j source,
    member-keep (between start stop) j (keys table),
    member-keys table j,
    contains_not j table,
  )

  sweep_from-keeps :
      (j chunk rounds start last : ℕ) (table : Dict ℕ V)
      → member j source ≡ true
      → lookup j (sweep_from checksum source chunk rounds start last table) ≡ lookup j table
  unfolding sweep_from
  sweep_from-keeps j chunk zero start last table h = refl
  sweep_from-keeps j chunk (suc rounds) start last table h =
      let next = sweep_chunk checksum source start (start + chunk) table in
      ground (
        arith,
        sweep_from-keeps j chunk rounds (start + chunk) last next h,
        lookup-sweep_chunk j start (start + chunk) table,
      )

  -- a row that is left is the old one
  sweep_from-shrinks :
      (j chunk rounds start last : ℕ) (v : V) (table : Dict ℕ V)
      → lookup j (sweep_from checksum source chunk rounds start last table) ≡ some v
      → lookup j table ≡ some v
  unfolding sweep_from
  sweep_from-shrinks j chunk zero start last v table h = h
  sweep_from-shrinks j chunk (suc rounds) start last v table h =
      let next = sweep_chunk checksum source start (start + chunk) table in
      ground (
        arith,
        h,
        sweep_from-shrinks j chunk rounds (start + chunk) last v next,
        lookup-sweep_chunk j start (start + chunk) table,
      )

-- no id outside the two ends
least-leq : (a x : ℕ) (ids : List ℕ) → member x (a ∷ ids) ≡ true → least a ids ≤ x
least-leq a x [] h = ground (arith, h)
least-leq a x (b ∷ ids) h =
    ground (arith, least-leq (min a b) x ids, least-leq (min a b) (min a b) ids, h)

leq-greatest : (a x : ℕ) (ids : List ℕ) → member x (a ∷ ids) ≡ true → x ≤ greatest a ids
leq-greatest a x [] h = ground (arith, h)
leq-greatest a x (b ∷ ids) h =
    ground (arith, leq-greatest (max a b) x ids, leq-greatest (max a b) (max a b) ids, h)

range_ends :
    (j : ℕ) (xs ys : List ℕ)
    → member j xs ≡ true
    → (a : ℕ) × (ids : List ℕ) × (id_range xs ++ id_range ys ≡ a ∷ ids)
      × (least a ids ≤ j)
      × (j ≤ greatest a ids)
range_ends j [] ys h = cc
range_ends j (x ∷ xs) ys h =
    let low = least x xs in
    let ids : List ℕ = greatest x xs ∷ id_range ys in
    (
      low,
      ids,
      refl,
      ground (arith, least-leq low low ids, least-leq x j xs h),
      ground (arith, leq-greatest low (greatest x xs) ids, leq-greatest x j xs h),
    )

-- where the range of a round of the sweep begins
abbrev pub round_start : ℕ → ℕ → ℕ → ℕ
round_start chunk zero start = start
round_start chunk (suc i) start = round_start chunk i (start + chunk)

module _ {C V : Type 0} ⦃ec : Eq C⦄ (checksum : List ℕ → C) (source : List ℕ) where
  -- the sink's table after a number of rounds from `start`
  abbrev pub after_rounds : ℕ → ℕ → ℕ → Dict ℕ V → Dict ℕ V
  after_rounds chunk zero start table = table
  after_rounds chunk (suc i) start table =
      after_rounds chunk i (start + chunk) (sweep_chunk checksum source start (start + chunk) table)

  -- A round of the sweep from `first` whose range holds `j`, and in which the counts and checksums of
  -- the source and of the sink's table, as the rounds before have left it, agree; the table still has
  -- `v` under `j` then.
  abbrev pub BlindSpot : ℕ → ℕ → ℕ → V → Dict ℕ V → Type 0
  BlindSpot chunk first j v table =
      (i : ℕ) × (between (round_start chunk i first) (round_start chunk i first + chunk) j ≡ true)
      × (agrees checksum source (round_start chunk i first) (round_start chunk i first + chunk)
            (after_rounds chunk i first table)
          ≡ true)
      × (lookup j (after_rounds chunk i first table) ≡ some v)

  sweep_from-survivor :
      (j chunk rounds start last : ℕ) (v : V) (table : Dict ℕ V)
      → member j source ≡ false
      → 1 ≤ chunk
      → start ≤ j
      → j ≤ last
      → last - start < rounds
      → lookup j (sweep_from checksum source chunk rounds start last table) ≡ some v
      → BlindSpot chunk start j v table
  unfolding sweep_from
  sweep_from-survivor j chunk zero start last v table ghost c low high fuel h =
      absurd (omega (arith, fuel))
  sweep_from-survivor j chunk (suc rounds) start last v table ghost c low high fuel h =
      let next = sweep_chunk checksum source start (start + chunk) table in
      let rest = sweep_from checksum source chunk rounds (start + chunk) last next in
      let h2 : lookup j rest ≡ some v = ground (arith, h) in
      elim (Bool-cases (leb j (start + chunk))) [
        | inr f ↦
            let (i, near, same, there) =
              sweep_from-survivor j chunk rounds (start + chunk) last v next ghost c (ground arith)
                high (ground arith) h2 in
            (suc i, near, same, there)
        | inl t ↦ (
          0,
          ground (arith, low),
          ground (
            arith,
            lookup-sweep_chunk checksum source j start (start + chunk) table,
            sweep_from-shrinks checksum source j chunk rounds (start + chunk) last v next h2,
            low,
          ),
          ground (
            arith,
            lookup-sweep_chunk checksum source j start (start + chunk) table,
            sweep_from-shrinks checksum source j chunk rounds (start + chunk) last v next h2,
          ),
        )
      ]

  -- The sweep by ranges never deletes or changes a row whose id the source has.
  pub range_sweep-keeps :
      (j chunk : ℕ) (table : Dict ℕ V)
      → member j source ≡ true
      → lookup j (range_sweep checksum source chunk table) ≡ lookup j table
  unfolding range_sweep
  range_sweep-keeps j chunk table h = elim (List-cases (id_range (keys table) ++ id_range source)) [
    | inl e ↦ rw (e, range_sweep) refl
    | inr (a, ids, e) ↦
        rw (e, range_sweep)
          (sweep_from-keeps checksum source j chunk (suc (greatest a ids - least a ids))
            (least a ids) (greatest a ids) table h)
  ]

  range_sweep-shrinks :
      (j chunk : ℕ) (v : V) (table : Dict ℕ V)
      → lookup j (range_sweep checksum source chunk table) ≡ some v
      → lookup j table ≡ some v
  unfolding range_sweep
  range_sweep-shrinks j chunk v table h =
      elim (List-cases (id_range (keys table) ++ id_range source)) [
        | inl e ↦ rw (e, range_sweep) at h
        | inr (a, ids, e) ↦
            sweep_from-shrinks checksum source j chunk (suc (greatest a ids - least a ids))
              (least a ids) (greatest a ids) v table (rw (e, range_sweep) at h)
      ]

  -- A ghost that the sweep by ranges leaves behind lies in the range of one of its rounds, counted
  -- from the least id of the two sides, in which the counts and the checksums of the source and of the
  -- sink's table, as the rounds before had left it, agreed, for every chunk size above 0.
  pub range_sweep-survivor :
      (j chunk : ℕ) (v : V) (table : Dict ℕ V)
      → 1 ≤ chunk
      → member j source ≡ false
      → lookup j (range_sweep checksum source chunk table) ≡ some v
      → (a : ℕ) × (ids : List ℕ) × (id_range (keys table) ++ id_range source ≡ a ∷ ids)
        × BlindSpot chunk (least a ids) j v table
  unfolding range_sweep
  range_sweep-survivor j chunk v table c ghost h =
      let old = range_sweep-shrinks j chunk v table h in
      let (a, ids, e, low, high) =
        range_ends j (keys table) source (ground (arith, old, member-keys table j)) in
      (
        a,
        ids,
        e,
        sweep_from-survivor j chunk (suc (greatest a ids - least a ids)) (least a ids)
            (greatest a ids) v table ghost c low high (omega arith) (rw (e, range_sweep) at h),
      )

  -- Where an agreement of count and checksum never hides a ghost, the sweep by ranges leaves, under
  -- every key, what the comparison of the whole sets leaves.
  pub range_sweep-eq-set_sweep :
      (j chunk : ℕ) (table : Dict ℕ V)
      → 1 ≤ chunk
      → ((start : ℕ) (t : Dict ℕ V)
          → agrees checksum source start (start + chunk) t ≡ true
          → ghosts_among
              (ids_between start (start + chunk) source)
              (ids_between start (start + chunk) (keys t))
            ≡ [])
      → lookup j (range_sweep checksum source chunk table) ≡ lookup j (set_sweep source table)
  range_sweep-eq-set_sweep j chunk table c honest = elim (Bool-cases (member j source)) [
    | inl t ↦ ground (arith, range_sweep-keeps j chunk table t, lookup-set_sweep j source table)
    | inr f ↦ elim (Option-cases (lookup j (range_sweep checksum source chunk table))) [
      | inl n ↦ ground (arith, n, lookup-set_sweep j source table)
      | inr (v, s) ↦
          let (a, ids, e, (i, near, same, old)) = range_sweep-survivor j chunk v table c f s in
          let first = round_start chunk i (least a ids) in
          let left = after_rounds chunk i (least a ids) table in
          absurd (no_ghost first left v near old f (honest first left same))
    ]
  ]
    where
      no_ghost :
          (start : ℕ) (t : Dict ℕ V) (v : V)
          → between start (start + chunk) j ≡ true
          → lookup j t ≡ some v
          → member j source ≡ false
          → ghosts_among
              (ids_between start (start + chunk) source)
              (ids_between start (start + chunk) (keys t))
            ≡ []
          → ⊥
      no_ghost start t v near old f none_left = ground (
        arith,
        ap (member j) none_left,
        member-ghosts_among j (ids_between start (start + chunk) source)
            (ids_between start (start + chunk) (keys t)),
        member-keep (between start (start + chunk)) j source,
        member-keep (between start (start + chunk)) j (keys t),
        member-keys t j,
        near,
      )
