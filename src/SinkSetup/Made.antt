-- ===== src/SinkSetup/Made.antt =====
-- The vectorizer that `setup_sink` of src/pg_replica/database.py waits for, under the behaviour of pgai that the code
-- relies on.
use postgres_search_replica.Prelude.{
  ℕ, String, string_eq, ◌==◌, ◌≡◌, refl, sym, ap, ◌∙◌, inl, inr, Bool, true, false, Option, none,
  some, List, [], ◌∷◌, ◌++◌, any, any-Elem, Elem, replace, after_dot, arith, eq_iff, Bool-cases,
}
use postgres_search_replica.Prelude.Effects.{Result, ok, err}
use postgres_search_replica.Waiting.{wait_until, wait_until-ok, is_ready}
use postgres_search_replica.Config.{Settings, SearchPipeline}
use postgres_search_replica.Reconciler.{Vectorizer}
use postgres_search_replica.Inspector.{SinkCatalog}
use postgres_search_replica.Inspector.Vectorizers.{has_store}
use postgres_search_replica.SinkSetup.Databases.{Databases, Outcome, returned, next}
use postgres_search_replica.SinkSetup.Vectorizer.{
  Call, Made, made, failed, destination_of, vectorizer_call, try_create_vectorizer, after_attempts,
  after_create, wait_vectorizer,
}

pub next-returned :
    (r : Outcome) (rest : Databases → Outcome) (end : Databases)
    → next r rest ≡ returned end
    → (middle : Databases) × (r ≡ returned middle) × (rest middle ≡ returned end)
next-returned (dbs, none) rest end h = cc
next-returned (dbs, some (err x)) rest end h = cc
next-returned (dbs, some (ok u)) rest end h = (dbs, refl, h)

-- The documented behaviour of ai.create_vectorizer with `if_not_exists`: where a vectorizer has the name,
-- nothing changes; elsewhere one is added, of the table, if its name has no dot, and with the
-- destination that are given.
pub record IsPgai (create : ℕ → Call → SinkCatalog → Made) : Type 0 where
  pub kept :
      (k : ℕ) (call : Call) (c new : SinkCatalog)
      → create k call c ≡ made new
      → any (λ r. r.1.name == call.name) c.vectorizers ≡ true
      → new ≡ c
  pub added :
      (k : ℕ) (call : Call) (c new : SinkCatalog) (store view : String)
      → create k call c ≡ made new
      → any (λ r. r.1.name == call.name) c.vectorizers ≡ false
      → after_dot call.table ≡ call.table
      → call.destination ≡ some (store, view)
      → (row : String × Vectorizer) × (new.vectorizers ≡ c.vectorizers ++ row ∷ [])
        × (after_dot row.0 ≡ call.table)
        × (row.1.target_table ≡ some store)
  pub extensions_kept :
      (k : ℕ) (call : Call) (c new : SinkCatalog)
      → create k call c ≡ made new
      → new.extensions ≡ c.extensions

same_text : (s : String) → (s == s) ≡ true
same_text s = (eq_iff s s).1 refl

has_store-Elem :
    (table name : String) (row : String × Vectorizer) (rows : List (String × Vectorizer))
    → Elem row rows
    → after_dot row.0 ≡ table
    → row.1.target_table ≡ some name
    → has_store table name rows ≡ true
has_store-Elem table name row [] m a t = elim m [ ]
has_store-Elem table name row (r ∷ rows) (inl p) a t =
    rw (sym p, a, t, same_text table, same_text name) refl
has_store-Elem table name row (r ∷ rows) (inr m) a t =
    ground (arith, has_store-Elem table name row rows m a t)

Elem-last :
    (row : String × Vectorizer) (rows : List (String × Vectorizer)) → Elem row (rows ++ row ∷ [])
Elem-last row [] = inl refl
Elem-last row (r ∷ rows) = inr (Elem-last row rows)

-- the store is there after an attempt that has succeeded
pub made-has_store :
    (create : ℕ → Call → SinkCatalog → Made)
    → IsPgai create
    → (show : ℕ → String) (settings : Settings) (config : SearchPipeline) (name : String) (k : ℕ)
      (c new : SinkCatalog)
    → after_dot config.ingest.table ≡ config.ingest.table
    → ((r : String × Vectorizer)
        → Elem r c.vectorizers
        → r.1.name ≡ name
        → (after_dot r.0 ≡ config.ingest.table) × (r.1.target_table ≡ some name))
    → create k (vectorizer_call show settings config name c) c ≡ made new
    → has_store config.ingest.table name new.vectorizers ≡ true
unfolding vectorizer_call destination_of
made-has_store create pgai show settings config name k c new plain proper h =
    elim (Bool-cases (any (λ r. r.1.name == name) c.vectorizers)) [
      | inl t ↦
          let (row, m, e) = any-Elem (λ r. r.1.name == name) c.vectorizers t in
          let (table, store) = proper row m ((eq_iff row.1.name name).0 e) in
          rw (pgai.kept k _ c new h t)
            (has_store-Elem config.ingest.table name row c.vectorizers m table store)
      | inr f ↦
          let (row, grows, table, store) =
            pgai.added k _ c new name (replace "_store" "_embedding" name) h f plain (rw f refl) in
          rw grows (
            has_store-Elem config.ingest.table name row (c.vectorizers ++ row ∷ [])
              (Elem-last row c.vectorizers) table store)
    ]

pub not_ready : (m : String) → is_ready (try_create_vectorizer (failed m)) ≡ false
unfolding try_create_vectorizer
not_ready m = ground arith

-- the vectorizer has been made, if waiting for it has returned
pub wait_vectorizer-made :
    (create : ℕ → Call → SinkCatalog → Made) (elapsed : ℕ → ℕ) (call : Call) (dbs end : Databases)
    → wait_vectorizer create elapsed call dbs ≡ returned end
    → (k : ℕ) × (create k call dbs.sink ≡ made end.sink)
unfolding wait_vectorizer
wait_vectorizer-made create elapsed call dbs end h = decided (wait_until ready elapsed 20) refl h
  where
    ready : ℕ → Result Bool
    ready k = try_create_vectorizer (create k call dbs.sink)

    is_made :
        (k : ℕ) (m : Made)
        → create k call dbs.sink ≡ m
        → is_ready (try_create_vectorizer m) ≡ true
        → create k call dbs.sink ≡ made (after_create dbs.sink m)
    is_made k (made c) e t = e
    is_made k (failed m) e t = cc (not_ready m, t)

    decided :
        (w : Option (Result ℕ))
        → wait_until ready elapsed 20 ≡ w
        → after_attempts dbs (λ k. create k call dbs.sink) w ≡ returned end
        → (k : ℕ) × (create k call dbs.sink ≡ made end.sink)
    decided none e h = cc
    decided (some (err x)) e h = cc
    decided (some (ok k)) e h = (
      k,
      is_made k (create k call dbs.sink) refl (wait_until-ok ready elapsed 20 k e)
          ∙ ap (λ (o : Outcome). made o.0.sink) h,
    )
