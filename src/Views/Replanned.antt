-- ===== src/Views/Replanned.antt =====
-- After a swap, discovery of src/pg_replica/reconciler.py does not find the store that was promoted, since the
-- search view reads the embedding view and not the store.
use postgres_search_replica.Prelude.{
  String, ◌≡◌, ◌≢◌, ap, ◌∙◌, inl, inr, Bool, true, false, Option, some, or_else, List, [], ◌∷◌,
  ◌++◌, All, concat, has, has-append, has-append_right,
}
use postgres_search_replica.Prelude.Effects.{ok}
use postgres_search_replica.Config.{SearchPipeline, Settings}
use postgres_search_replica.Config.Json.{Json}
use postgres_search_replica.Config.Hash.{get_version_id}
use postgres_search_replica.Reconciler.Planner.Names.{store_name, live_target}
use postgres_search_replica.Inspector.{SinkCatalog, view_target, all_targets, get_sink_state}
use postgres_search_replica.Inspector.ViewTarget.{NoStores, view_target-first, live_target_lem}
use postgres_search_replica.Views.{Statement, used, raw_table_of, embedding_view, atomic_view_swap}
use postgres_search_replica.Views.Promoted.{atomic_view_swap-Swapped}

-- a store's name has `_store_v` in it
unlike-store : (t table version : String) → has "_store_v" t ≡ false → t ≢ store_name table version
unlike-store t table version f e = cc (
  f,
  ap (has "_store_v") e,
  has-append_right "_store_v" table (concat ("_store_v" ∷ version ∷ []))
      (has-append "_store_v" (concat (version ∷ []))),
)

module _ (fails : Statement → Option String) (raw_first : Bool) (hexdigest : Json → String) where
  -- the relation that discovery reports is one of the two that the view reads
  target_of :
      (version raw view : String)
      → NoStores (raw ∷ view ∷ [])
      → (t : String) × (view_target version (used raw_first raw view) ≡ some t)
        × (has "_store_v" t ≡ false)
  target_of version raw view h = go raw_first
    where
      go :
          (b : Bool)
          → (t : String) × (view_target version (used b raw view) ≡ some t)
            × (has "_store_v" t ≡ false)
      go true = (raw, view_target-first version raw (view ∷ []) h, h.0.1)
      go false = (view, view_target-first version view (raw ∷ []) (h.1.0, (h.0, tt)), h.1.0.1)

  -- After a swap that returns, discovery finds the search view pointing to a relation that is the store
  -- of no version of the table, whatever store has been promoted, where neither the raw table nor the
  -- embedding view has a name like a store's, and no later target of the settings has the same name.
  pub swap-unfound :
      (config : SearchPipeline) (target hash : String)
      (target_table vectorizer_target : Option String) (c : SinkCatalog) (settings : Settings)
      (front rest : List (String × SearchPipeline))
      → (atomic_view_swap fails raw_first config target hash target_table vectorizer_target c).1
        ≡ ok tt
      → all_targets settings.pipelines ≡ front ++ (target, config) ∷ rest
      → All (λ t. t.0 ≢ target) rest
      → NoStores (
          raw_table_of config target_table
          ∷ embedding_view (raw_table_of config target_table) vectorizer_target c
          ∷ [])
      → (t : String) × (live_target
            (get_sink_state hexdigest
              (atomic_view_swap fails raw_first config target hash target_table vectorizer_target
                c).0
              settings)
            target
          ≡ some t)
        × ((version : String) → t ≢ store_name config.ingest.table version)
  swap-unfound config target hash target_table vectorizer_target c settings front rest done targets
        last plain =
      elim (atomic_view_swap-Swapped fails raw_first config target hash target_table
        vectorizer_target c) [
          | inr (x, raised, _) ↦ absurd (cc)
          | inl (_, swapped) ↦
              let (t, found, apart) = target_of version raw view plain in
              (
                t,
                live_target_lem hexdigest new settings target config front rest targets last
                      swapped.there
                    ∙ ap (λ rows. view_target version (or_else rows [])) swapped.reads
                    ∙ found,
                λ v. unlike-store t config.ingest.table v apart,
              )
        ]
    where
      new : SinkCatalog
      new = (atomic_view_swap fails raw_first config target hash target_table vectorizer_target c).0

      version : String
      version = get_version_id hexdigest config

      raw : String
      raw = raw_table_of config target_table

      view : String
      view = embedding_view raw vectorizer_target c
