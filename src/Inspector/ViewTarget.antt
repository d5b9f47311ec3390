-- ===== src/Inspector/ViewTarget.antt =====
-- The relation that `get_sink_state` of src/pg_replica/reconciler.py takes a search view to point to.
use postgres_search_replica.Prelude.{
  String, string_eq, ◌≡◌, ◌≢◌, refl, ap, ◌∙◌, true, false, Option, none, some, or_else, List, [],
  ◌∷◌, ◌++◌, arith, eq_iff, All, Bool-cases, inl, inr, has, ◌&&◌, if◌then◌else◌, Bool, concat,
  ends_with,
}
use postgres_search_replica.Prelude.Dict.{
  Dict, lookup, insert, member, lookup-insert, lookup-insert_self,
}
use postgres_search_replica.Config.{SearchPipeline, Settings}
use postgres_search_replica.Config.Json.{Json}
use postgres_search_replica.Config.Hash.{get_version_id}
use postgres_search_replica.Reconciler.Planner.Names.{view_name, live_target}
use postgres_search_replica.Inspector.{
  SinkCatalog, first, view_target, view_targets_of, all_targets, get_sink_state,
}

-- no text of the list is named like a store
abbrev pub NoStores : List String → Type 0
NoStores = All (λ t. (has "_store_" t ≡ false) × (has "_store_v" t ≡ false))

first-none :
    (p : String → Bool) (rows : List String) → All (λ t. p t ≡ false) rows → first p rows ≡ none
first-none p [] h = refl
first-none p (t ∷ rows) h = rw h.0 (first-none p rows h.1)

no_versions :
    (v : String) (rows : List String)
    → NoStores rows
    → All (λ t. (ends_with v t && has "_store_" t) ≡ false) rows
no_versions v [] h = tt
no_versions v (t ∷ rows) h = (ground (arith, h.0.0, ends_with v t), no_versions v rows h.1)

no_stores : (rows : List String) → NoStores rows → All (λ t. has "_store_v" t ≡ false) rows
no_stores [] h = tt
no_stores (t ∷ rows) h = (h.0.1, no_stores rows h.1)

pub view_target-first :
    (version t : String) (rows : List String)
    → NoStores (t ∷ rows)
    → view_target version (t ∷ rows) ≡ some t
unfolding view_target
view_target-first version t rows h =
    rw
      (
        first-none _ (t ∷ rows) (no_versions (concat ("_v" ∷ version ∷ [])) (t ∷ rows) h),
        first-none _ (t ∷ rows) (no_stores (t ∷ rows) h),
      )
      refl

module _ (hexdigest : Json → String) (catalog : SinkCatalog) where
  others-keep :
      (name : String) (rest : List (String × SearchPipeline)) (found : Dict String (Option String))
      → All (λ t. t.0 ≢ name) rest
      → lookup name (view_targets_of hexdigest catalog rest found) ≡ lookup name found
  unfolding view_targets_of
  others-keep name [] found h = refl
  others-keep name ((target, config) ∷ rest) found h =
      elim (Bool-cases (member (view_name target) catalog.views)) [
        | inl t ↦ rw t (
            others-keep name rest _ h.1
            ∙ ground (
              arith,
              lookup-insert target name
                  (view_target (get_version_id hexdigest config)
                    (or_else (lookup (view_name target) catalog.view_usage) []))
                  found,
              eq_iff target name,
              h.0,
            ))
        | inr f ↦ rw f (others-keep name rest found h.1)
      ]

  -- the target of the last pipeline or branch of that name
  pub lookup-view_targets_of :
      (name : String) (config : SearchPipeline) (front rest : List (String × SearchPipeline))
      (found : Dict String (Option String))
      → All (λ t. t.0 ≢ name) rest
      → member (view_name name) catalog.views ≡ true
      → lookup name (view_targets_of hexdigest catalog (front ++ (name, config) ∷ rest) found)
        ≡ some (
            view_target
              (get_version_id hexdigest config)
              (or_else (lookup (view_name name) catalog.view_usage) []))
  unfolding view_targets_of
  lookup-view_targets_of name config [] rest found h there =
      let target =
        view_target (get_version_id hexdigest config)
          (or_else (lookup (view_name name) catalog.view_usage) []) in
      others-keep name rest _ h
      ∙ ap (λ b. lookup name (if b then insert name target found else found)) there
      ∙ lookup-insert_self name target found
  lookup-view_targets_of name config ((target, c) ∷ front) rest found h there =
      lookup-view_targets_of name config front rest _ h there

  pub live_target_lem :
      (settings : Settings) (name : String) (config : SearchPipeline)
      (front rest : List (String × SearchPipeline))
      → all_targets settings.pipelines ≡ front ++ (name, config) ∷ rest
      → All (λ t. t.0 ≢ name) rest
      → member (view_name name) catalog.views ≡ true
      → live_target (get_sink_state hexdigest catalog settings) name
        ≡ view_target
            (get_version_id hexdigest config)
            (or_else (lookup (view_name name) catalog.view_usage) [])
  unfolding get_sink_state
  live_target_lem settings name config front rest targets h there =
      rw (targets, lookup-view_targets_of name config front rest [] h there) refl
