-- ===== src/Teardown/Resubscribe.antt =====
-- Whether the pass of the reconciler that follows a teardown sets the sink of the target up again, and
-- with it the subscription (src/pg_replica/database.py, src/pg_replica/reconciler.py).
use mathlib.Core.Path.{subst}
use postgres_search_replica.Prelude.{
  ℕ, String, string_eq, nat_eq, ◌==◌, ◌≡◌, ◌≢◌, refl, sym, ap, ◌∙◌, inl, inr, Bool, true, false,
  ◌&&◌, none, some, List, [], ◌∷◌, arith, Elem, Elem-keep, keep-Elem, after_dot, Bool-cases,
  if◌then◌else◌,
}
use postgres_search_replica.Prelude.Dict.{member}
use postgres_search_replica.Config.{Settings}
use postgres_search_replica.Config.Json.{Json}
use postgres_search_replica.Reconciler.{sink_vectorizer_setup, Params, Vectorizer}
use postgres_search_replica.Reconciler.Planner.Names.{action, store_name, is_target, view_name}
use postgres_search_replica.Reconciler.Planner.Blocks.{vectorizer_actions}
use postgres_search_replica.Inspector.{SinkCatalog, get_sink_state}
use postgres_search_replica.Inspector.Vectorizers.{has_store, vectorizer_exists-get_sink_state}
use postgres_search_replica.Teardown.{
  Site, Servers, like, without, store_pattern, listed, drop_listed, drop_stores, teardown_sink,
  teardown_source, drop_subscription_completely,
}
use postgres_search_replica.Teardown.Dropping.{
  any-false, any-true, drop_listed-Elem, drop_listed-extensions, drop_listed-keeps,
}

module _ (servers : Servers) (target : String) where
  source-keeps : (site : Site) → (teardown_source servers target site).sink ≡ site.sink
  unfolding teardown_source
  source-keeps site = ground arith

  -- A property of a catalog that taking away the view and the stores keeps holds after the teardown.
  keeps :
      (P : SinkCatalog → Type 0) (site : Site)
      → P site.sink
      → ((views : List String)
          → P (drop_stores servers target (record (site.sink) { views = views })))
      → P (drop_subscription_completely servers target site).sink
  unfolding drop_subscription_completely teardown_sink
  keeps P site old new =
      subst P (sym (source-keeps (teardown_sink servers target site)))
        (elim (Bool-cases servers.sink_up) [ inl t ↦ rw t (new _) | inr f ↦ rw f old ])

  teardown-extensions :
      (site : Site)
      → (drop_subscription_completely servers target site).sink.extensions ≡ site.sink.extensions
  teardown-extensions site =
      keeps (λ c. c.extensions ≡ site.sink.extensions) site refl
        (λ views. elim (Bool-cases servers.vectorizers_listed) [
          | inl t ↦ rw t (
              drop_listed-extensions servers.refuses
                (listed (store_pattern target) site.sink.vectorizers)
                (record (site.sink) { views = views }))
          | inr f ↦ rw f refl
        ])

  -- a vectorizer whose name is not like the pattern stays
  teardown-keeps :
      (site : Site) (row : String × Vectorizer)
      → Elem row site.sink.vectorizers
      → like (store_pattern target) row.1.name ≡ false
      → ((r : String × Vectorizer) → Elem r site.sink.vectorizers → r.1.id ≡ row.1.id → r ≡ row)
      → Elem row (drop_subscription_completely servers target site).sink.vectorizers
  teardown-keeps site row m unlike key =
      keeps (λ c. Elem row c.vectorizers) site m
        (λ views. elim (Bool-cases servers.vectorizers_listed) [
          | inl t ↦ rw t (
              drop_listed-keeps servers.refuses row
                (listed (store_pattern target) site.sink.vectorizers)
                (record (site.sink) { views = views }) apart m)
          | inr f ↦ rw f m
        ])
    where
      apart :
          (r : String × Vectorizer)
          → Elem r (listed (store_pattern target) site.sink.vectorizers)
          → r.1.id ≢ row.1.id
      apart r k same =
          let (there, alike) =
            keep-Elem (λ x. like (store_pattern target) x.1.name) r site.sink.vectorizers k in
          cc (ap (λ x. like (store_pattern target) x.1.name) (key r there same))

  -- where the sink is up, all that are listed are tried
  teardown-listed :
      (site : Site)
      → servers.sink_up ≡ true
      → servers.vectorizers_listed ≡ true
      → (drop_subscription_completely servers target site).sink
        ≡ drop_listed servers.refuses
            (listed (store_pattern target) site.sink.vectorizers)
            (record (site.sink) { views = without (view_name target) site.sink.views })
  unfolding drop_subscription_completely teardown_sink
  teardown-listed site up readable =
      source-keeps (teardown_sink servers target site) ∙ rw (up, readable) refl

  -- where it refuses nothing too, a vectorizer that stays has another name
  teardown-Elem :
      (site : Site) (row : String × Vectorizer)
      → servers.sink_up ≡ true
      → servers.vectorizers_listed ≡ true
      → ((i : ℕ) → servers.refuses i ≡ false)
      → Elem row (drop_subscription_completely servers target site).sink.vectorizers
      → Elem row site.sink.vectorizers × (like (store_pattern target) row.1.name ≡ false)
  teardown-Elem site row up readable willing m =
      let (there, apart) =
        drop_listed-Elem servers.refuses row (listed (store_pattern target) site.sink.vectorizers)
          (record (site.sink) { views = without (view_name target) site.sink.views }) willing
          (subst (λ c. Elem row c.vectorizers) (teardown-listed site up readable) m) in
      (
        there,
        elim (Bool-cases (like (store_pattern target) row.1.name)) [
          | inr f ↦ f
          | inl t ↦ absurd (
              apart row
                (Elem-keep (λ x. like (store_pattern target) x.1.name) row site.sink.vectorizers
                  there t)
                refl)
        ],
      )

  module _ (hexdigest : Json → String) (settings : Settings) (table version : String) (site : Site)
      (loaded : member "ai" site.sink.extensions ≡ true) where
    planned :
        (b : Bool)
        → has_store table
            (store_name table version)
            (drop_subscription_completely servers target site).sink.vectorizers
          ≡ b
        → vectorizer_actions
            (get_sink_state hexdigest
              (drop_subscription_completely servers target site).sink
              settings)
            target
            table
            version
          ≡ (if b
              then []
              else action sink_vectorizer_setup (Params.vectorizer version none none) (some target)
                ∷ [])
    unfolding vectorizer_actions
    planned b h =
        ap
          (λ found.
            if found
            then []
            else action sink_vectorizer_setup (Params.vectorizer version none none) (some target)
              ∷ [])
          (vectorizer_exists-get_sink_state hexdigest
              (drop_subscription_completely servers target site).sink settings table
              (store_name table version) (ap (member "ai") (teardown-extensions site) ∙ loaded)
            ∙ h)

    -- A teardown of a target leaves a vectorizer whose name does not match `{target}_store%`, whatever the
    -- servers do. Where the sink has the extension `ai`, and that vectorizer is the store of the target's
    -- present version, the pass that follows does not plan the sink's set-up, the only place where the
    -- subscription is created.
    pub teardown-unsubscribed :
        (row : String × Vectorizer)
        → Elem row site.sink.vectorizers
        → like (store_pattern target) row.1.name ≡ false
        → ((r : String × Vectorizer) → Elem r site.sink.vectorizers → r.1.id ≡ row.1.id → r ≡ row)
        → (after_dot row.0 == table && is_target (store_name table version) row.1.target_table)
          ≡ true
        → Elem row (drop_subscription_completely servers target site).sink.vectorizers
          × (vectorizer_actions
                (get_sink_state hexdigest
                  (drop_subscription_completely servers target site).sink
                  settings)
                target
                table
                version
              ≡ [])
    teardown-unsubscribed row m unlike key store = (
      teardown-keeps site row m unlike key,
      planned true (
          any-true
            (λ r. after_dot r.0 == table && is_target (store_name table version) r.1.target_table)
            row (drop_subscription_completely servers target site).sink.vectorizers
            (teardown-keeps site row m unlike key) store),
    )

    -- Where the sink is up, has the extension `ai` and refuses nothing, and the store of the target's
    -- present version is that of vectorizers whose names match `{target}_store%`, the pass that follows a
    -- teardown plans the set-up of the sink.
    pub teardown-resubscribed :
        servers.sink_up ≡ true
        → servers.vectorizers_listed ≡ true
        → ((i : ℕ) → servers.refuses i ≡ false)
        → ((r : String × Vectorizer)
            → Elem r site.sink.vectorizers
            → (after_dot r.0 == table && is_target (store_name table version) r.1.target_table)
              ≡ true
            → like (store_pattern target) r.1.name ≡ true)
        → vectorizer_actions
            (get_sink_state hexdigest
              (drop_subscription_completely servers target site).sink
              settings)
            target
            table
            version
          ≡ action sink_vectorizer_setup (Params.vectorizer version none none) (some target) ∷ []
    teardown-resubscribed up readable willing alike = planned false (
        any-false
          (λ r. after_dot r.0 == table && is_target (store_name table version) r.1.target_table)
          (drop_subscription_completely servers target site).sink.vectorizers no_store)
      where
        no_store :
            (r : String × Vectorizer)
            → Elem r (drop_subscription_completely servers target site).sink.vectorizers
            → (after_dot r.0 == table && is_target (store_name table version) r.1.target_table)
              ≡ false
        no_store r k =
            let (there, unlike) = teardown-Elem site r up readable willing k in
            elim (Bool-cases
              (after_dot r.0 == table && is_target (store_name table version) r.1.target_table)) [
                | inr f ↦ f
                | inl t ↦ cc (alike r there t)
              ]
