-- ===== src/Reconciler/Planner/Drift.antt =====
-- When `plan` of reconciler.py finds nothing to do: "No infrastructure drift detected".
use postgres_search_replica.Prelude.{
  String, ◌≡◌, refl, ◌⊎◌, inl, inr, true, false, not, Option, none, some, List, [], ◌∷◌, arith,
  Elem, Elem-keep, keep, no_Elem, append-eq-nil, any-Elem, Bool-cases, Option-cases, concat,
  string_eq, or_else,
}
use postgres_search_replica.Prelude.Dict.{Dict, lookup, member, dedup}
use postgres_search_replica.Prelude.Effects.{ok}
use postgres_search_replica.Config.{SourceConfig, cdc, strategy_of, SearchPipeline, Settings}
use postgres_search_replica.Config.Json.{Json}
use postgres_search_replica.Config.Hash.{get_config_hash, get_version_id}
use postgres_search_replica.Reconciler.{
  sink_table_evolve, create_table, Action, Vectorizer, SinkState, SourceState,
}
use postgres_search_replica.Reconciler.Planner.Names.{
  action, store_name, view_name, trigger_name, live_target, is_target,
}
use postgres_search_replica.Reconciler.Planner.Blocks.{
  read_config_hash, publication_drift, source_actions, missing_columns, add_missing, table_actions,
  needs_recovery, recovery_actions, vectorizers_of, vectorizer_exists, vectorizer_actions,
  trigger_actions,
}
use postgres_search_replica.Reconciler.Planner.Plan.{
  is_synced, should_promote, view_actions, in_targets, same_target, cleanup_actions,
  managed_vectorizers, reachable_actions, plan_known, plan,
}
use postgres_search_replica.Reconciler.Planner.Contents.{plan-Includes}

is_target_iff : (name : String) (o : Option String) → is_target name o ≡ true → o ≡ some name
is_target_iff name none h = cc
is_target_iff name (some t) h = ground (arith, string_eq.beq_iff t name)

module _ (sink : SinkState) (name : String) (config : SearchPipeline) where
  -- every column of the configuration is in the sink table
  abbrev pub TableReady : Type 0
  TableReady =
      (cols : List String) × (lookup config.ingest.table sink.tables ≡ some cols)
      × ((c : String) → Elem c config.ingest.columns → member c cols ≡ true)

  no_missing :
      (cols : List String) (c : String)
      → missing_columns config cols ≡ []
      → Elem c config.ingest.columns
      → member c cols ≡ true
  unfolding missing_columns
  no_missing cols c h m = elim (Bool-cases (member c cols)) [
    | inl t ↦ t
    | inr f ↦ absurd (
        empty_dedup (keep (λ x. not (member x cols)) config.ingest.columns) h
          (Elem-keep (λ x. not (member x cols)) c config.ingest.columns m (rw f)))
  ]
    where
      empty_dedup : (xs : List String) → dedup xs ≡ [] → ¬ (Elem c xs)
      empty_dedup [] e k = k
      empty_dedup (x ∷ xs) e k = cc

  none_missing : (table : String) (cs : List String) → add_missing name table cs ≡ [] → cs ≡ []
  none_missing table [] e = refl
  none_missing table (c ∷ cs) e = cc

  table_ready : table_actions sink name config ≡ [] → TableReady
  unfolding table_actions
  table_ready h = elim (Option-cases (lookup config.ingest.table sink.tables)) [
    | inl n ↦ absurd (absent (rw (n, table_actions) at h))
    | inr (cols, s) ↦ (
      cols,
      s,
      λ c. no_missing cols c (none_missing config.ingest.table _ (rw (s, table_actions) at h)),
    )
  ]
    where
      absent : ¬ (action sink_table_evolve (create_table config.ingest.table) (some name) ∷ [] ≡ [])
      absent e = cc

  module _ (version : String) where
    abbrev target : String
    target = store_name config.ingest.table version

    stored :
        vectorizer_exists sink config.ingest.table target ≡ true
        → (v : Vectorizer) × Elem v (vectorizers_of sink config.ingest.table)
          × (v.target_table ≡ some target)
    unfolding vectorizer_exists
    stored h =
        let (v, m, e) =
          any-Elem (λ v. is_target target v.target_table) (vectorizers_of sink config.ingest.table)
            h in
        (v, m, is_target_iff target v.target_table e)

    -- The store of this version has a vectorizer, and its outbox trigger is attached.
    abbrev pub VectorizerReady : Type 0
    VectorizerReady =
        ((v : Vectorizer) × Elem v (vectorizers_of sink config.ingest.table)
          × (v.target_table ≡ some target))
        × (member (trigger_name name version) sink.triggers ≡ true)

    vectorizer_ready :
        vectorizer_actions sink name config.ingest.table version ≡ []
        → trigger_actions sink name config.ingest.table version ≡ []
        → VectorizerReady
    unfolding vectorizer_actions trigger_actions
    vectorizer_ready h k = (stored there, ground (arith, there))
      where
        there : vectorizer_exists sink config.ingest.table target ≡ true
        there = ground arith

    -- The view is there, and either it is on the store of this version and the stored hash is the
    -- desired one, or it stays on another store while the new one is not synced.
    abbrev pub ViewReady : String → Option String → Type 0
    ViewReady desired current =
        (member (view_name name) sink.views ≡ true)
        × (((live_target sink name ≡ some target)
              × ((lookup name sink.replica_states ≡ none) ⊎ (current ≡ some desired)))
            ⊎ (is_synced sink name config version ≡ false))

    view_ready :
        (desired : String) (current : Option String)
        → config.active ≡ true
        → view_actions sink name config version desired current ≡ []
        → ViewReady desired current
    unfolding view_actions should_promote
    view_ready desired current on h =
        ground (arith, is_target_iff target (live_target sink name), is_target_iff desired current)

  -- The slot is there, and the source is a CDC source whose publication is as desired, unless an
  -- administrator manages it.
  abbrev pub SourceReady : Settings → SourceState → Type 0
  SourceReady settings state =
      (member (concat ("sub_" ∷ name ∷ [])) (or_else state.slots []) ≡ true)
      × ((lookup config.ingest.source settings.sources ≡ none)
          ⊎ ((c : SourceConfig) × (lookup config.ingest.source settings.sources ≡ some c)
              × (strategy_of c ≡ some cdc)
              × ((publication_drift state name config ≡ false)
                  ⊎ (settings.source_managed_by_admin ≡ true))))

  source_ready :
      (settings : Settings) (state : SourceState)
      → source_actions settings state name config (lookup config.ingest.source settings.sources)
        ≡ []
      → recovery_actions state sink name (lookup config.ingest.source settings.sources) ≡ []
      → SourceReady settings state
  unfolding source_actions recovery_actions needs_recovery
  source_ready settings state h k =
      elim (Option-cases (lookup config.ingest.source settings.sources)) [
        | inl n ↦ (slot_without (rw n at k), inl n)
        | inr (c, e) ↦
            let (slot, kind, pub_) = with_source c (rw e at h) (rw e at k) in
            (slot, inr (c, e, kind, pub_))
      ]
    where
      slot_without :
          recovery_actions state sink name none ≡ []
          → member (concat ("sub_" ∷ name ∷ [])) (or_else state.slots []) ≡ true
      slot_without k = ground arith

      with_source :
          (c : SourceConfig)
          → source_actions settings state name config (some c) ≡ []
          → recovery_actions state sink name (some c) ≡ []
          → (member (concat ("sub_" ∷ name ∷ [])) (or_else state.slots []) ≡ true)
            × (strategy_of c ≡ some cdc)
            × ((publication_drift state name config ≡ false)
                ⊎ (settings.source_managed_by_admin ≡ true))
      with_source c h k = ground arith

-- The infrastructure of a pipeline, as a reconciler that finds no drift has left it.
pub record InPlace (settings : Settings) (sink : SinkState) (managed : List String) (name : String)
    (config : SearchPipeline) (state : SourceState) (version desired : String) : Type 0 where
  pub current : Option String
  pub read : read_config_hash (lookup name sink.replica_states) ≡ ok current
  pub source : (state.is_reachable ≡ false) ⊎ SourceReady sink name config settings state
  pub table : TableReady sink name config
  pub vectorizer : VectorizerReady sink name config version
  pub view : (config.active ≡ false) ⊎ ViewReady sink name config version desired current
  pub tidy :
      (v : Vectorizer)
      → Elem v (vectorizers_of sink config.ingest.table)
      → (in_targets v.target_table managed ≡ true)
        ⊎ (same_target v.target_table (live_target sink name) ≡ true)

tidy_of :
    (sink : SinkState) (managed : List String) (name : String) (vs : List Vectorizer)
    → cleanup_actions sink managed name vs ≡ []
    → (v : Vectorizer) → Elem v vs
    → (in_targets v.target_table managed ≡ true)
      ⊎ (same_target v.target_table (live_target sink name) ≡ true)
unfolding cleanup_actions
tidy_of sink managed name [] h v m = elim m [ ]
tidy_of sink managed name (w ∷ vs) h v (inl e) = rw e (ground arith)
tidy_of sink managed name (w ∷ vs) h v (inr m) =
    tidy_of sink managed name vs (append-eq-nil _ (cleanup_actions sink managed name vs) h).1 v m

reached :
    (state : SourceState) (f : SourceState → List Action)
    → state.is_reachable ≡ true
    → reachable_actions state f ≡ []
    → f state ≡ []
unfolding reachable_actions
reached state f on h = simp on at h

module _ (hexdigest : Json → String) (settings : Settings) (sources : Dict String SourceState)
    (sink : SinkState) where
  plan_known-InPlace :
      (name : String) (config : SearchPipeline) (current : Option String) (state : SourceState)
      → read_config_hash (lookup name sink.replica_states) ≡ ok current
      → plan_known hexdigest settings sources sink name config current state ≡ []
      → InPlace settings sink
          (managed_vectorizers hexdigest settings.pipelines)
          name
          config
          state
          (get_version_id hexdigest config)
          (get_config_hash hexdigest config)
  unfolding plan_known
  plan_known-InPlace name config current state read h =
      let (a, h₁) = append-eq-nil _ _ h in
      let (b, h₂) = append-eq-nil _ _ h₁ in
      let (c, h₃) = append-eq-nil _ _ h₂ in
      let (d, h₄) = append-eq-nil _ _ h₃ in
      let (e, h₅) = append-eq-nil _ _ h₄ in
      let (f, g) = append-eq-nil _ _ h₅ in
      record {
        current = current;
        read = read;
        source = elim (Bool-cases state.is_reachable) [
          | inl on ↦ inr (
              source_ready sink name config settings state (reached state _ on a)
                (reached state _ on c))
          | inr off ↦ inl off
        ];
        table = table_ready sink name config b;
        vectorizer = vectorizer_ready sink name config (get_version_id hexdigest config) d e;
        view = elim (Bool-cases config.active) [
          | inl on ↦ inr (view_ready sink name config _ _ current on f)
          | inr off ↦ inl off
        ];
        tidy =
            tidy_of sink (managed_vectorizers hexdigest settings.pipelines) name
              (vectorizers_of sink config.ingest.table) g;
      }

  -- A plan with no action means that the infrastructure of every pipeline with a known source is in
  -- place: the columns of the raw table; the vectorizer of the present version and its outbox
  -- trigger; for a reachable source the slot, and a CDC source with the desired publication or an
  -- administrator; for an active pipeline the view, on the present version or waiting for it to be
  -- synced; and no vectorizer on the table that is neither managed nor live.
  pub plan-empty-InPlace :
      (name : String) (config : SearchPipeline) (state : SourceState)
      → Elem (name, config) settings.pipelines
      → lookup config.ingest.source sources ≡ some state
      → plan hexdigest settings sources sink ≡ ok []
      → InPlace settings sink
          (managed_vectorizers hexdigest settings.pipelines)
          name
          config
          state
          (get_version_id hexdigest config)
          (get_config_hash hexdigest config)
  plan-empty-InPlace name config state m found h =
      let i = plan-Includes hexdigest settings sources sink name config state found [] m h in
      plan_known-InPlace name config i.current state i.read
        (no_Elem (plan_known hexdigest settings sources sink name config i.current state) i.all)
