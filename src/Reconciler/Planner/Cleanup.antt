-- ===== src/Reconciler/Planner/Cleanup.antt =====
-- What `plan` of reconciler.py cleans up: exactly the orphaned vectorizers of each raw table.
use postgres_search_replica.Prelude.{
  String, ◌≡◌, ◌≢◌, refl, sym, ap, ◌∙◌, inl, inr, Bool, true, false, not, ◌&&◌, Option, none, some,
  List, [], ◌∷◌, arith, Elem, All, All-Elem, All-imp, Elem-append_right, Bool-cases, string_eq,
  &&-true,
}
use postgres_search_replica.Prelude.Dict.{Dict, lookup}
use postgres_search_replica.Prelude.Effects.{ok}
use postgres_search_replica.Config.{SearchPipeline, Settings}
use postgres_search_replica.Config.Json.{Json}
use postgres_search_replica.Reconciler.{
  ActionType, source_setup, sink_table_evolve, sink_vectorizer_setup, sink_recovery,
  sink_cache_setup, sink_table_cleanup, sink_outbox_setup, orphan, Action, Vectorizer, SinkState,
  SourceState,
}
use postgres_search_replica.Reconciler.Planner.Names.{action, live_target}
use postgres_search_replica.Reconciler.Planner.Blocks.{
  state_table_actions, outbox_actions, vectorizers_of,
}
use postgres_search_replica.Reconciler.Planner.Plan.{
  view_actions, same_target, in_targets, cleanup_actions, managed_vectorizers, plan_known, plan,
}
use postgres_search_replica.Reconciler.Planner.Shape.{Emits, plan_known-All, plan-All}
use postgres_search_replica.Reconciler.Planner.Contents.{plan-Includes, plan_known_ends}

same_target_iff : (a b : Option String) → same_target a b ≡ false → a ≢ b
same_target_iff a b h e = ground (arith, same_target-refl b)
  where
    same_target-refl : (o : Option String) → same_target o o ≡ true
    same_target-refl none = refl
    same_target-refl (some t) = (string_eq.beq_iff t t).1 refl

differs : (a b : Option String) → a ≢ b → same_target a b ≡ false
differs none none h = absurd (h refl)
differs none (some t) h = refl
differs (some s) none h = refl
differs (some s) (some t) h = elim (Bool-cases (same_target (some s) (some t))) [
  | inl e ↦ absurd (h (ap some (sym ((string_eq.beq_iff t s).0 e))))
  | inr e ↦ e
]

-- The vectorizer is on the raw table, no pipeline or branch of the settings manages its store, and
-- the search view of the pipeline does not use it.
pub record IsOrphan (sink : SinkState) (managed : List String) (name table : String)
    (v : Vectorizer) : Type 0 where
  pub present : Elem v (vectorizers_of sink table)
  pub unmanaged : in_targets v.target_table managed ≡ false
  pub offline : v.target_table ≢ live_target sink name

abbrev pub cleanup_of : String → Vectorizer → Action
cleanup_of name v = action sink_table_cleanup (orphan v.id v.target_table) (some name)

-- The clean-up action of an orphan on the table of a pipeline of the settings.
pub record Cleans (hexdigest : Json → String) (settings : Settings) (sink : SinkState) (a : Action)
    : Type 0 where
  pub name : String
  pub config : SearchPipeline
  pub vectorizer : Vectorizer
  pub known : Elem (name, config) settings.pipelines
  pub same : a ≡ cleanup_of name vectorizer
  pub orphaned :
      IsOrphan sink
        (managed_vectorizers hexdigest settings.pipelines)
        name
        config.ingest.table
        vectorizer

not-false : (a : Bool) → not a ≡ true → a ≡ false
not-false a h = ground arith

module _ (sink : SinkState) (managed : List String) (name : String) where
  cleanup_actions_sound :
      (vs : List Vectorizer)
      → All
          (λ a.
            (v : Vectorizer) × (a ≡ cleanup_of name v)
            × Elem v vs
            × (in_targets v.target_table managed ≡ false)
            × (v.target_table ≢ live_target sink name))
          (cleanup_actions sink managed name vs)
  unfolding cleanup_actions
  cleanup_actions_sound [] = tt
  cleanup_actions_sound (v ∷ vs) =
      let managed? : Bool = not (in_targets v.target_table managed) in
      let offline? : Bool = not (same_target v.target_table (live_target sink name)) in
      let rest = All-imp (λ a (w, e, m, u, o). (w, e, inr m, u, o)) _ (cleanup_actions_sound vs) in
      elim (Bool-cases (managed? && offline?)) [
        | inr f ↦ rw f rest
        | inl t ↦
            let (u, o) = &&-true managed? offline? t in
            rw t ((v, refl, inl refl, not-false _ u, same_target_iff _ _ (not-false _ o)), rest)
      ]

  cleanup_actions_complete :
      (v : Vectorizer) (vs : List Vectorizer)
      → Elem v vs
      → in_targets v.target_table managed ≡ false
      → same_target v.target_table (live_target sink name) ≡ false
      → Elem (cleanup_of name v) (cleanup_actions sink managed name vs)
  unfolding cleanup_actions
  cleanup_actions_complete v [] m u o = elim m [ ]
  cleanup_actions_complete v (w ∷ vs) (inl e) u o = rw (← e) (rw (u, o) (inl refl))
  cleanup_actions_complete v (w ∷ vs) (inr m) u o =
      Elem-append_right (cleanup_of name v) _ _ (cleanup_actions_complete v vs m u o)

module _ (hexdigest : Json → String) (settings : Settings) (sources : Dict String SourceState)
    (sink : SinkState) where
  abbrev Fine : Action → Type 0
  Fine a = a.type ≡ sink_table_cleanup → Cleans hexdigest settings sink a

  other_kind :
      (t : ActionType) (name : String)
      → t ≢ sink_table_cleanup
      → (a : Action) → Emits t name a
      → Fine a
  other_kind t name ne a e v = absurd (ne (sym e.kind ∙ v))

  view_actions-Fine :
      (name : String) (config : SearchPipeline) (version desired : String) (current : Option String)
      → All Fine (view_actions sink name config version desired current)
  unfolding view_actions
  view_actions-Fine name config version desired current = ground arith

  cleanup_steps :
      (actions : List Action) → plan hexdigest settings sources sink ≡ ok actions → All Fine actions
  cleanup_steps actions h =
      plan-All hexdigest settings sources sink Fine actions h
        (globals (lookup "_replica_state" sink.tables)) (unfold outbox_actions in ground arith)
        λ name config m. (
          other_kind sink_cache_setup name (λ e. cc),
          λ current state r.
              plan_known-All hexdigest settings sources sink Fine name config current state
                (other_kind source_setup name (λ e. cc))
                (other_kind sink_table_evolve name (λ e. cc))
                (other_kind sink_recovery name (λ e. cc))
                (other_kind sink_vectorizer_setup name (λ e. cc))
                (other_kind sink_outbox_setup name (λ e. cc))
                (view_actions-Fine name config _ _ current)
                (All-imp
                  (λ a (v, e, p, u, o) _. record {
                    name = name;
                    config = config;
                    vectorizer = v;
                    known = m;
                    same = e;
                    orphaned = record { present = p; unmanaged = u; offline = o };
                  })
                  _
                  (cleanup_actions_sound sink (managed_vectorizers hexdigest settings.pipelines)
                    name (vectorizers_of sink config.ingest.table))),
        )
    where
      globals : (o : Option (List String)) → All Fine (state_table_actions o)
      globals o = unfold state_table_actions in ground arith

  -- Every clean-up action of a plan is that of an orphan: a vectorizer on the raw table of some
  -- pipeline, whose store no pipeline or branch of the settings manages, and which is not the live
  -- target of that pipeline's search view.
  pub plan-Cleans :
      (actions : List Action) (a : Action)
      → plan hexdigest settings sources sink ≡ ok actions
      → Elem a actions
      → a.type ≡ sink_table_cleanup
      → Cleans hexdigest settings sink a
  plan-Cleans actions a h m = All-Elem Fine a actions (cleanup_steps actions h) m

  -- A plan cleans up every orphan on the raw table of a pipeline whose source is known, also one
  -- that the view of another pipeline or of a branch uses.
  pub plan_cleans_orphans :
      (name : String) (config : SearchPipeline) (state : SourceState) (v : Vectorizer)
      (actions : List Action)
      → Elem (name, config) settings.pipelines
      → lookup config.ingest.source sources ≡ some state
      → IsOrphan sink (managed_vectorizers hexdigest settings.pipelines) name config.ingest.table v
      → plan hexdigest settings sources sink ≡ ok actions
      → Elem (cleanup_of name v) actions
  plan_cleans_orphans name config state v actions m found orphaned h =
      let i = plan-Includes hexdigest settings sources sink name config state found actions m h in
      i.all (cleanup_of name v) (in_body i.current)
    where
      managed : List String
      managed = managed_vectorizers hexdigest settings.pipelines

      in_body :
          (current : Option String)
          → Elem
              (cleanup_of name v)
              (plan_known hexdigest settings sources sink name config current state)
      in_body current =
          plan_known_ends hexdigest settings sources sink name config current state
            (cleanup_of name v)
            (cleanup_actions_complete sink managed name v (vectorizers_of sink config.ingest.table)
              orphaned.present orphaned.unmanaged (differs _ _ orphaned.offline))
