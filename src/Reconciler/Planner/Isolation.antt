-- ===== src/Reconciler/Planner/Isolation.antt =====
-- What `_expand_branches` of reconciler.py touches: the shadow targets of the branches alone.
use postgres_search_replica.Prelude.{
  String, ◌≡◌, refl, inl, inr, Bool, true, false, not, ◌||◌, some, List, [], ◌∷◌, Elem,
  Elem-append_left, Elem-append_right, All, All-append, All-Elem, All-imp, if-All, string_eq,
  Bool-cases,
}
use mathlib.Core.Path.{subst}
use postgres_search_replica.Prelude.Dict.{Dict, lookup, contains, member, member-Elem}
use postgres_search_replica.Prelude.Effects.{ok, >>=-eq-ok, ok_inj}
use postgres_search_replica.Config.{BranchConfig, SearchPipeline}
use postgres_search_replica.Config.Json.{Json, relevant_config}
use postgres_search_replica.Config.Hash.{get_config_hash, get_version_id}
use postgres_search_replica.Reconciler.{
  ActionType, source_setup, sink_table_evolve, sink_vectorizer_setup, sink_view_setup, Params,
  create_table, Action, SinkState, SourceState,
}
use postgres_search_replica.Reconciler.Planner.Names.{
  store_name, view_name, branch_name, live_target, is_target,
}
use postgres_search_replica.Reconciler.Planner.Blocks.{vectorizer_exists}
use postgres_search_replica.Reconciler.Planner.Plan.{managed_branches, managed_vectorizers}
use postgres_search_replica.Reconciler.Planner.Branches.{
  shadow_of, shadow_action, needs_branch_pub, branch_source_actions, branch_table_actions,
  branch_vectorizer_actions, branch_view_actions, expand_branch, expand_pipeline, expand_branches,
}

-- What an action of a branch may ask for: its source, the raw table if the sink lacks it, a vectorizer
-- on the branch's own store if the sink has none, and a view on that store.
pub data MayAsk (sink : SinkState) (store table : String) : ActionType → Params → Type 0 where
  publish : MayAsk sink store table source_setup Params.empty
  create :
      contains table sink.tables ≡ false
      → MayAsk sink store table sink_table_evolve (create_table table)
  index :
      (version pub_ : String)
      → vectorizer_exists sink table store ≡ false
      → MayAsk sink store table sink_vectorizer_setup
          (Params.vectorizer version (some store) (some pub_))
  show :
      (hash version : String)
      → MayAsk sink store table sink_view_setup (Params.view hash version (some store))

module _ (hexdigest : Json → String) where
  abbrev pub shadow_store : String → SearchPipeline → BranchConfig → String
  shadow_store name config b =
      store_name (branch_name name b) (get_version_id hexdigest (shadow_of config b))

  -- An action of one branch of one pipeline, with the branch's configuration and for its target.
  pub record IsShadow (sink : SinkState) (pipelines : Dict String SearchPipeline) (a : Action)
      : Type 0 where
    pub parent : String
    pub config : SearchPipeline
    pub branch : BranchConfig
    pub known : Elem (parent, config) pipelines
    pub declared : Elem branch config.storage.branches
    pub target : a.target_name ≡ some (branch_name parent branch)
    pub shadow : a.ephemeral_config ≡ some (shadow_of config branch)
    pub asks : MayAsk sink (shadow_store parent config branch) config.ingest.table a.type a.params

  module _ (sources : Dict String SourceState) (sink : SinkState) where
    module _ (parent : String) (config : SearchPipeline) (branch : BranchConfig) where
      -- the part of `IsShadow` that one branch gives
      abbrev Mine : Action → Type 0
      Mine a =
          (a.target_name ≡ some (branch_name parent branch))
          × (a.ephemeral_config ≡ some (shadow_of config branch))
          × MayAsk sink (shadow_store parent config branch) config.ingest.table a.type a.params

      abbrev target : String
      target = branch_name parent branch

      abbrev shadow : SearchPipeline
      shadow = shadow_of config branch

      source-Mine : (needed : Bool) → All Mine (branch_source_actions needed target shadow)
      unfolding branch_source_actions
      source-Mine true = ((refl, refl, publish), tt)
      source-Mine false = tt

      table-Mine : All Mine (branch_table_actions sink target shadow)
      unfolding branch_table_actions
      table-Mine = elim (Bool-cases (contains config.ingest.table sink.tables)) [
        | inl t ↦ rw t tt
        | inr f ↦ rw f ((refl, refl, create f), tt)
      ]

      vectorizer-Mine :
          All Mine
            (branch_vectorizer_actions sink parent target shadow (get_version_id hexdigest shadow))
      unfolding branch_vectorizer_actions
      vectorizer-Mine =
          elim (Bool-cases
            (vectorizer_exists sink config.ingest.table (shadow_store parent config branch))) [
              | inl t ↦ rw t tt
              | inr f ↦ rw f ((refl, refl, index (get_version_id hexdigest shadow) _ f), tt)
            ]

      view-Mine : All Mine (
          branch_view_actions sink target shadow
            (get_version_id hexdigest shadow)
            (get_config_hash hexdigest shadow))
      unfolding branch_view_actions
      view-Mine =
          let version = get_version_id hexdigest shadow in
          let hash = get_config_hash hexdigest shadow in
          let swap : Params = Params.view hash version (some (store_name target version)) in
          let swapped : All Mine (shadow_action sink_view_setup swap target shadow ∷ []) =
            ((refl, refl, show hash version), tt) in
          if-All Mine
            (not (member (view_name target) sink.views)
              || not (is_target (store_name target version) (live_target sink target)))
            (shadow_action sink_view_setup swap target shadow ∷ []) [] swapped tt

      expand_branch-Mine :
          (actions : List Action)
          → expand_branch hexdigest sources sink parent config branch ≡ ok actions
          → All Mine actions
      unfolding expand_branch
      expand_branch-Mine actions h =
          let (needed, _, e) =
            >>=-eq-ok
              (needs_branch_pub (lookup config.ingest.source sources) target config.ingest.table) _
              h in
          rw (← ok_inj e) (
            All-append Mine _ _ (source-Mine needed)
              (All-append Mine _ _ table-Mine (All-append Mine _ _ vectorizer-Mine view-Mine)))

    module _ (pipelines : Dict String SearchPipeline) where
      expand_pipeline-IsShadow :
          (parent : String) (config : SearchPipeline) (bs : List BranchConfig)
          (actions : List Action)
          → Elem (parent, config) pipelines
          → ((b : BranchConfig) → Elem b bs → Elem b config.storage.branches)
          → expand_pipeline hexdigest sources sink parent config bs ≡ ok actions
          → All (IsShadow sink pipelines) actions
      unfolding expand_pipeline
      expand_pipeline-IsShadow parent config [] actions m sub h = rw (← ok_inj h) tt
      expand_pipeline-IsShadow parent config (b ∷ bs) actions m sub h =
          let (here, e, h₁) =
            >>=-eq-ok (expand_branch hexdigest sources sink parent config b) _ h in
          let (more, e', h₂) =
            >>=-eq-ok (expand_pipeline hexdigest sources sink parent config bs) _ h₁ in
          rw (← ok_inj h₂) (
            All-append (IsShadow sink pipelines) here more
              (All-imp
                (λ a (t, s, k). record {
                  parent = parent;
                  config = config;
                  branch = b;
                  known = m;
                  declared = sub b (inl refl);
                  target = t;
                  shadow = s;
                  asks = k;
                })
                here (expand_branch-Mine parent config b here e))
              (expand_pipeline-IsShadow parent config bs more m (λ c n. sub c (inr n)) e'))

      expand_branches_steps :
          (rest : Dict String SearchPipeline) (actions : List Action)
          → ((name : String) (config : SearchPipeline)
              → Elem (name, config) rest
              → Elem (name, config) pipelines)
          → expand_branches hexdigest sources sink rest ≡ ok actions
          → All (IsShadow sink pipelines) actions
      unfolding expand_branches
      expand_branches_steps [] actions sub h = rw (← ok_inj h) tt
      expand_branches_steps ((name, config) ∷ rest) actions sub h =
          let (here, e, h₁) =
            >>=-eq-ok (expand_pipeline hexdigest sources sink name config config.storage.branches) _
              h in
          let (more, e', h₂) = >>=-eq-ok (expand_branches hexdigest sources sink rest) _ h₁ in
          rw (← ok_inj h₂) (
            All-append (IsShadow sink pipelines) here more
              (expand_pipeline-IsShadow name config config.storage.branches here
                (sub name config (inl refl)) (λ b n. n) e)
              (expand_branches_steps rest more (λ n c m. sub n c (inr m)) e'))

      -- Every action of the branch expansion belongs to one declared branch: it is for the branch's
      -- target, under a configuration that is the parent's with the branch's pipeline, and it
      -- asks for the publication, for the raw table where the sink does not have it, for a vectorizer on
      -- the branch's own store where the sink has none on it, or for a view on that store.
      pub expand-IsShadow :
          (actions : List Action) (a : Action)
          → expand_branches hexdigest sources sink pipelines ≡ ok actions
          → Elem a actions
          → IsShadow sink pipelines a
      expand-IsShadow actions a h m =
          All-Elem (IsShadow sink pipelines) a actions
            (expand_branches_steps pipelines actions (λ n c k. k) h) m

  branch-managed :
      (name : String) (config : SearchPipeline) (b : BranchConfig) (bs : List BranchConfig)
      → Elem b bs
      → Elem (shadow_store name config b) (managed_branches hexdigest name config bs)
  unfolding managed_branches get_version_id get_config_hash relevant_config
  branch-managed name config b [] m = elim m [ ]
  branch-managed name config b (c ∷ bs) (inl e) = rw e (inl refl)
  branch-managed name config b (c ∷ bs) (inr m) = inr (branch-managed name config b bs m)

  branch-in-managed :
      (name : String) (config : SearchPipeline) (b : BranchConfig)
      (pipelines : Dict String SearchPipeline)
      → Elem (name, config) pipelines
      → Elem b config.storage.branches
      → Elem (shadow_store name config b) (managed_vectorizers hexdigest pipelines)
  unfolding managed_vectorizers
  branch-in-managed name config b [] m k = elim m [ ]
  branch-in-managed name config b ((n, c) ∷ rest) m k =
      let own : List String =
        store_name c.ingest.table (get_version_id hexdigest c)
        ∷ managed_branches hexdigest n c c.storage.branches in
      elim m [
        | inl e ↦
            Elem-append_left (shadow_store name config b) own (managed_vectorizers hexdigest rest) (
              inr (
                subst
                  (λ p.
                    Elem (shadow_store name config b)
                      (managed_branches hexdigest p.0 p.1 p.1.storage.branches))
                  e (branch-managed name config b config.storage.branches k)))
        | inr l ↦
            Elem-append_right (shadow_store name config b) own (managed_vectorizers hexdigest rest)
              (branch-in-managed name config b rest l k)
      ]

  -- The planner protects the store of every declared branch: it is among the managed stores, which
  -- `plan` never cleans up, although the two passes build the branch's configuration apart.
  pub shadow_store-managed :
      (name : String) (config : SearchPipeline) (b : BranchConfig)
      (pipelines : Dict String SearchPipeline)
      → Elem (name, config) pipelines
      → Elem b config.storage.branches
      → member (shadow_store name config b) (managed_vectorizers hexdigest pipelines) ≡ true
  shadow_store-managed name config b pipelines m k =
      member-Elem (shadow_store name config b) (managed_vectorizers hexdigest pipelines)
        (branch-in-managed name config b pipelines m k)
