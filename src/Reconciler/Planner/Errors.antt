-- ===== src/Reconciler/Planner/Errors.antt =====
-- Where `plan` and `_expand_branches` of reconciler.py raise KeyError.
use postgres_search_replica.Prelude.{
  String, ◌≡◌, ◌≢◌, refl, ◌⊎◌, inl, inr, Bool, true, false, not, ◌||◌, Option, none, some, List, [],
  ◌∷◌, arith, Elem, Bool-cases, Option-cases, string_eq, concat,
}
use mathlib.Core.Path.{subst}
use postgres_search_replica.Prelude.Dict.{Dict, lookup, contains}
use postgres_search_replica.Prelude.Effects.{Exn, Result, ok, err, key_error, ◌>>=◌}
use postgres_search_replica.Config.{BranchConfig, SearchPipeline, Settings}
use postgres_search_replica.Config.Json.{Json}
use postgres_search_replica.Reconciler.{Action, ReplicaState, SinkState, SourceState}
use postgres_search_replica.Reconciler.Planner.Blocks.{read_config_hash}
use postgres_search_replica.Reconciler.Planner.Plan.{plan_pipeline, plan_pipelines, plan}
use postgres_search_replica.Reconciler.Planner.Branches.{
  lacks_table, needs_branch_pub, expand_branch, expand_pipeline, expand_branches,
}

-- The state table has a row for the pipeline and no `config_hash` column.
pub record HasOldRow (sink : SinkState) (name : String) : Type 0 where
  pub row : ReplicaState
  pub found : lookup name sink.replica_states ≡ some row
  pub old : row.config_hash ≡ none

-- The row of the pipeline, if there is one, has the column.
abbrev pub HasNoOldRow : SinkState → String → Type 0
HasNoOldRow sink name =
    (lookup name sink.replica_states ≡ none)
    ⊎ ((row : ReplicaState) × (h : Option String) × (lookup name sink.replica_states ≡ some row)
        × (row.config_hash ≡ some h))

-- a step gives a value, or the one error
abbrev Total : {A : Type 0} → Result A → Type 0
Total {A} r = ((a : A) × (r ≡ ok a)) ⊎ (r ≡ err key_error)

same_err :
    {A B : Type 0} (x : Exn)
    → ◌≡◌ {A = Result A} (err x) (err key_error)
    → ◌≡◌ {A = Result B} (err x) (err key_error)
same_err x e = cc

bind-Total :
    {A B : Type 0} (m : Result A) (f : A → Result B)
    → Total m
    → ((a : A) → Total (f a))
    → Total (m >>= f)
bind-Total (ok a) f h k = k a
bind-Total (err x) f (inl (a, e)) k = cc
bind-Total (err x) f (inr e) k = inr (same_err x e)

bind-err :
    {A B : Type 0} (m : Result A) (f : A → Result B) → m ≡ err key_error → (m >>= f) ≡ err key_error
bind-err m f e = rw e

-- a total step after which the block raises
bind-rest-err :
    {A B : Type 0} (m : Result A) (f : A → Result B)
    → Total m
    → ((a : A) → f a ≡ err key_error)
    → (m >>= f) ≡ err key_error
bind-rest-err m f (inl (a, e)) k = rw e (k a)
bind-rest-err m f (inr e) k = rw e

abbrev Returns : {A : Type 0} → Result A → Type 0
Returns {A} r = (a : A) × (r ≡ ok a)

bind-Returns :
    {A B : Type 0} (m : Result A) (f : A → Result B)
    → Returns m
    → ((a : A) → Returns (f a))
    → Returns (m >>= f)
bind-Returns (ok a) f h k = k a
bind-Returns (err x) f (a, e) k = cc

read-Returns :
    (sink : SinkState) (name : String)
    → HasNoOldRow sink name
    → Returns (read_config_hash (lookup name sink.replica_states))
unfolding read_config_hash
read-Returns sink name (inl n) = (none, ground arith)
read-Returns sink name (inr (row, h, found, has)) = (h, ground arith)

read-Total : (o : Option ReplicaState) → Total (read_config_hash o)
unfolding read_config_hash
read-Total none = inl (none, refl)
read-Total (some r) = elim (Option-cases r.config_hash) [
  | inl n ↦ inr (simp n)
  | inr (h, e) ↦ inl (h, simp e)
]

module _ (hexdigest : Json → String) (settings : Settings) (sources : Dict String SourceState)
    (sink : SinkState) where
  old_row_raises :
      (name : String) (config : SearchPipeline)
      → HasOldRow sink name
      → plan_pipeline hexdigest settings sources sink name config ≡ err key_error
  unfolding plan_pipeline read_config_hash
  old_row_raises name config h = ground (arith, h.found, h.old)

  plan_pipeline-Total :
      (name : String) (config : SearchPipeline)
      → Total (plan_pipeline hexdigest settings sources sink name config)
  unfolding plan_pipeline
  plan_pipeline-Total name config =
      bind-Total _ _ (read-Total (lookup name sink.replica_states)) (λ h. inl (_, refl))

  plan_pipelines-old :
      (added : Bool) (pipelines : Dict String SearchPipeline) (name : String)
      (config : SearchPipeline)
      → Elem (name, config) pipelines
      → HasOldRow sink name
      → plan_pipelines hexdigest settings sources sink added pipelines ≡ err key_error
  unfolding plan_pipelines
  plan_pipelines-old added [] name config m h = elim m [ ]
  plan_pipelines-old added ((n, c) ∷ rest) name config (inl e) h = bind-err _ _ (
      subst (λ p. plan_pipeline hexdigest settings sources sink p.0 p.1 ≡ err key_error) e
        (old_row_raises name config h))
  plan_pipelines-old added ((n, c) ∷ rest) name config (inr m) h =
      let later =
        plan_pipelines-old (added || not (contains "_embedding_cache" sink.tables)) rest name config
          m h in
      bind-rest-err _ _ (plan_pipeline-Total n c) (λ here. bind-err _ _ later)

  -- Planning raises KeyError whenever the state table has a row of some pipeline and still lacks the
  -- column `config_hash`, whatever else is true of the states and the settings.
  pub plan-old-row :
      (name : String) (config : SearchPipeline)
      → Elem (name, config) settings.pipelines
      → HasOldRow sink name
      → plan hexdigest settings sources sink ≡ err key_error
  unfolding plan
  plan-old-row name config m h =
      bind-err _ _ (plan_pipelines-old false settings.pipelines name config m h)

  plan_pipelines-Returns :
      (added : Bool) (pipelines : Dict String SearchPipeline)
      → ((name : String) (config : SearchPipeline)
          → Elem (name, config) pipelines
          → HasNoOldRow sink name)
      → Returns (plan_pipelines hexdigest settings sources sink added pipelines)
  unfolding plan_pipelines plan_pipeline
  plan_pipelines-Returns added [] h = ([], refl)
  plan_pipelines-Returns added ((n, c) ∷ rest) h =
      let later =
        plan_pipelines-Returns (added || not (contains "_embedding_cache" sink.tables)) rest
          (λ name config m. h name config (inr m)) in
      bind-Returns _ _ (bind-Returns _ _ (read-Returns sink n (h n c (inl refl))) (λ a. (_, refl)))
        (λ here. bind-Returns _ _ later (λ more. (_, refl)))

  -- Planning returns a list of actions whenever no pipeline has a row without the column.
  pub plan-Returns :
      ((name : String) (config : SearchPipeline)
        → Elem (name, config) settings.pipelines
        → HasNoOldRow sink name)
      → (actions : List Action) × (plan hexdigest settings sources sink ≡ ok actions)
  unfolding plan
  plan-Returns h =
      bind-Returns _ _ (plan_pipelines-Returns false settings.pipelines h) (λ rest. (_, refl))

-- A source that was reached and whose state has no publications: any that is not a CDC source.
pub record HasNoPublications (sources : Dict String SourceState) (source : String) : Type 0 where
  pub state : SourceState
  pub found : lookup source sources ≡ some state
  pub up : state.is_reachable ≡ true
  pub bare : state.publications ≡ none

module _ (hexdigest : Json → String) (sources : Dict String SourceState) (sink : SinkState) where
  needs-Total :
      (o : Option SourceState) (target table : String) → Total (needs_branch_pub o target table)
  unfolding needs_branch_pub
  needs-Total none target table = inl (true, refl)
  needs-Total (some s) target table = elim (Bool-cases s.is_reachable) [
    | inr off ↦ inl (true, ground arith)
    | inl on ↦ elim (Option-cases s.publications) [
      | inl n ↦ inr (ground arith)
      | inr (pubs, e) ↦
          inl (lacks_table table (lookup (concat ("pub_" ∷ target ∷ [])) pubs), simp (on, e))
    ]
  ]

  expand_branch-Total :
      (name : String) (config : SearchPipeline) (b : BranchConfig)
      → Total (expand_branch hexdigest sources sink name config b)
  unfolding expand_branch
  expand_branch-Total name config b =
      bind-Total _ _ (needs-Total (lookup config.ingest.source sources) _ _)
        (λ needed. inl (_, refl))

  expand_pipeline-Total :
      (name : String) (config : SearchPipeline) (bs : List BranchConfig)
      → Total (expand_pipeline hexdigest sources sink name config bs)
  unfolding expand_pipeline
  expand_pipeline-Total name config [] = inl ([], refl)
  expand_pipeline-Total name config (b ∷ bs) =
      bind-Total _ _ (expand_branch-Total name config b)
        (λ here. bind-Total _ _ (expand_pipeline-Total name config bs) (λ more. inl (_, refl)))

  bare_branch_raises :
      (name : String) (config : SearchPipeline) (b : BranchConfig)
      → HasNoPublications sources config.ingest.source
      → expand_branch hexdigest sources sink name config b ≡ err key_error
  unfolding expand_branch needs_branch_pub
  bare_branch_raises name config b h = ground (arith, h.found, h.up, h.bare)

  -- Branch expansion raises KeyError whenever some pipeline with a branch reads from a source that
  -- was reached and whose state has no publications: a polling, a local or an S3 source.
  pub expand-bare-source :
      (pipelines : Dict String SearchPipeline) (name : String) (config : SearchPipeline)
      → Elem (name, config) pipelines
      → config.storage.branches ≢ []
      → HasNoPublications sources config.ingest.source
      → expand_branches hexdigest sources sink pipelines ≡ err key_error
  unfolding expand_branches
  expand-bare-source [] name config m ne h = elim m [ ]
  expand-bare-source ((n, c) ∷ rest) name config (inl e) ne h = bind-err _ _ (
      subst
        (λ p. expand_pipeline hexdigest sources sink p.0 p.1 p.1.storage.branches ≡ err key_error) e
        (first config.storage.branches ne))
    where
      first :
          (bs : List BranchConfig)
          → bs ≢ []
          → expand_pipeline hexdigest sources sink name config bs ≡ err key_error
      first [] ne = absurd (ne refl)
      first (b ∷ bs) ne =
          unfold expand_pipeline in bind-err _ _ (bare_branch_raises name config b h)
  expand-bare-source ((n, c) ∷ rest) name config (inr m) ne h =
      bind-rest-err _ _ (expand_pipeline-Total n c c.storage.branches)
        (λ here. bind-err _ _ (expand-bare-source rest name config m ne h))
