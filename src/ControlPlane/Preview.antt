-- ===== src/ControlPlane/Preview.antt =====
-- What a preview by `dry_run` of src/pg_replica/observability.py does to the settings of the process.
use postgres_search_replica.Prelude.{
  ℕ, String, string_eq, ◌≡◌, ◌≢◌, ◌↔◌, refl, inl, inr, sym, ap, ◌∙◌, some, List,
}
use postgres_search_replica.Prelude.Dict.{Dict, lookup, lookup-insert_self}
use postgres_search_replica.Prelude.Effects.{Result, Result-cases, ok, err, Exn}
use postgres_search_replica.Config.{SearchPipeline, Settings}
use postgres_search_replica.Config.Json.{Json}
use postgres_search_replica.Reconciler.{Action, SinkState, SourceState}
use postgres_search_replica.ControlPlane.Endpoints.{
  Process, answered, raised, Preview, Projection, get_resource_projections, set_pipeline,
  proposed_plan, after_preview, preview, dry_run,
}
use postgres_search_replica.ControlPlane.Admission.{restored}

module _ {J : Type 0} (hexdigest : Json → String) (dump : SearchPipeline → J)
    (states : Dict String SourceState × SinkState) (row_count : Result ℕ) (target : String)
    (original config : SearchPipeline) (p : Process J)
    (known : lookup target p.settings.pipelines ≡ some original) where
  -- the handler, once the states are discovered
  dry_run-after_preview :
      (r : Result (List Action))
      → proposed_plan hexdigest dump (ok states) target config p.settings states ≡ r
      → dry_run hexdigest dump (ok states) row_count target (some config) p
        ≡ after_preview hexdigest dump (ok states) row_count target original config r p
  unfolding dry_run preview
  dry_run-after_preview r e = rw (dry_run, known, preview, e) refl

  -- where the planner raises, the proposal stays
  pub dry_run-leaks :
      (x : Exn)
      → proposed_plan hexdigest dump (ok states) target config p.settings states ≡ err x
      → dry_run hexdigest dump (ok states) row_count target (some config) p
        ≡ (record p { settings = set_pipeline target config p.settings }, raised x)
  unfolding after_preview
  dry_run-leaks x e = rw (dry_run-after_preview (err x) e) refl

  -- so it does where the source can not be counted
  pub dry_run-leaks_count :
      (actions : List Action) (x : Exn)
      → proposed_plan hexdigest dump (ok states) target config p.settings states ≡ ok actions
      → get_resource_projections row_count config ≡ err x
      → dry_run hexdigest dump (ok states) row_count target (some config) p
        ≡ (record p { settings = set_pipeline target config p.settings }, raised x)
  unfolding after_preview
  dry_run-leaks_count actions x e r =
      rw (dry_run-after_preview (ok actions) e, after_preview, r) refl

  -- where both succeed, they are the answer, and all else is as before
  pub dry_run-restores :
      (actions : List Action) (projection : Projection)
      → proposed_plan hexdigest dump (ok states) target config p.settings states ≡ ok actions
      → get_resource_projections row_count config ≡ ok projection
      → dry_run hexdigest dump (ok states) row_count target (some config) p
        ≡ (p, answered (record { actions = actions; projection = projection }))
  unfolding after_preview
  dry_run-restores actions projection e r =
      rw
        (
          dry_run-after_preview (ok actions) e,
          after_preview,
          r,
          restored target config original p.settings known,
        )
        refl

  leaked :
      config ≢ original
      → (x : Exn)
      → (((record p { settings = set_pipeline target config p.settings }).settings ≡ p.settings)
          ↔ ((a : Preview) × (raised x ≡ answered a)))
  leaked new x = (λ same. elim (new (same_config same (stays same))) [ ], λ (a, e). cc)
    where
      stays : set_pipeline target config p.settings ≡ p.settings → some config ≡ some original
      stays same =
          sym (lookup-insert_self target config p.settings.pipelines)
          ∙ ap (λ (settings : Settings). lookup target settings.pipelines) same
          ∙ known

      same_config :
          set_pipeline target config p.settings ≡ p.settings
          → some config ≡ some original
          → config ≡ original
      same_config same h = cc

  -- A preview of a target that exists, with a proposal other than its configuration and with the states
  -- discovered, leaves the settings of the process as they were exactly where it answers: where the
  -- planner or the count of the source raises, the proposal stays in the settings.
  pub dry_run_keeps_iff :
      config ≢ original
      → (((dry_run hexdigest dump (ok states) row_count target (some config) p).0.settings
            ≡ p.settings)
          ↔ ((a : Preview) × ((dry_run hexdigest dump
                  (ok states)
                  row_count
                  target
                  (some config)
                  p).1
                ≡ answered a)))
  dry_run_keeps_iff new =
      elim (Result-cases
        (proposed_plan hexdigest dump (ok states) target config p.settings states)) [
          | inl (x, e) ↦ rw (dry_run-leaks x e) (leaked new x)
          | inr (actions, e) ↦ elim (Result-cases (get_resource_projections row_count config)) [
            | inl (x, r) ↦ rw (dry_run-leaks_count actions x e r) (leaked new x)
            | inr (projection, r) ↦
                rw (dry_run-restores actions projection e r)
                  (λ h. (record { actions = actions; projection = projection }, refl), λ h. refl)
          ]
        ]
