-- ===== src/Reconciler/Applier/Apply.antt =====
-- `Applier.apply` of src/pg_replica/reconciler.py, and the status that a target's generation gets
-- in the control plane. `message` is `str(e)`.
use postgres_search_replica.Prelude.{
  ℕ, zero, suc, String, string_eq, Bool, false, Option, none, some, List, [], ◌∷◌, if◌then◌else◌,
}
use postgres_search_replica.Prelude.Dict.{lookup, member}
use postgres_search_replica.Prelude.Effects.{Exn, Result, ok, err}
use postgres_search_replica.Config.{SearchPipeline, Settings, truthy}
use postgres_search_replica.Control.History.{Status, failed, History, update_config_status}
use postgres_search_replica.Reconciler.{Action}
use postgres_search_replica.Reconciler.Applier.Perform.{Operations, perform}

-- the sink and the source, and the history of configurations in the sink
pub record Plane (S J : Type 0) : Type 0 where
  pub databases : S
  pub history : History J

-- `_generation` of a pipeline; 0 and a missing one are false
abbrev pub truthy_generation : Option ℕ → Option ℕ
truthy_generation none = none
truthy_generation (some zero) = none
truthy_generation (some (suc g)) = some (suc g)

abbrev pub pipeline_generation : Option SearchPipeline → Option ℕ
pipeline_generation none = none
pipeline_generation (some c) = truthy_generation c.generation

unfoldable pub generation_of : Settings → String → Option ℕ
generation_of settings target = pipeline_generation (lookup target settings.pipelines)

-- `if gen: update_config_status(…)`, where `observed` asks for `observed_generation=gen`
unfoldable pub mark_target :
    {J : Type 0} → Settings → Status → Option String → Bool → String → History J → History J
mark_target settings status error observed target rows = elim (generation_of settings target) [
  | none ↦ rows
  | some g ↦ update_config_status target g status error (if observed then some g else none) rows
]

-- `action.target_name and action.target_name in failed_targets`
abbrev pub has_failed : Option String → List String → Bool
has_failed none failed_targets = false
has_failed (some t) failed_targets = if truthy (some t) then member t failed_targets else false

module _ {S J : Type 0} (ops : Operations S) (message : Exn → String) (settings : Settings) where
  -- the handler of an exception
  unfoldable pub note_failure :
      Exn → Option String → Plane S J → List String → Plane S J × List String
  note_failure x none w failed_targets = (w, failed_targets)
  note_failure x (some t) w failed_targets =
      if truthy (some t)
      then (
        record w { history = mark_target settings failed (some (message x)) false t w.history },
        t ∷ failed_targets,
      )
      else (w, failed_targets)

  abbrev pub after_action :
      Option String → Plane S J → List String → Result (Unit {0}) → Plane S J × List String
  after_action target w failed_targets (ok _) = (w, failed_targets)
  after_action target w failed_targets (err x) = note_failure x target w failed_targets

  -- one round of the loop
  unfoldable pub apply_one : Action → Plane S J × List String → Plane S J × List String
  apply_one a (w, failed_targets) =
      if has_failed a.target_name failed_targets
      then (w, failed_targets)
      else let (s, result) = perform ops settings a w.databases in
        after_action a.target_name (record w { databases = s }) failed_targets result

  unfoldable pub apply_from : List Action → Plane S J × List String → Plane S J × List String
  apply_from [] state = state
  apply_from (a ∷ actions) state = apply_from actions (apply_one a state)

  unfoldable pub apply : List Action → Plane S J → Plane S J × List String
  apply actions w = apply_from actions (w, [])
