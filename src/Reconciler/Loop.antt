-- ===== src/Reconciler/Loop.antt =====
-- `Reconciler.reconcile` of src/pg_replica/reconciler.py. The statements of the control plane succeed
-- here, so the handler around the application of the actions is never reached.
pub mod Outcome
pub mod Applied
pub mod Override
pub mod Stuck
mod Tests
use postgres_search_replica.Prelude.{
  ℕ, String, string_eq, Bool, true, false, Option, none, some, List, [], ◌∷◌, ◌++◌, map,
  if◌then◌else◌, keep, not,
}
use postgres_search_replica.Prelude.Dict.{Dict, keys, lookup, insert, member, dedup}
use postgres_search_replica.Prelude.Effects.{Exn, Result, ok, err, ◌>>=◌}
use postgres_search_replica.Config.{SearchPipeline, Settings, truthy}
use postgres_search_replica.Config.Json.{Json}
use postgres_search_replica.Control.History.{
  Status, syncing, ready, History, HistoryRow, get_latest_table_config,
}
use postgres_search_replica.Reconciler.{Action, SinkState, SourceState}
use postgres_search_replica.Reconciler.Planner.Plan.{plan}
use postgres_search_replica.Reconciler.Planner.Branches.{expand_branches}
use postgres_search_replica.Reconciler.Applier.Perform.{Call, Operations}
use postgres_search_replica.Reconciler.Applier.Apply.{Plane, mark_target, apply}

-- `{a.target_name for a in actions if a.target_name}`
abbrev pub named : Option String → List String
named none = []
named (some t) = if truthy (some t) then t ∷ [] else []

abbrev pub targets_of : List Action → List String
targets_of [] = []
targets_of (a ∷ actions) = named a.target_name ++ targets_of actions

unfoldable pub affected_targets : List Action → List String
affected_targets actions = dedup (targets_of actions)

-- SELECT DISTINCT target_name
abbrev pub db_targets : {J : Type 0} → History J → List String
db_targets rows = map (λ r. r.target_name) rows

module _ {J : Type 0} (settings : Settings) where
  unfoldable pub mark_each : Status → Bool → List String → History J → History J
  mark_each status observed [] rows = rows
  mark_each status observed (t ∷ targets) rows =
      mark_each status observed targets (mark_target settings status none observed t rows)

module _ {J : Type 0} (parse : J → Result SearchPipeline) where
  abbrev pub with_override : Settings → String → ℕ → Result SearchPipeline → Settings
  with_override settings name g (err x) = settings
  with_override settings name g (ok c) = record settings {
    pipelines = insert name (record c { generation = some g }) settings.pipelines;
  }

  -- the latest configuration of the control plane overrides the one in memory
  unfoldable pub load_override : History J → String → Settings → Settings
  load_override rows name settings = elim (get_latest_table_config name rows) [
    | none ↦ settings
    | some row ↦ with_override settings name row.generation (parse row.config_json)
  ]

  unfoldable pub load_from : History J → List String → Settings → Settings
  load_from rows [] settings = settings
  load_from rows (name ∷ names) settings = load_from rows names (load_override rows name settings)

  unfoldable pub load_overrides : History J → Settings → Settings
  load_overrides rows settings =
      load_from rows (dedup (keys settings.pipelines ++ db_targets rows)) settings

module _ {S J : Type 0} (ops : Operations S) (message : Exn → String) where
  -- 3. Application, with the generations marked before and after
  unfoldable pub apply_plan : Settings → List Action → Plane S J → Plane S J
  apply_plan settings actions w =
      let targets = affected_targets actions in
      let started : Plane S J = record w {
        history = mark_each settings syncing false targets w.history;
      } in
      let (done, failed_targets) = apply ops message settings actions started in
      record done {
        history =
            mark_each settings ready true (keep (λ t. not (member t failed_targets)) targets)
              done.history;
      }

  -- with no action, every pipeline's generation is observed
  unfoldable pub apply_actions : Settings → List Action → Plane S J → Plane S J
  apply_actions settings [] w = record w {
    history = mark_each settings ready true (keys settings.pipelines) w.history;
  }
  apply_actions settings (a ∷ actions) w = apply_plan settings (a ∷ actions) w

  module _ (hexdigest : Json → String) (parse : J → Result SearchPipeline)
      (discover : Settings → S → Result (Dict String SourceState × SinkState))
      (audit : Call S) where
    -- 2. and 2.5: the plan, with the branches expanded
    unfoldable pub plan_all : Settings → Dict String SourceState → SinkState → Result (List Action)
    plan_all settings sources sink = do
      actions ← plan hexdigest settings sources sink
      branches ← expand_branches hexdigest sources sink settings.pipelines
      ok (actions ++ branches)

    abbrev pub apply_result :
        Settings → Plane S J → Result (List Action) → Plane S J × Result (Unit {0})
    apply_result settings w (err x) = (w, err x)
    apply_result settings w (ok actions) = (apply_actions settings actions w, ok tt)

    abbrev pub after_audit :
        Settings
        → Plane S J
        → Dict String SourceState × SinkState
        → S × Result (Unit {0})
        → Plane S J × Result (Unit {0})
    after_audit settings w (sources, sink) (s, err x) = (record w { databases = s }, err x)
    after_audit settings w (sources, sink) (s, ok _) =
        apply_result settings (record w { databases = s }) (plan_all settings sources sink)

    abbrev pub after_discovery :
        Settings
        → Plane S J
        → Result (Dict String SourceState × SinkState)
        → Plane S J × Result (Unit {0})
    after_discovery settings w (err x) = (w, err x)
    after_discovery settings w (ok found) = after_audit settings w found (audit w.databases)

    -- The settings, the databases and the result; `locked` is whether the lock was acquired.
    unfoldable pub reconcile :
        Bool → Settings → Plane S J → Settings × (Plane S J × Result (Unit {0}))
    reconcile false settings w = (settings, (w, ok tt))
    reconcile true settings w =
        let loaded = load_overrides parse w.history settings in
        (loaded, after_discovery loaded w (discover loaded w.databases))
