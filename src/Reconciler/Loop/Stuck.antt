-- ===== src/Reconciler/Loop/Stuck.antt =====
-- `reconcile` of src/pg_replica/reconciler.py as a whole: the outcome of a pass that plans something,
-- and a pass that can never get further.
use postgres_search_replica.Prelude.{◌≡◌, refl, String, string_eq, true, Elem}
use postgres_search_replica.Prelude.Dict.{Dict}
use postgres_search_replica.Prelude.Effects.{Exn, key_error, Result, ok, err}
use postgres_search_replica.Config.{SearchPipeline, Settings}
use postgres_search_replica.Config.Json.{Json}
use postgres_search_replica.Reconciler.{SinkState, SourceState}
use postgres_search_replica.Reconciler.Planner.Errors.{HasOldRow, plan-old-row}
use postgres_search_replica.Reconciler.Applier.Perform.{Call, Operations}
use postgres_search_replica.Reconciler.Applier.Apply.{Plane}
use postgres_search_replica.Reconciler.Loop.{load_overrides, plan_all, reconcile}

module _ {S J : Type 0} (ops : Operations S) (message : Exn → String) (hexdigest : Json → String)
    (parse : J → Result SearchPipeline)
    (discover : Settings → S → Result (Dict String SourceState × SinkState)) (audit : Call S)
    (settings : Settings) (w : Plane S J) where
  abbrev pub loaded : Settings
  loaded = load_overrides parse w.history settings

  abbrev pub pass : Plane S J × Result (Unit {0})
  pass = (reconcile ops message hexdigest parse discover audit true settings w).1

  plan_all-old-row :
      (name : String) (config : SearchPipeline) (sources : Dict String SourceState)
      (sink : SinkState)
      → Elem (name, config) loaded.pipelines
      → HasOldRow sink name
      → plan_all ops message hexdigest parse discover audit loaded sources sink ≡ err key_error
  unfolding plan_all
  plan_all-old-row name config sources sink m old =
      rw (plan-old-row hexdigest loaded sources sink name config m old) refl

  -- A pass that discovers a state table with a row of some pipeline and without the column
  -- `config_hash` raises KeyError. It applies no action, so the column is not added, and the history
  -- of configurations stays as it was.
  pub reconcile-stuck :
      (name : String) (config : SearchPipeline) (sources : Dict String SourceState)
      (sink : SinkState)
      → discover loaded w.databases ≡ ok (sources, sink)
      → (audit w.databases).1 ≡ ok tt
      → Elem (name, config) loaded.pipelines
      → HasOldRow sink name
      → pass ≡ (record w { databases = (audit w.databases).0 }, err key_error)
  unfolding reconcile
  reconcile-stuck name config sources sink found audited m old =
      rw (found, audited, plan_all-old-row name config sources sink m old) refl
