-- ===== src/Reconciler/Applier/Skip.antt =====
-- The loop of `Applier.apply` in src/pg_replica/reconciler.py leaves a failed target alone.
use postgres_search_replica.Prelude.{◌≡◌, String, string_eq, true, not, Option, List, keep}
use postgres_search_replica.Reconciler.{Action}
use postgres_search_replica.Reconciler.Applier.Apply.{has_failed}

-- the actions that are not for a failed target
abbrev pub remaining : List String → List Action → List Action
remaining failed_targets = keep (λ a. not (has_failed a.target_name failed_targets))

-- every target that has failed before has failed after
abbrev Grows : List String → List String → Type 0
Grows before after =
    (target : Option String) → has_failed target before ≡ true → has_failed target after ≡ true
