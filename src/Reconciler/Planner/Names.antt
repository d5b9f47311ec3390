-- ===== src/Reconciler/Planner/Names.antt =====
-- The names that the planner of reconciler.py builds, and the look-ups that it repeats.
use postgres_search_replica.Prelude.{
  String, Bool, false, Option, none, some, [], ◌∷◌, ◌==◌, string_eq, or_else, concat,
}
use postgres_search_replica.Prelude.Dict.{lookup}
use postgres_search_replica.Config.{BranchConfig}
use postgres_search_replica.Reconciler.{ActionType, Params, Action, SinkState}

abbrev pub action : ActionType → Params → Option String → Action
action type params target = record {
  type = type;
  params = params;
  target_name = target;
  ephemeral_config = none;
}

-- f"{table}_store_v{version_id}"
abbrev pub store_name : String → String → String
store_name table version = concat (table ∷ "_store_v" ∷ version ∷ [])

abbrev pub view_name : String → String
view_name name = concat (name ∷ "_search" ∷ [])

abbrev pub branch_name : String → BranchConfig → String
branch_name name branch = concat (name ∷ "_branch_" ∷ branch.name ∷ [])

abbrev pub trigger_name : String → String → String
trigger_name name version = concat ("trg_outbox_" ∷ name ∷ "_" ∷ version ∷ [])

-- `view_targets.get(name)`: an absent key and a stored None are alike.
abbrev pub live_target : SinkState → String → Option String
live_target sink name = or_else (lookup name sink.view_targets) none

abbrev pub is_target : String → Option String → Bool
is_target name none = false
is_target name (some t) = t == name
