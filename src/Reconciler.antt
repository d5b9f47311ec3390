-- ===== src/Reconciler.antt =====
-- src/pg_replica/reconciler.py: the discovered states and the actions. The texts that describe an
-- action for the log are left out; `params` is one constructor for each dictionary that the
-- planner writes.
pub mod Planner
pub mod Applier
pub mod Loop
use postgres_search_replica.Prelude.{ℕ, String, Bool, Option, List}
use postgres_search_replica.Prelude.Dict.{Dict}
use postgres_search_replica.Config.{SearchPipeline}

pub data ActionType : Type 0 where
  source_setup sink_table_evolve sink_vectorizer_setup sink_view_setup sink_state_init : ActionType
  sink_recovery sink_cache_setup sink_table_cleanup sink_outbox_setup : ActionType

pub data Params : Type 0 where
  empty : Params
  create_table : (table : String) → Params
  add_columns : (table : String) (columns : List String) → Params
  vectorizer : (version_id : String) (target_name publication_name : Option String) → Params
  outbox_trigger : (vectorizer_name trigger_name version_id : String) → Params
  view : (config_hash version_id : String) (target_name : Option String) → Params
  orphan : (id : ℕ) (target_table : Option String) → Params

pub record Action : Type 0 where
  pub type : ActionType
  pub params : Params
  pub target_name : Option String
  pub ephemeral_config : Option SearchPipeline

pub record Vectorizer : Type 0 where
  pub id : ℕ
  pub target_table : Option String
  pub view_name : Option String
  pub name : String

-- A row of _replica_state. `config_hash` is `none` where the dictionary lacks the key, because the
-- table lacks the column, and `some none` for a NULL.
pub record ReplicaState : Type 0 where
  pub last_id : Option String
  pub last_lsn : Option String
  pub config_hash : Option (Option String)

-- What `get_sink_state` of the Inspector returns. A set is the list of its elements.
pub record SinkState : Type 0 where
  pub tables : Dict String (List String)
  pub views : List String
  pub view_targets : Dict String (Option String)
  pub triggers : List String
  pub replica_states : Dict String ReplicaState
  pub vectorizers : Dict String (List Vectorizer)
  pub vectorizer_statuses : Dict String ℕ
  pub outbox_watermarks : Dict String ℕ
  pub mirror_progress : Dict (String × String) ℕ

-- What `discovery_state` of a source adapter returns. Only the CDC adapter has the keys
-- `publications` (the tables of each, with their row filters) and `slots`.
pub record SourceState : Type 0 where
  pub is_reachable : Bool
  pub publications : Option (Dict String (Dict String (Option String)))
  pub slots : Option (List String)
