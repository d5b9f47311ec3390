-- ===== src/ControlPlane/Endpoints.antt =====
-- The handlers `update_config` and `dry_run` of src/pg_replica/observability.py, and the projections of
-- src/pg_replica/database.py that the second one reports.
use postgres_search_replica.Prelude.{
  ℕ, ◌+◌, ◌*◌, ◌/◌, String, string_eq, Option, none, some, or_else, List, length,
}
use postgres_search_replica.Prelude.Dict.{Dict, lookup, insert}
use postgres_search_replica.Prelude.Effects.{Result, ok, err, Exn, ◌>>=◌}
use postgres_search_replica.Config.{SearchPipeline, Settings}
use postgres_search_replica.Config.Json.{Json}
use postgres_search_replica.Config.Hash.{get_config_hash, get_version_id}
use postgres_search_replica.Control.History.{History, save_table_config}
use postgres_search_replica.Reconciler.{Action, SinkState, SourceState}
use postgres_search_replica.Reconciler.Planner.Plan.{plan}

-- What is stored in the history is stored without an error; the estimate's float product is exact.
-- J is the type of stored configurations.
pub record Process (J : Type 0) : Type 0 where
  pub settings : Settings
  pub history : History J

pub data Response (A : Type 0) : Type 0 where
  answered : A → Response A
  http_error : (status : ℕ) → Response A
  raised : Exn → Response A

pub record Accepted : Type 0 where
  pub generation : ℕ
  pub config_hash : String
  pub actions_planned : ℕ

pub record Projection : Type 0 where
  pub row_count : ℕ
  pub estimated_tokens : ℕ
  pub ram_bytes : ℕ

pub record Preview : Type 0 where
  pub actions : List Action
  pub projection : Projection

-- (dim * 4 + M * 8) * rows * 1.5, as an integer; M is 16
unfoldable pub estimate_hnsw_ram : ℕ → ℕ → ℕ
estimate_hnsw_ram dimension row_count = (dimension * 4 + 16 * 8) * row_count * 3 / 2

unfoldable pub get_resource_projections : Result ℕ → SearchPipeline → Result Projection
get_resource_projections row_count config = row_count >>= λ n. ok (record {
  row_count = n;
  estimated_tokens = n * 100;
  ram_bytes = estimate_hnsw_ram config.pipeline.embedding.dimension n;
})

-- `settings.pipelines[target_name] = config`
abbrev pub set_pipeline : String → SearchPipeline → Settings → Settings
set_pipeline target config settings = record settings {
  pipelines = insert target config settings.pipelines;
}

module _ {J : Type 0} (hexdigest : Json → String) (dump : SearchPipeline → J)
    (inspect : Result (Dict String SourceState × SinkState)) where
  -- the plan with the proposal in place
  abbrev pub proposed_plan :
      String
      → SearchPipeline
      → Settings
      → Dict String SourceState × SinkState
      → Result (List Action)
  proposed_plan target config settings states =
      plan hexdigest (set_pipeline target config settings) states.0 states.1

  -- the original is put back, and then the proposal is stored if it could be planned
  unfoldable pub after_plan :
      String
      → (original config : SearchPipeline) → Result (List Action)
      → Process J
      → Process J × Response Accepted
  after_plan target original config (err x) p = (
    record p { settings = set_pipeline target original (set_pipeline target config p.settings) },
    http_error 400,
  )
  after_plan target original config (ok actions) p =
      let (history, generation) =
        save_table_config target (dump config) (get_version_id hexdigest config) p.history in
      (
        record p {
          settings = set_pipeline target original (set_pipeline target config p.settings);
          history = history;
        },
        answered (record {
          generation = generation;
          config_hash = get_config_hash hexdigest config;
          actions_planned = length actions;
        }),
      )

  unfoldable pub after_inspect :
      String
      → (original config : SearchPipeline) → Result (Dict String SourceState × SinkState)
      → Process J
      → Process J × Response Accepted
  after_inspect target original config (err x) p = (p, raised x)
  after_inspect target original config (ok states) p =
      after_plan target original config (proposed_plan target config p.settings states) p

  unfoldable pub update_config : String → SearchPipeline → Process J → Process J × Response Accepted
  update_config target config p = elim (lookup target p.settings.pipelines) [
    | none ↦ (p, http_error 404)
    | some original ↦ after_inspect target original config inspect p
  ]

  module _ (row_count : Result ℕ) where
    -- an exception leaves the handler with the proposal in place
    unfoldable pub after_preview :
        String
        → (original config : SearchPipeline) → Result (List Action)
        → Process J
        → Process J × Response Preview
    after_preview target original config (err x) p =
        (record p { settings = set_pipeline target config p.settings }, raised x)
    after_preview target original config (ok actions) p =
        elim (get_resource_projections row_count config) [
          | err x ↦ (record p { settings = set_pipeline target config p.settings }, raised x)
          | ok projection ↦ (
            record p {
              settings = set_pipeline target original (set_pipeline target config p.settings);
            },
            answered (record { actions = actions; projection = projection }),
          )
        ]

    unfoldable pub preview :
        String
        → (original config : SearchPipeline) → Result (Dict String SourceState × SinkState)
        → Process J
        → Process J × Response Preview
    preview target original config (err x) p = (p, raised x)
    preview target original config (ok states) p =
        after_preview target original config (proposed_plan target config p.settings states) p

    unfoldable pub dry_run :
        String → Option SearchPipeline → Process J → Process J × Response Preview
    dry_run target config p = elim (lookup target p.settings.pipelines) [
      | none ↦ (p, http_error 404)
      | some original ↦ preview target original (or_else config original) inspect p
    ]
