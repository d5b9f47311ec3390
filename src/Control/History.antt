-- ===== src/Control/History.antt =====
-- _replica_config_history and the statements on it, in src/pg_replica/database.py. J is the type of
-- the stored JSON. Each function is one or two statements on an autocommit connection. The serial
-- `id` and `created_at` are left out: nothing reads them here.
use postgres_search_replica.Prelude.{
  ℕ, suc, String, string_eq, nat_eq, ◌==◌, ◌&&◌, ltb, Option, none, some, or_else, List, [], ◌∷◌,
  ◌++◌, map, if◌then◌else◌,
}

pub data Status : Type 0 where
  pending syncing ready failed : Status

pub record HistoryRow (J : Type 0) : Type 0 where
  pub target_name : String
  pub config_json : J
  pub config_hash : String
  pub generation : ℕ
  pub status : Status
  pub error_message : Option String
  pub observed_generation : ℕ

abbrev pub History : Type 0 → Type 0
History J = List (HistoryRow J)

module _ {J : Type 0} where
  -- COALESCE(MAX(generation), 0) of a target
  unfoldable pub max_generation : String → History J → ℕ
  max_generation target [] = 0
  max_generation target (r ∷ rows) =
      let rest = max_generation target rows in
      if r.target_name == target
      then (if ltb rest r.generation then r.generation else rest)
      else rest

  -- the new history, and the new generation
  unfoldable pub save_table_config : String → J → String → History J → History J × ℕ
  save_table_config target json hash rows =
      let new_gen = suc (max_generation target rows) in
      (
        rows
            ++ record {
              target_name = target;
              config_json = json;
              config_hash = hash;
              generation = new_gen;
              status = pending;
              error_message = none;
              observed_generation = 0;
            }
              ∷ [],
        new_gen,
      )

  -- the row of the two with the higher generation
  abbrev pub newer : HistoryRow J → Option (HistoryRow J) → HistoryRow J
  newer r none = r
  newer r (some s) = if ltb r.generation s.generation then s else r

  -- WHERE target_name = … ORDER BY generation DESC LIMIT 1
  unfoldable pub get_latest_table_config : String → History J → Option (HistoryRow J)
  get_latest_table_config target [] = none
  get_latest_table_config target (r ∷ rows) =
      let rest = get_latest_table_config target rows in
      if r.target_name == target then some (newer r rest) else rest

  abbrev pub set_status : Status → Option String → Option ℕ → HistoryRow J → HistoryRow J
  set_status status error observed r = record r {
    status = status;
    error_message = error;
    observed_generation = or_else observed r.observed_generation;
  }

  abbrev pub mark : String → ℕ → Status → Option String → Option ℕ → HistoryRow J → HistoryRow J
  mark target generation status error observed r =
      if (r.target_name == target) && (r.generation == generation)
      then set_status status error observed r
      else r

  -- UPDATE … WHERE target_name = … AND generation = …
  unfoldable pub update_config_status :
      String → ℕ → Status → Option String → Option ℕ → History J → History J
  update_config_status target generation status error observed rows =
      map (mark target generation status error observed) rows
