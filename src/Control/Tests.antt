-- ===== src/Control/Tests.antt =====
-- The control plane on a short history.
use postgres_search_replica.Prelude.{◌≡◌, ◌≢◌, String, string_eq, nat_eq, none, some, [], ◌∷◌}
use postgres_search_replica.Control.History.{
  pending, ready, HistoryRow, max_generation, save_table_config, get_latest_table_config,
}
use postgres_search_replica.Control.Generations.{save-latest}

abbrev first : HistoryRow String
first = record {
  target_name = "books";
  config_json = "{}";
  config_hash = "01234567";
  generation = 1;
  status = ready;
  error_message = none;
  observed_generation = 1;
}

save-latest_example :
    (get_latest_table_config "books" (save_table_config "books" "[]" "89abcdef" (first ∷ [])).0
      ≡ some (record {
        target_name = "books";
        config_json = "[]";
        config_hash = "89abcdef";
        generation = 2;
        status = pending;
        error_message = none;
        observed_generation = 0;
      }))
    × ((save_table_config "books" "[]" "89abcdef" (first ∷ [])).1 ≡ 2)
    × ((other : String)
        → "books" ≢ other
        → get_latest_table_config other (save_table_config "books" "[]" "89abcdef" (first ∷ [])).0
          ≡ get_latest_table_config other (first ∷ []))
unfolding max_generation
save-latest_example = save-latest "books" "[]" "89abcdef" (first ∷ [])
