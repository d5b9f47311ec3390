-- ===== src/SinkSetup/Setup.antt =====
-- `setup_sink` of src/pg_replica/database.py as a whole. The servers are a parameter; the statements that only
-- enable the triggers of pgai change none of the state.
use postgres_search_replica.Prelude.{ℕ, String, string_eq, Option, none, some}
use postgres_search_replica.Prelude.Dict.{Dict, lookup}
use postgres_search_replica.Prelude.Effects.{Result, ok, err}
use postgres_search_replica.Config.{Settings, SearchPipeline}
use postgres_search_replica.Control.Replica.{setup_state_table}
use postgres_search_replica.Inspector.{SinkCatalog}
use postgres_search_replica.SinkSetup.Databases.{Databases, Outcome, raise, next}
use postgres_search_replica.SinkSetup.Subscribe.{no_adapter, subscribe}
use postgres_search_replica.SinkSetup.Vectorizer.{
  Call, Made, Installer, create_raw_table, create_extension, install_ai, vectorizer_name,
  vectorizer_call, wait_vectorizer,
}

pub record Servers : Type 0 where
  pub show : ℕ → String
  -- `adapter.get_table_columns`
  pub source_types : String → Result (Dict String String)
  pub installer : Installer
  pub create_vectorizer : ℕ → Call → SinkCatalog → Made
  pub vectorizer_clock : ℕ → ℕ
  pub refuses : ℕ → Option String
  pub subscription_clock : ℕ → ℕ

abbrev pub on_sink : (SinkCatalog → SinkCatalog) → Databases → Databases
on_sink f dbs = record dbs { sink = f dbs.sink }

abbrev pub with_result : SinkCatalog × Result (Unit {0}) → Databases → Outcome
with_result (catalog, r) dbs = (record dbs { sink = catalog }, some r)

module _ (servers : Servers) (settings : Settings) (subscription_options : Dict String String) where
  unfoldable pub setup_vectorizer : SearchPipeline → Option String → Databases → Outcome
  setup_vectorizer config vectorizer_target dbs =
      wait_vectorizer servers.create_vectorizer servers.vectorizer_clock
        (vectorizer_call servers.show settings config (vectorizer_name config vectorizer_target)
          dbs.sink)
        dbs

  -- the raw table, once the types of its columns are known
  unfoldable pub setup_tables : SearchPipeline → Result (Dict String String) → Databases → Outcome
  setup_tables config (err x) dbs = raise x dbs
  setup_tables config (ok types) dbs =
      let catalog = create_raw_table config (create_extension "vector" dbs.sink) in
      with_result (install_ai servers.installer catalog) dbs

  unfoldable pub prepare : SearchPipeline → String → Databases → Outcome
  prepare config target dbs =
      let started = on_sink (λ c. record c { states = setup_state_table target c.states }) dbs in
      elim (lookup config.ingest.source dbs.sources) [
        | none ↦ raise (no_adapter config.ingest.source) started
        | some slots ↦ setup_tables config (servers.source_types config.ingest.table) started
      ]

  unfoldable pub setup_sink : SearchPipeline → String → Option String → Databases → Outcome
  setup_sink config target vectorizer_target dbs = next (prepare config target dbs) (λ prepared.
      next (setup_vectorizer config vectorizer_target prepared) (λ indexed.
        subscribe settings subscription_options servers.refuses servers.subscription_clock target
          config indexed))
