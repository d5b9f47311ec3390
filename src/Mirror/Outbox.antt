-- ===== src/Mirror/Outbox.antt =====
-- The tables _sink_outbox, _sink_mirror_registry and _replica_state as the mirror worker sees them
-- (src/pg_replica/database.py), and the interface of an adapter (src/pg_replica/adapters.py). The
-- column `updated_at` is left out: no code reads it but the health report.
use postgres_search_replica.Prelude.{
  ℕ, ◌+◌, String, string_eq, pair_eq, or_else, Option, none, some, List,
}
use postgres_search_replica.Prelude.Dict.{Dict, lookup, insert}
use postgres_search_replica.Prelude.Effects.{Result}

-- Values of the payload are text or NULL.
pub record OutboxRow : Type 0 where
  pub target_name : String
  pub version_id : String
  pub source_id : String
  pub action : String
  pub payload : Option (Dict String (Option String))

pub record OutboxEntry : Type 0 where
  pub id : ℕ
  pub target_name : String
  pub version_id : String
  pub source_id : String
  pub action : String
  pub payload : Option (Dict String (Option String))

abbrev pub entry_of : ℕ × OutboxRow → OutboxEntry
entry_of (i, r) = record {
  id = i;
  target_name = r.target_name;
  version_id = r.version_id;
  source_id = r.source_id;
  action = r.action;
  payload = r.payload;
}

-- An adapter changes the state of the mirror and may raise in the middle.
pub record SinkAdapter (M : Type 0) : Type 0 where
  pub sync_batch : List OutboxEntry → M → M × Result (Unit {0})
  pub update_alias : String → String → ℕ → M → M × Result (Unit {0})

pub record RegistryRow : Type 0 where
  pub last_processed_id : ℕ
  pub promoted_version_id : Option String
  pub error_count : ℕ
  pub last_error : Option String
  pub last_sync_latency_ms : Option ℕ

-- the columns that an INSERT leaves out
abbrev pub default_row : RegistryRow
default_row = record {
  last_processed_id = 0;
  promoted_version_id = none;
  error_count = 0;
  last_error = none;
  last_sync_latency_ms = none;
}

-- (mirror_id, target_name)
abbrev pub RegistryKey : Type 0
RegistryKey = String × String

abbrev pub Registry : Type 0
Registry = Dict RegistryKey RegistryRow

pub record Sink : Type 0 where
  pub outbox : List (ℕ × OutboxRow)
  pub registry : Registry
  -- `config_hash` of _replica_state, by `key`
  pub hashes : Dict String (Option String)

-- INSERT … ON CONFLICT (mirror_id, target_name) DO UPDATE, where both set the same columns but
-- for the count of errors
abbrev pub on_conflict : (RegistryRow → RegistryRow) → RegistryKey → Registry → Registry
on_conflict set key registry = insert key (set (or_else (lookup key registry) default_row)) registry

unfoldable pub record_progress : ℕ → ℕ → RegistryKey → Registry → Registry
record_progress last latency = on_conflict (λ row. record row {
  last_processed_id = last;
  last_sync_latency_ms = some latency;
  error_count = 0;
})

unfoldable pub record_error : String → RegistryKey → Registry → Registry
record_error message =
    on_conflict (λ row. record row { error_count = row.error_count + 1; last_error = some message })

unfoldable pub record_promotion : String → RegistryKey → Registry → Registry
record_promotion version = on_conflict (λ row. record row { promoted_version_id = some version })

-- a column of the row that a SELECT found, or a default
abbrev pub column {ℓ} : {A : Type ℓ} → A → (RegistryRow → A) → Option RegistryRow → A
column default get none = default
column default get (some row) = get row

-- `row[0] if row else 0`
unfoldable pub last_processed : RegistryKey → Registry → ℕ
last_processed key registry = column 0 (λ row. row.last_processed_id) (lookup key registry)

unfoldable pub promoted_version : RegistryKey → Registry → Option String
promoted_version key registry = column none (λ row. row.promoted_version_id) (lookup key registry)
