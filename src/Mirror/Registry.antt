-- ===== src/Mirror/Registry.antt =====
-- The columns of _sink_mirror_registry after each of the mirror worker's statements on it.
use postgres_search_replica.Prelude.{
  ℕ, ◌+◌, ◌≡◌, refl, ap, ◌∙◌, String, string_eq, pair_eq, Option, none, some, or_else,
}
use postgres_search_replica.Prelude.Dict.{lookup, lookup-insert_self}
use postgres_search_replica.Mirror.Outbox.{
  RegistryKey, Registry, RegistryRow, on_conflict, column, record_progress, record_error,
  record_promotion, last_processed, promoted_version, default_row,
}

column-on_conflict :
    {A : Type 0} (default : A) (get : RegistryRow → A) (set : RegistryRow → RegistryRow)
    (key : RegistryKey) (registry : Registry)
    → column default get (lookup key (on_conflict set key registry))
      ≡ get (set (or_else (lookup key registry) default_row))
column-on_conflict default get set key registry =
    ap (column default get)
      (lookup-insert_self key (set (or_else (lookup key registry) default_row)) registry)

get-or_default :
    {A : Type 0} (get : RegistryRow → A) (o : Option RegistryRow)
    → get (or_else o default_row) ≡ column (get default_row) get o
get-or_default get none = refl
get-or_default get (some row) = refl

-- The count of errors, as the health report reads it.
abbrev pub error_count : RegistryKey → Registry → ℕ
error_count key registry = column 0 (λ row. row.error_count) (lookup key registry)

module _ (key : RegistryKey) (registry : Registry) where
  pub last_processed-record_progress :
      (last latency : ℕ) → last_processed key (record_progress last latency key registry) ≡ last
  unfolding last_processed record_progress
  last_processed-record_progress last latency =
      column-on_conflict 0 (λ row. row.last_processed_id)
        (λ row. record row {
          last_processed_id = last;
          last_sync_latency_ms = some latency;
          error_count = 0;
        })
        key registry

  pub last_processed-record_promotion :
      (version : String)
      → last_processed key (record_promotion version key registry) ≡ last_processed key registry
  unfolding last_processed record_promotion
  last_processed-record_promotion version =
      column-on_conflict 0 (λ row. row.last_processed_id)
        (λ row. record row { promoted_version_id = some version }) key registry
      ∙ get-or_default (λ row. row.last_processed_id) (lookup key registry)

  -- what a failure records, on the row
  abbrev failed : String → RegistryRow → RegistryRow
  failed text row = record row { error_count = row.error_count + 1; last_error = some text }

  pub last_processed-record_error :
      (text : String)
      → last_processed key (record_error text key registry) ≡ last_processed key registry
  unfolding last_processed record_error
  last_processed-record_error text =
      column-on_conflict 0 (λ row. row.last_processed_id) (failed text) key registry
      ∙ get-or_default (λ row. row.last_processed_id) (lookup key registry)

  pub promoted_version-record_error :
      (text : String)
      → promoted_version key (record_error text key registry) ≡ promoted_version key registry
  unfolding promoted_version record_error
  promoted_version-record_error text =
      column-on_conflict none (λ row. row.promoted_version_id) (failed text) key registry
      ∙ get-or_default (λ row. row.promoted_version_id) (lookup key registry)

  pub error_count-record_error :
      (text : String)
      → error_count key (record_error text key registry) ≡ error_count key registry + 1
  unfolding record_error
  error_count-record_error text =
      column-on_conflict 0 (λ row. row.error_count) (failed text) key registry
      ∙ ap (λ n. n + 1) (get-or_default (λ row. row.error_count) (lookup key registry))

  pub promoted_version-record_promotion :
      (version : String)
      → promoted_version key (record_promotion version key registry) ≡ some version
  unfolding promoted_version record_promotion
  promoted_version-record_promotion version =
      column-on_conflict none (λ row. row.promoted_version_id)
        (λ row. record row { promoted_version_id = some version }) key registry
