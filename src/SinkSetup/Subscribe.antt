-- ===== src/SinkSetup/Subscribe.antt =====
-- The subscription, the last part of `setup_sink` of src/pg_replica/database.py. `refuses k` is the message,
-- in small letters, with which a server refuses the k-th CREATE SUBSCRIPTION for reasons of its own;
-- ALTER SUBSCRIPTION is not refused. Ending the process that holds a slot changes none of the state.
use postgres_search_replica.Prelude.{
  ℕ, String, string_eq, ◌==◌, ◌&&◌, ◌||◌, Bool, true, false, not, Option, none, some, or_else,
  is_some, [], ◌∷◌, concat, has, replace, if◌then◌else◌,
}
use postgres_search_replica.Prelude.Dict.{Dict, lookup, insert, contains, member}
use postgres_search_replica.Prelude.Effects.{Result, ok, err, Exn, runtime_error}
use postgres_search_replica.Waiting.{wait_until}
use postgres_search_replica.Config.{
  Settings, SearchPipeline, SourceConfig, postgres, local, s3, Strategy, cdc, polling, strategy_of,
}
use postgres_search_replica.Control.Replica.{sub_name, get_replica_state}
use postgres_search_replica.SinkSetup.Databases.{
  Databases, slots_of, add_slot, Outcome, returned, raise,
}

abbrev pub pub_name : String → String
pub_name target = concat ("pub_" ∷ target ∷ [])

abbrev pub is_text : String → Option String → Bool
is_text s none = false
is_text s (some t) = t == s

-- the address of the source as the container of the sink sees it
unfoldable pub sub_conn_url : String → String
sub_conn_url url = replace "127.0.0.1" "source" (
    replace "localhost" "source"
      (replace "127.0.0.1:5433" "source:5432" (replace "localhost:5433" "source:5432" url)))

abbrev pub url_of : SourceConfig → Option String
url_of (postgres strategy url) = some url
url_of (local path uri_prefix) = none
url_of (s3 bucket s3_prefix region endpoint_url) = none

-- "false" if the slot exists, or if there is progress
unfoldable pub copies_data : Bool → Option String × Option String → Bool
copies_data slot_exists (last_id, last_lsn) =
    not (slot_exists || not (is_text "0" last_id) || is_some last_lsn)

abbrev pub copy_text : Bool → String
copy_text b = if b then "'true'" else "'false'"

-- How CREATE SUBSCRIPTION reads its options. A truth value may stand in quotes, and is true where it is
-- not given; without a connection there is no slot, and the subscription starts disabled.
abbrev pub is_off : Option String → Bool
is_off none = false
is_off (some t) = member (replace "'" "" t) ("false" ∷ "off" ∷ "0" ∷ [])

abbrev pub connects : Dict String String → Bool
connects options = not (is_off (lookup "connect" options))

abbrev pub creates_slot : Dict String String → Bool
creates_slot options = connects options && not (is_off (lookup "create_slot" options))

abbrev pub starts_enabled : Dict String String → Bool
starts_enabled options = connects options && not (is_off (lookup "enabled" options))

abbrev pub unquoted : String → Option String → String
unquoted default none = default
unquoted default (some t) = replace "'" "" t

abbrev pub slot_name_of : String → Dict String String → String
slot_name_of target options = unquoted (sub_name target) (lookup "slot_name" options)

pub data Reply : Type 0 where
  created : Databases → Reply
  refused : (message : String) → Reply

-- `return True` for the statement's success and for "already exists"
abbrev pub is_done : Reply → Bool
is_done (created dbs) = true
is_done (refused message) = has "already exists" message

abbrev pub after_reply : Databases → Reply → Databases
after_reply old (created new) = new
after_reply old (refused message) = old

abbrev pub exists_message : String → String → String
exists_message kind name = concat (kind ∷ " \"" ∷ name ∷ "\" already exists" ∷ [])

unfoldable pub strategy_at : Settings → String → Strategy
strategy_at settings source = elim (lookup source settings.sources) [
  | none ↦ cdc
  | some config ↦ or_else (strategy_of config) polling
]

-- the source that is asked for the slot
unfoldable pub slot_source : Settings → String → String
slot_source settings target = elim (lookup target settings.pipelines) [
  | none ↦ "default"
  | some config ↦ config.ingest.source
]

unfoldable pub options_of :
    Dict String String → Bool → Option String × Option String → Dict String String
options_of subscription_options slot_exists progress =
    let options =
      insert "copy_data" (copy_text (copies_data slot_exists progress)) subscription_options in
    if slot_exists then insert "create_slot" "false" options else options

-- a new subscription, with its slot
abbrev pub subscribed_with :
    String → SearchPipeline → Dict String String → String → Databases → Databases
subscribed_with target config options url dbs =
    let new = record dbs {
      subscriptions =
          insert (sub_name target)
            (record {
              connection = sub_conn_url url;
              publication = pub_name target;
              options = options;
              enabled = starts_enabled options;
              refreshed = false;
            })
            dbs.subscriptions;
    } in
    if creates_slot options
    then add_slot config.ingest.source (slot_name_of target options) new
    else new

-- What Postgres does, where it refuses nothing for reasons of its own; options that do not fit together
-- are such a reason.
unfoldable pub subscribe_at :
    String → SearchPipeline → Dict String String → String → Databases → Reply
subscribe_at target config options url dbs =
    if contains (sub_name target) dbs.subscriptions
    then refused (exists_message "subscription" (sub_name target))
    else if creates_slot options
        && member (slot_name_of target options) (slots_of config.ingest.source dbs)
    then refused (exists_message "replication slot" (slot_name_of target options))
    else created (subscribed_with target config options url dbs)

abbrev pub after_wait : Databases → (ℕ → Reply) → Option (Result ℕ) → Outcome
after_wait dbs attempt none = (dbs, none)
after_wait dbs attempt (some (err x)) = raise x dbs
after_wait dbs attempt (some (ok k)) = returned (after_reply dbs (attempt k))

abbrev pub no_adapter : String → Exn
no_adapter source = runtime_error (concat ("Source adapter '" ∷ source ∷ "' not initialized" ∷ []))

module _ (settings : Settings) (subscription_options : Dict String String)
    (refuses : ℕ → Option String) (elapsed : ℕ → ℕ) where
  -- the k-th attempt; a source that is not in the settings is a KeyError, with its name as message
  unfoldable pub try_create_subscription :
      String → SearchPipeline → Dict String String → Databases → ℕ → Reply
  try_create_subscription target config options dbs k =
      elim (lookup config.ingest.source settings.sources) [
        | none ↦ refused (concat ("'" ∷ config.ingest.source ∷ "'" ∷ []))
        | some source ↦ elim (url_of source) [
          | none ↦ refused "object has no attribute 'connection_url'"
          | some url ↦ elim (refuses k) [
            | some message ↦ refused message
            | none ↦ subscribe_at target config options url dbs
          ]
        ]
      ]

  unfoldable pub wait_subscription :
      String → SearchPipeline → Dict String String → Databases → Outcome
  wait_subscription target config options dbs =
      let attempt = try_create_subscription target config options dbs in
      after_wait dbs attempt (wait_until (λ k. ok (is_done (attempt k))) elapsed 30)

  unfoldable pub subscribe_new : String → SearchPipeline → Databases → Outcome
  subscribe_new target config dbs = elim (lookup (slot_source settings target) dbs.sources) [
    | none ↦ raise (no_adapter (slot_source settings target)) dbs
    | some slots ↦
        wait_subscription target config
          (options_of subscription_options (member (sub_name target) slots)
            (get_replica_state target dbs.sink.states))
          dbs
  ]

  unfoldable pub subscribe : String → SearchPipeline → Databases → Outcome
  subscribe target config dbs = elim (strategy_at settings config.ingest.source) [
    | polling ↦ returned dbs
    | cdc ↦ elim (lookup (sub_name target) dbs.subscriptions) [
      | some s ↦ returned (record dbs {
        subscriptions =
            insert (sub_name target) (record s { enabled = true; refreshed = true })
              dbs.subscriptions;
      })
      | none ↦ subscribe_new target config dbs
    ]
  ]
