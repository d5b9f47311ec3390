-- ===== src/SinkSetup/Elsewhere.antt =====
-- What `setup_sink` of src/pg_replica/database.py makes of the subscription of a branch. A branch is not one of
-- the pipelines of the settings, so its slot is looked for at the source `default`.
use postgres_search_replica.Prelude.{
  ℕ, String, string_eq, ◌≡◌, refl, sym, ap, ◌∙◌, ◌⊎◌, inl, inr, Bool, true, false, not, Option,
  none, some, or_else, is_some, List, [], ◌∷◌, concat, has-append_right, arith, Option-cases,
}
use postgres_search_replica.Prelude.Dict.{Dict, lookup, contains, member}
use postgres_search_replica.Prelude.Effects.{Result, ok}
use postgres_search_replica.Waiting.{wait_until, wait_from, is_ready}
use postgres_search_replica.Config.{Settings, SearchPipeline, postgres, cdc}
use postgres_search_replica.Control.Replica.{sub_name, get_replica_state}
use postgres_search_replica.SinkSetup.Databases.{Databases, slots_of, returned, raise}
use postgres_search_replica.SinkSetup.Subscribe.{
  no_adapter, creates_slot, slot_name_of, refused, is_done, exists_message, slot_source, options_of,
  subscribe_at, try_create_subscription, wait_subscription, subscribe,
}
use postgres_search_replica.SinkSetup.Options.{options-creates, options-slot_name, IsSilent}
use postgres_search_replica.SinkSetup.Subscribed.{subscribe-new, new-no_adapter, new-waits}

-- the message of Postgres is one of those that count as success
exists_message-done : (kind name : String) → is_done (refused (exists_message kind name)) ≡ true
exists_message-done kind name =
    has-append_right "already exists" kind (concat (" \"" ∷ name ∷ "\" already exists" ∷ [])) (
      has-append_right "already exists" " \"" (concat (name ∷ "\" already exists" ∷ []))
        (has-append_right "already exists" name "\" already exists" refl))

-- waiting ends at the first attempt, if that is ready
wait_until-first :
    (attempt : ℕ → Result Bool) (elapsed : ℕ → ℕ) (timeout : ℕ)
    → is_ready (attempt 0) ≡ true
    → wait_until attempt elapsed timeout ≡ some (ok 0)
unfolding wait_until wait_from
wait_until-first attempt elapsed timeout h = rw h refl

module _ (settings : Settings) (subscription_options : Dict String String)
    (refuses : ℕ → Option String) (elapsed : ℕ → ℕ) (target : String) (config : SearchPipeline)
    (dbs : Databases) (url : String) where
  slot_source-branch :
      lookup target settings.pipelines ≡ none → slot_source settings target ≡ "default"
  unfolding slot_source
  slot_source-branch n = rw (slot_source, n) refl

  -- a slot that is there counts as a subscription
  attempt-refused :
      (options : Dict String String)
      → lookup config.ingest.source settings.sources ≡ some (postgres cdc url)
      → refuses 0 ≡ none
      → contains (sub_name target) dbs.subscriptions ≡ false
      → creates_slot options ≡ true
      → slot_name_of target options ≡ sub_name target
      → member (sub_name target) (slots_of config.ingest.source dbs) ≡ true
      → try_create_subscription settings subscription_options refuses elapsed target config options
          dbs 0
        ≡ refused (exists_message "replication slot" (sub_name target))
  unfolding try_create_subscription subscribe_at
  attempt-refused options known served absent c n m =
      rw (try_create_subscription, known, served, subscribe_at) (ground (arith, absent, c, n, m))

  wait-refused :
      (options : Dict String String)
      → lookup config.ingest.source settings.sources ≡ some (postgres cdc url)
      → refuses 0 ≡ none
      → contains (sub_name target) dbs.subscriptions ≡ false
      → creates_slot options ≡ true
      → slot_name_of target options ≡ sub_name target
      → member (sub_name target) (slots_of config.ingest.source dbs) ≡ true
      → wait_subscription settings subscription_options refuses elapsed target config options dbs
        ≡ returned dbs
  unfolding wait_subscription
  wait-refused options known served absent c n m =
      let first = attempt-refused options known served absent c n m in
      rw
        (
          wait_subscription,
          wait_until-first
              (λ k. ok (
                is_done (
                  try_create_subscription settings subscription_options refuses elapsed target
                    config options dbs k)))
              elapsed 30
              (ap is_done first ∙ exists_message-done "replication slot" (sub_name target)),
          first,
        )
        refl

  -- For a branch, which is none of the pipelines of the settings, of a source that is replicated by
  -- change data capture and has a slot of the branch's name, without a subscription so far, where
  -- the source `default` has no such slot, the settings name none of connect, create_slot and
  -- slot_name, and the first CREATE SUBSCRIPTION is not refused for other reasons: nothing changes,
  -- and the code returns as if the subscription had been created, or raises if there is no source
  -- `default`.
  pub branch-unsubscribed :
      lookup config.ingest.source settings.sources ≡ some (postgres cdc url)
      → lookup target settings.pipelines ≡ none
      → lookup (sub_name target) dbs.subscriptions ≡ none
      → IsSilent subscription_options
      → refuses 0 ≡ none
      → member (sub_name target) (slots_of config.ingest.source dbs) ≡ true
      → member (sub_name target) (slots_of "default" dbs) ≡ false
      → (subscribe settings subscription_options refuses elapsed target config dbs ≡ returned dbs)
        ⊎ (subscribe settings subscription_options refuses elapsed target config dbs
            ≡ raise (no_adapter "default") dbs)
  branch-unsubscribed known branch absent silent served there elsewhere =
      rw
        (subscribe-new settings subscription_options refuses elapsed target config dbs url known
          absent)
        (elim (Option-cases (lookup (slot_source settings target) dbs.sources)) [
          | inl n ↦ inr (
              new-no_adapter settings subscription_options refuses elapsed target config dbs url n
              ∙ ap (λ source. raise (no_adapter source) dbs) (slot_source-branch branch))
          | inr (slots, s) ↦ inl (
              new-waits settings subscription_options refuses elapsed target config dbs url slots s
              ∙ wait-refused
                  (options_of subscription_options (member (sub_name target) slots)
                    (get_replica_state target dbs.sink.states))
                  known served (ap is_some absent)
                  (options-creates subscription_options (member (sub_name target) slots)
                      (get_replica_state target dbs.sink.states) silent
                    ∙ ap not (unslotted slots s))
                  (options-slot_name subscription_options (member (sub_name target) slots)
                    (get_replica_state target dbs.sink.states) silent target)
                  there)
        ])
    where
      unslotted :
          (slots : List String)
          → lookup (slot_source settings target) dbs.sources ≡ some slots
          → member (sub_name target) slots ≡ false
      unslotted slots s =
          sym (
            ap (λ o. member (sub_name target) (or_else o []))
              (ap (λ source. lookup source dbs.sources) (sym (slot_source-branch branch)) ∙ s))
          ∙ elsewhere
