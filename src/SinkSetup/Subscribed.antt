-- ===== src/SinkSetup/Subscribed.antt =====
-- What a subscription that `setup_sink` of src/pg_replica/database.py creates is, and when none is created.
use postgres_search_replica.Prelude.{
  ℕ, String, string_eq, ◌≤◌, ◌≡◌, ◌↔◌, refl, sym, ap, ◌∙◌, ◌⊎◌, inl, inr, Bool, true, false, not,
  Option, none, some, or_else, is_some, List, [], ◌∷◌, ◌++◌, has, arith, Bool-cases, Option-cases,
}
use postgres_search_replica.Prelude.Dict.{Dict, lookup, contains, member, lookup-insert_self}
use postgres_search_replica.Prelude.Effects.{ok, Exn, timeout_error}
use postgres_search_replica.Waiting.{wait_until, wait_until-Decides}
use postgres_search_replica.Config.{Settings, SearchPipeline, postgres, cdc, strategy_of}
use postgres_search_replica.Control.Replica.{sub_name, get_replica_state}
use postgres_search_replica.SinkSetup.Databases.{
  Subscription, Databases, slots_of, Outcome, returned, raise,
}
use postgres_search_replica.SinkSetup.Subscribe.{
  pub_name, no_adapter, copies_data, copy_text, creates_slot, starts_enabled, slot_name_of, Reply,
  created, refused, is_done, strategy_at, slot_source, options_of, sub_conn_url, subscribed_with,
  subscribe_at, try_create_subscription, after_wait, wait_subscription, subscribe_new, subscribe,
}
use postgres_search_replica.SinkSetup.Options.{
  copies_data_iff, member-append_self, options-copy_data, options-creates, IsSilent, options-starts,
  options-slot_name,
}

module _ (target : String) (config : SearchPipeline) (dbs : Databases) where
  -- The code has returned, and the target has a subscription that is enabled, whose slot is at the
  -- source, and that copies the data exactly where there was no slot and no progress.
  pub record Starts (r : Outcome) : Type 0 where
    pub result : r.1 ≡ some (ok tt)
    pub subscription : Subscription
    pub there : lookup (sub_name target) r.0.subscriptions ≡ some subscription
    pub publication : subscription.publication ≡ pub_name target
    pub enabled : subscription.enabled ≡ true
    pub slot : member (sub_name target) (slots_of config.ingest.source r.0) ≡ true
    pub copies : (lookup "copy_data" subscription.options ≡ some "'true'") ↔ (
        (member (sub_name target) (slots_of config.ingest.source dbs) ≡ false)
        × (get_replica_state target dbs.sink.states ≡ (some "0", none)))

  subscribed-there :
      (options : Dict String String) (url : String)
      → lookup (sub_name target) (subscribed_with target config options url dbs).subscriptions
        ≡ some (record {
          connection = sub_conn_url url;
          publication = pub_name target;
          options = options;
          enabled = starts_enabled options;
          refreshed = false;
        })
  subscribed-there options url = elim (Bool-cases (creates_slot options)) [
    | inl t ↦ rw t (lookup-insert_self (sub_name target) _ dbs.subscriptions)
    | inr f ↦ rw f (lookup-insert_self (sub_name target) _ dbs.subscriptions)
  ]

  subscribed-slot :
      (options : Dict String String) (url : String) (b : Bool)
      → member (sub_name target) (slots_of config.ingest.source dbs) ≡ b
      → creates_slot options ≡ not b
      → slot_name_of target options ≡ sub_name target
      → member
          (sub_name target)
          (slots_of config.ingest.source (subscribed_with target config options url dbs))
        ≡ true
  subscribed-slot options url true m c n = rw (c) m
  subscribed-slot options url false m c n =
      rw
        (
          c,
          n,
          lookup-insert_self config.ingest.source
              (slots_of config.ingest.source dbs ++ sub_name target ∷ []) dbs.sources,
        )
        (member-append_self (sub_name target) (slots_of config.ingest.source dbs))

  module _ (subscription_options : Dict String String) (slots : List String)
      (listed : lookup config.ingest.source dbs.sources ≡ some slots)
      (silent : IsSilent subscription_options)
      (unset : lookup "enabled" subscription_options ≡ none) where
    -- the options with which the code creates the subscription
    abbrev chosen : Dict String String
    chosen =
        options_of subscription_options (member (sub_name target) slots)
          (get_replica_state target dbs.sink.states)

    same_slots :
        member (sub_name target) (slots_of config.ingest.source dbs)
        ≡ member (sub_name target) slots
    same_slots = ap (λ o. member (sub_name target) (or_else o [])) listed

    chosen-copies : (lookup "copy_data" chosen ≡ some "'true'") ↔ (
        (member (sub_name target) (slots_of config.ingest.source dbs) ≡ false)
        × (get_replica_state target dbs.sink.states ≡ (some "0", none)))
    chosen-copies =
        rw
          (
            same_slots,
            options-copy_data subscription_options (member (sub_name target) slots)
                (get_replica_state target dbs.sink.states),
          )
          (λ h. both.0 (unwrap h), λ h. ap some (both.1 h))
      where
        both :
            (copy_text (
                copies_data
                  (member (sub_name target) slots)
                  (get_replica_state target dbs.sink.states))
              ≡ "'true'")
            ↔ ((member (sub_name target) slots ≡ false)
                × (get_replica_state target dbs.sink.states ≡ (some "0", none)))
        both =
            copies_data_iff (member (sub_name target) slots)
              (get_replica_state target dbs.sink.states)

        unwrap : {a b : String} → some a ≡ some b → a ≡ b
        unwrap h = cc

    own_slot : slot_name_of target chosen ≡ sub_name target
    own_slot =
        options-slot_name subscription_options (member (sub_name target) slots)
          (get_replica_state target dbs.sink.states) silent target

    created-Starts :
        (url : String) → Starts (returned (subscribed_with target config chosen url dbs))
    created-Starts url = record {
      result = refl;
      subscription = record {
        connection = sub_conn_url url;
        publication = pub_name target;
        options = chosen;
        enabled = starts_enabled chosen;
        refreshed = false;
      };
      there = subscribed-there chosen url;
      publication = refl;
      enabled =
          options-starts subscription_options (member (sub_name target) slots)
            (get_replica_state target dbs.sink.states) silent unset;
      slot =
          subscribed-slot chosen url (member (sub_name target) slots) same_slots
            (options-creates subscription_options (member (sub_name target) slots)
              (get_replica_state target dbs.sink.states) silent)
            own_slot;
      copies = chosen-copies;
    }

    -- an attempt that no server refuses creates the subscription
    attempt-created :
        (url : String)
        → contains (sub_name target) dbs.subscriptions ≡ false
        → subscribe_at target config chosen url dbs
          ≡ created (subscribed_with target config chosen url dbs)
    unfolding subscribe_at
    attempt-created url absent = ground (
      arith,
      absent,
      same_slots,
      own_slot,
      options-creates subscription_options (member (sub_name target) slots)
          (get_replica_state target dbs.sink.states) silent,
    )

    module _ (settings : Settings) (refuses : ℕ → Option String) (elapsed : ℕ → ℕ) (url : String)
        (known : lookup config.ingest.source settings.sources ≡ some (postgres cdc url))
        (absent : lookup (sub_name target) dbs.subscriptions ≡ none)
        (honest : (k : ℕ) (m : String) → refuses k ≡ some m → has "already exists" m ≡ false) where
      abbrev attempt : ℕ → Reply
      attempt =
          try_create_subscription settings subscription_options refuses elapsed target config chosen
            dbs

      -- the reply to an attempt that ends the loop
      attempt-done :
          (k : ℕ)
          → is_done (attempt k) ≡ true
          → attempt k ≡ created (subscribed_with target config chosen url dbs)
      unfolding try_create_subscription
      attempt-done k d = elim (Option-cases (refuses k)) [
        | inl n ↦ rw (try_create_subscription, known, n) (attempt-created url (ap is_some absent))
        | inr (m, s) ↦ cc (d, turned_down m s, honest k m s)
      ]
        where
          turned_down : (m : String) → refuses k ≡ some m → attempt k ≡ refused m
          turned_down m s = rw (try_create_subscription, known, s) refl

      -- waiting fails, or ends with the subscription
      wait-Starts :
          ((j : ℕ) → j ≤ elapsed j)
          → ((x : Exn) × (after_wait dbs attempt
                  (wait_until (λ k. ok (is_done (attempt k))) elapsed 30)
                ≡ raise x dbs))
            ⊎ Starts
                (after_wait dbs attempt (wait_until (λ k. ok (is_done (attempt k))) elapsed 30))
      wait-Starts runs =
          let (k, d) = wait_until-Decides (λ k. ok (is_done (attempt k))) elapsed 30 runs in
          elim d.outcome [
            | inl (ready, e) ↦ inr (rw (e, attempt-done k ready) (created-Starts url))
            | inr (late, over, e) ↦ inl (timeout_error, rw e refl)
          ]

module _ (settings : Settings) (subscription_options : Dict String String)
    (refuses : ℕ → Option String) (elapsed : ℕ → ℕ) (target : String) (config : SearchPipeline)
    (dbs : Databases) (url : String) where
  -- without a subscription, the code creates one
  pub subscribe-new :
      lookup config.ingest.source settings.sources ≡ some (postgres cdc url)
      → lookup (sub_name target) dbs.subscriptions ≡ none
      → subscribe settings subscription_options refuses elapsed target config dbs
        ≡ subscribe_new settings subscription_options refuses elapsed target config dbs
  unfolding subscribe strategy_at strategy_of
  subscribe-new known absent = rw (subscribe, strategy_at, known, strategy_of, absent) refl

  pub new-no_adapter :
      lookup (slot_source settings target) dbs.sources ≡ none
      → subscribe_new settings subscription_options refuses elapsed target config dbs
        ≡ raise (no_adapter (slot_source settings target)) dbs
  unfolding subscribe_new
  new-no_adapter n = rw (subscribe_new, n) refl

  pub new-waits :
      (slots : List String)
      → lookup (slot_source settings target) dbs.sources ≡ some slots
      → subscribe_new settings subscription_options refuses elapsed target config dbs
        ≡ wait_subscription settings subscription_options refuses elapsed target config
            (options_of subscription_options
              (member (sub_name target) slots)
              (get_replica_state target dbs.sink.states))
            dbs
  unfolding subscribe_new
  new-waits slots s = rw (subscribe_new, s) refl

  -- For a target of a source that is replicated by change data capture, where the slot is looked
  -- for at that source, without a subscription so far, no server's message speaks of what already
  -- exists, and the settings name none of connect, enabled, create_slot and slot_name: the code
  -- raises and nothing has changed, or it returns, and the target has a subscription that is
  -- enabled, with its slot at the source, that copies the data exactly where there was neither a
  -- slot nor progress.
  pub subscribe-Starts :
      lookup config.ingest.source settings.sources ≡ some (postgres cdc url)
      → slot_source settings target ≡ config.ingest.source
      → lookup (sub_name target) dbs.subscriptions ≡ none
      → IsSilent subscription_options
      → lookup "enabled" subscription_options ≡ none
      → ((k : ℕ) (m : String) → refuses k ≡ some m → has "already exists" m ≡ false)
      → ((j : ℕ) → j ≤ elapsed j)
      → ((x : Exn) × (subscribe settings subscription_options refuses elapsed target config dbs
            ≡ raise x dbs))
        ⊎ Starts target config dbs
            (subscribe settings subscription_options refuses elapsed target config dbs)
  unfolding wait_subscription
  subscribe-Starts known own absent silent unset honest runs =
      rw (subscribe-new known absent)
        (elim (Option-cases (lookup (slot_source settings target) dbs.sources)) [
          | inl n ↦ inl (no_adapter (slot_source settings target), new-no_adapter n)
          | inr (slots, s) ↦
              rw (new-waits slots s, wait_subscription)
                (wait-Starts target config dbs subscription_options slots
                  (ap (λ source. lookup source dbs.sources) (sym own) ∙ s) silent unset settings
                  refuses elapsed url known absent honest runs)
        ])
