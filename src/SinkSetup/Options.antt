-- ===== src/SinkSetup/Options.antt =====
-- The options of a subscription that `setup_sink` of src/pg_replica/database.py creates.
use postgres_search_replica.Prelude.{
  String, string_eq, ◌≡◌, ◌≢◌, ◌==◌, ◌↔◌, refl, ap, ◌∙◌, Bool, true, false, not, Option, none, some,
  List, [], ◌∷◌, ◌++◌, arith, eq_iff,
}
use postgres_search_replica.Prelude.Dict.{
  Dict, lookup, insert, member, lookup-insert_self, lookup-insert_ne,
}
use postgres_search_replica.Control.Replica.{sub_name}
use postgres_search_replica.SinkSetup.Subscribe.{
  copies_data, copy_text, creates_slot, starts_enabled, unquoted, slot_name_of, options_of,
}

copy_text-eq-true : (b : Bool) → copy_text b ≡ "'true'" → b ≡ true
copy_text-eq-true true h = refl
copy_text-eq-true false h = ground (arith, eq_iff "'false'" "'true'")

copies_data-blank :
    (b : Bool) (progress : Option String × Option String)
    → copies_data b progress ≡ true
    → (b ≡ false) × (progress ≡ (some "0", none))
unfolding copies_data
copies_data-blank true (last_id, last_lsn) h = cc
copies_data-blank false (none, last_lsn) h = cc
copies_data-blank false (some t, some l) h = ground (arith, h)
copies_data-blank false (some t, none) h = (
  refl,
  ap {B = Option String × Option String} (λ x. (some x, none)) (ground (arith, h, eq_iff t "0")),
)

-- data is copied where there is neither a slot nor progress
pub copies_data_iff :
    (slot_exists : Bool) (progress : Option String × Option String)
    → (copy_text (copies_data slot_exists progress) ≡ "'true'")
      ↔ ((slot_exists ≡ false) × (progress ≡ (some "0", none)))
unfolding copies_data
copies_data_iff b progress = (
  λ h. copies_data-blank b progress (copy_text-eq-true (copies_data b progress) h),
  λ (e, f). rw (e, f) refl,
)

pub options-copy_data :
    (options : Dict String String) (b : Bool) (progress : Option String × Option String)
    → lookup "copy_data" (options_of options b progress) ≡ some (copy_text (copies_data b progress))
unfolding options_of
options-copy_data options false progress =
    lookup-insert_self "copy_data" (copy_text (copies_data false progress)) options
options-copy_data options true progress =
    lookup-insert_ne "create_slot" "copy_data" "false"
      (insert "copy_data" (copy_text (copies_data true progress)) options)
      (λ e. ground (arith, e, eq_iff "create_slot" "copy_data"))
    ∙ lookup-insert_self "copy_data" (copy_text (copies_data true progress)) options

-- The settings leave the connection, the slot and its name to Postgres.
pub record IsSilent (options : Dict String String) : Type 0 where
  pub connect : lookup "connect" options ≡ none
  pub create_slot : lookup "create_slot" options ≡ none
  pub slot_name : lookup "slot_name" options ≡ none

-- the options that the code does not set
options-other :
    (options : Dict String String) (b : Bool) (progress : Option String × Option String)
    (k : String)
    → "copy_data" ≢ k
    → "create_slot" ≢ k
    → lookup k (options_of options b progress) ≡ lookup k options
unfolding options_of
options-other options false progress k copy create =
    lookup-insert_ne "copy_data" k (copy_text (copies_data false progress)) options copy
options-other options true progress k copy create =
    lookup-insert_ne "create_slot" k "false"
      (insert "copy_data" (copy_text (copies_data true progress)) options) create
    ∙ lookup-insert_ne "copy_data" k (copy_text (copies_data true progress)) options copy

differ : (s t : String) → (s == t) ≡ false → s ≢ t
differ s t f e = ground (arith, f, (eq_iff s t).1 e)

module _ (options : Dict String String) (b : Bool) (progress : Option String × Option String)
    (silent : IsSilent options) where
  options-connects : lookup "connect" (options_of options b progress) ≡ none
  options-connects =
      options-other options b progress "connect" (differ "copy_data" "connect" refl)
        (differ "create_slot" "connect" refl)
      ∙ silent.connect

  pub options-starts :
      lookup "enabled" options ≡ none → starts_enabled (options_of options b progress) ≡ true
  options-starts unset =
      rw
        (
          options-connects,
          options-other options b progress "enabled" (differ "copy_data" "enabled" refl)
              (differ "create_slot" "enabled" refl),
          unset,
        )
        refl

  pub options-slot_name :
      (target : String) → slot_name_of target (options_of options b progress) ≡ sub_name target
  options-slot_name target = ap (unquoted (sub_name target)) (
      options-other options b progress "slot_name" (differ "copy_data" "slot_name" refl)
        (differ "create_slot" "slot_name" refl)
      ∙ silent.slot_name)

-- a slot is made where there is none
pub options-creates :
    (options : Dict String String) (b : Bool) (progress : Option String × Option String)
    → IsSilent options
    → creates_slot (options_of options b progress) ≡ not b
unfolding options_of
options-creates options true progress silent =
    rw
      (
        options-connects options true progress silent,
        lookup-insert_self "create_slot" "false"
            (insert "copy_data" (copy_text (copies_data true progress)) options),
      )
      refl
options-creates options false progress silent =
    rw
      (
        options-connects options false progress silent,
        lookup-insert_ne "copy_data" "create_slot" (copy_text (copies_data false progress)) options
              (differ "copy_data" "create_slot" refl)
            ∙ silent.create_slot,
      )
      refl

pub member-append_self : (x : String) (xs : List String) → member x (xs ++ x ∷ []) ≡ true
member-append_self x [] = ground (arith, eq_iff x x)
member-append_self x (y ∷ ys) = ground (arith, member-append_self x ys)
