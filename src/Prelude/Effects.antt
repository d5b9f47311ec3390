-- ===== src/Prelude/Effects.antt =====
-- Code that changes a state and may raise. What was written before a raise stays written.
use Prim.Native.String.{String}
use mathlib.Core.Path.{◌≡◌, refl}
use mathlib.Core.Logic.{◌⊎◌, inl, inr}

-- The exceptions that the code raises or reacts to, all of them caught by `except Exception`. The
-- cancellation of a task is none of them.
pub data Exn : Type 0 where
  key_error attribute_error type_error timeout_error : Exn
  value_error runtime_error db_error : String → Exn

pub data Result {ℓ} (A : Type ℓ) : Type ℓ where
  ok : A → Result A
  err : Exn → Result A

infixl 10 ◌>>=◌ ◌>>◌
abbrev pub ◌>>=◌ {ℓ κ} : {V : Type ℓ} {W : Type κ} → Result V → (V → Result W) → Result W
ok value >>= next = next value
err raised >>= next = err raised

abbrev pub ◌>>◌ {ℓ} : {W : Type ℓ} → Result (Unit {0}) → Result W → Result W
first >> next = first >>= λ _. next

-- Inversion of a successful bind.
pub >>=-eq-ok {ℓ κ} :
    {V : Type ℓ} {W : Type κ} (first : Result V) (next : V → Result W) {w : W}
    → (first >>= next) ≡ ok w
    → (v : V) × (first ≡ ok v) × (next v ≡ ok w)
>>=-eq-ok (err raised) next h = cc
>>=-eq-ok (ok v) next h = (v, refl, h)

pub ok_inj {ℓ} : {A : Type ℓ} {a b : A} → ok a ≡ ok b → a ≡ b
ok_inj h = cc

-- the next call, unless the last one raised
abbrev pub and_then :
    {S : Type 0} → S × Result (Unit {0}) → (S → S × Result (Unit {0})) → S × Result (Unit {0})
and_then (s, ok _) next = next s
and_then (s, err x) next = (s, err x)

pub Result-cases : {A : Type 0} (r : Result A) → ((x : Exn) × (r ≡ err x)) ⊎ ((a : A) × (r ≡ ok a))
Result-cases (err x) = inl (x, refl)
Result-cases (ok a) = inr (a, refl)

-- what a call of a task that can be cancelled comes to
pub data Attempt (A : Type 0) : Type 0 where
  returned : A → Attempt A
  threw : Exn → Attempt A
  cancelled : Attempt A
