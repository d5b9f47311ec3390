-- ===== src/Source/TextOrder.antt =====
-- The order of texts that Python compares str by: by the code points, from the left.
use Prim.Native.Char.{Char, code}
use Prim.Native.String.{String}
use postgres_search_replica.Prelude.{
  ◌≡◌, refl, ◌⊎◌, inl, inr, Bool, true, false, ltb, nat_eq, ◌==◌, arith, if◌then◌else◌,
}
use text.Mathlib.TextEquality.{codes_equal}
use postgres_search_replica.Sync.Order.{Order}

abbrev pub before : String → String → Bool
before String.[] String.[] = false
before String.[] (String.◌∷◌ d t) = true
before (String.◌∷◌ c s) String.[] = false
before (String.◌∷◌ c s) (String.◌∷◌ d t) =
    let rest = before s t in
    if ltb (code c) (code d) then true else if code c == code d then rest else false

pub before_irrefl : (s : String) → before s s ≡ false
before_irrefl String.[] = refl
before_irrefl (String.◌∷◌ c s) = ground (arith, before_irrefl s)

pub before_trans : (r s t : String) → before r s ≡ true → before s t ≡ true → before r t ≡ true
before_trans String.[] String.[] t h k = cc
before_trans String.[] (String.◌∷◌ d s) String.[] h k = cc
before_trans String.[] (String.◌∷◌ d s) (String.◌∷◌ e t) h k = refl
before_trans (String.◌∷◌ c r) String.[] t h k = cc
before_trans (String.◌∷◌ c r) (String.◌∷◌ d s) String.[] h k = cc
before_trans (String.◌∷◌ c r) (String.◌∷◌ d s) (String.◌∷◌ e t) h k =
    ground (arith, before_trans r s t, h, k)

code_eq : (c d : Char) → code c ≡ code d → c ≡ d
code_eq c d h = codes_equal c d (ground (arith, h))

pub before_total : (s t : String) → (before s t ≡ true) ⊎ ((s ≡ t) ⊎ (before t s ≡ true))
before_total String.[] String.[] = inr (inl refl)
before_total String.[] (String.◌∷◌ d t) = inl refl
before_total (String.◌∷◌ c s) String.[] = inr (inr refl)
before_total (String.◌∷◌ c s) (String.◌∷◌ d t) = ground (arith, before_total s t, code_eq c d)

instance abbrev pub text_order : Order String
text_order = record {
  lt = before;
  irrefl = before_irrefl;
  trans = before_trans;
  total = before_total;
}
