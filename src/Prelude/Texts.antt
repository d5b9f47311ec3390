-- ===== src/Prelude/Texts.antt =====
-- Texts: the f-strings that build names, and slices of a prefix.
use Prim.Native.Nat.{ℕ, zero, suc, ◌-◌}
use Prim.Native.String.append
use Prim.Native.String.{String, ◌++◌}
use mathlib.Core.Path.{◌≡◌, refl}
use mathlib.Core.Bool.{Bool, true, false}
use mathlib.Core.Option.{none, some}
use mathlib.Core.List.{List, [], ◌∷◌}
use package.text.Mathlib.Text.{find?}
use text.Mathlib.TextEquality.{eq_iff}
use native.Mathlib.Omega.{arith}
use postgres_search_replica.Prelude.Tests.{◌==◌, string_eq, if◌then◌else◌}

-- an f-string, as the list of its parts
abbrev pub concat : List String → String
concat [] = ""
concat (s ∷ rest) = s ++ concat rest

-- `s[:n]`
abbrev pub prefix : ℕ → String → String
prefix zero s = ""
prefix (suc n) String.[] = ""
prefix (suc n) (String.◌∷◌ c s) = String.◌∷◌ c (prefix n s)

abbrev pub text_length : String → ℕ
text_length String.[] = 0
text_length (String.◌∷◌ c s) = suc (text_length s)

-- the text begins with `p`
abbrev pub begins : String → String → Bool
begins String.[] s = true
begins (String.◌∷◌ c p) String.[] = false
begins (String.◌∷◌ c p) (String.◌∷◌ d s) =
    let rest = begins p s in if String.◌∷◌ c "" == String.◌∷◌ d "" then rest else false

-- `sub in s`
abbrev pub has : String → String → Bool
has sub String.[] = begins sub ""
has sub (String.◌∷◌ c s) =
    let rest = has sub s in if begins sub (String.◌∷◌ c s) then true else rest

begins-append : (p s : String) → begins p (p ++ s) ≡ true
begins-append String.[] s = refl
begins-append (String.◌∷◌ c p) s =
    rw (append.cons c p s)
      (ground (arith, begins-append p s, eq_iff (String.◌∷◌ c "") (String.◌∷◌ c "")))

has-begins : (sub s : String) → begins sub s ≡ true → has sub s ≡ true
has-begins sub String.[] h = h
has-begins sub (String.◌∷◌ c s) h = rw h refl

-- a text has what it begins with
pub has-append : (sub s : String) → has sub (sub ++ s) ≡ true
has-append sub s = has-begins sub (sub ++ s) (begins-append sub s)

-- a text has what one of its ends has
pub has-append_right : (sub p s : String) → has sub s ≡ true → has sub (p ++ s) ≡ true
has-append_right sub String.[] s h = rw (append.nil s) h
has-append_right sub (String.◌∷◌ c p) s h =
    rw (append.cons c p s) (ground (arith, has-append_right sub p s h))

-- `s.endswith(suffix)`
abbrev pub ends_with : String → String → Bool
ends_with suffix String.[] = suffix == ""
ends_with suffix (String.◌∷◌ c s) =
    let rest = ends_with suffix s in if String.◌∷◌ c s == suffix then true else rest

-- `s.split(sep)[0]`
abbrev pub before_text : String → String → String
before_text sep s = elim (find? s sep) [ none ↦ s | some n ↦ prefix n s ]

-- `s.split(".")[-1]`
abbrev pub after_dot : String → String
after_dot String.[] = ""
after_dot (String.◌∷◌ c s) =
    let rest = after_dot s in
    if has "." s then rest else if String.◌∷◌ c "" == "." then s else String.◌∷◌ c s

-- `s.replace(old, new)`, `skip` characters into a match
abbrev replace_from : String → String → ℕ → String → String
replace_from old new skip String.[] = ""
replace_from old new (suc skip) (String.◌∷◌ c s) = replace_from old new skip s
replace_from old new zero (String.◌∷◌ c s) =
    let found = begins old (String.◌∷◌ c s) in
    (if found then new else String.◌∷◌ c "")
    ++ replace_from old new (if found then text_length old - 1 else 0) s

abbrev pub replace : String → String → String → String
replace old new s = replace_from old new 0 s

replace_lem : replace "_store" "_embedding" "docs_store_v1" ≡ "docs_embedding_v1"
replace_lem = refl

after_dot_lem : after_dot "public.ai.docs" ≡ "docs"
after_dot_lem = refl

before_text_lem : before_text "_branch_" "docs_branch_x_branch_y" ≡ "docs"
before_text_lem = refl
