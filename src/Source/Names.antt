-- ===== src/Source/Names.antt =====
-- The methods of str that the file sources call on URIs, and the row of a file.
use Prim.Native.String.{String}
use postgres_search_replica.Prelude.{
  ℕ, Bool, false, ◌&&◌, Option, none, some, ◌==◌, string_eq, if◌then◌else◌,
}

-- T is the type of times.
pub record FileRow (T : Type 0) : Type 0 where
  pub size : ℕ
  pub last_modified : T
  pub etag : String

-- `s.rstrip('/')`
abbrev pub rstrip_slash : String → String
rstrip_slash String.[] = ""
rstrip_slash (String.◌∷◌ c s) =
    let rest = rstrip_slash s in
    if (String.◌∷◌ c "" == "/") && (rest == "") then "" else String.◌∷◌ c rest

-- `s.endswith('/')`
abbrev pub ends_with_slash : String → Bool
ends_with_slash String.[] = false
ends_with_slash (String.◌∷◌ c s) =
    let rest = ends_with_slash s in if s == "" then String.◌∷◌ c "" == "/" else rest

-- `s.replace(p, "", 1)` of a text that starts with `p`
abbrev pub strip_prefix : String → String → Option String
strip_prefix String.[] s = some s
strip_prefix (String.◌∷◌ c p) String.[] = none
strip_prefix (String.◌∷◌ c p) (String.◌∷◌ d s) =
    let rest = strip_prefix p s in if String.◌∷◌ c "" == String.◌∷◌ d "" then rest else none
