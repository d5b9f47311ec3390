-- ===== src/Teardown/Like.antt =====
-- The operator LIKE of SQL, for patterns without an escape character.
use Prim.Native.String.{String}
use postgres_search_replica.Prelude.{
  Bool, true, false, ◌&&◌, ◌||◌, ◌==◌, string_eq, ◌≡◌, refl, if◌then◌else◌,
}

-- some end of the text passes the test
abbrev any_suffix : (String → Bool) → String → Bool
any_suffix test String.[] = test ""
any_suffix test (String.◌∷◌ c s) =
    let rest = any_suffix test s in if test (String.◌∷◌ c s) then true else rest

-- the first character is there and passes the test, and the rest passes the other
abbrev next_char : (String → Bool) → (String → Bool) → String → Bool
next_char char rest String.[] = false
next_char char rest (String.◌∷◌ c s) = char (String.◌∷◌ c "") && rest s

-- `%` stands for any text and `_` for any character
unfoldable pub like : String → String → Bool
like String.[] = λ s. s == ""
like (String.◌∷◌ p pattern) =
    let rest = like pattern in
    if String.◌∷◌ p "" == "%"
    then any_suffix rest
    else next_char (λ c. String.◌∷◌ p "" == "_" || (c == String.◌∷◌ p "")) rest

like_store : like "docs_store%" "docs_store_v1" ≡ true
unfolding like
like_store = refl

like_wildcard : like "docs_store%" "docsXstore_v1" ≡ true
unfolding like
like_wildcard = refl

unlike_table : like "books_store%" "docs_store_v1" ≡ false
unfolding like
unlike_table = refl
