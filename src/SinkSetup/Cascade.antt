-- ===== src/SinkSetup/Cascade.antt =====
-- The rounds of a CASCADE in `cleanup_vectorizer_infrastructure` of src/pg_replica/database.py are enough.
use postgres_search_replica.Prelude.{
  ℕ, zero, suc, ◌≤◌, ◌<◌, String, string_eq, ◌≡◌, refl, ap, ◌∙◌, inl, inr, Bool, true, false, not,
  or_else, List, [], ◌∷◌, keep, keep-Elem, Elem-keep, Elem, any, any-Elem, length, arith, eq_iff,
  Bool-cases,
}
use postgres_search_replica.Prelude.Dict.{lookup, member, member-Elem}
use postgres_search_replica.Inspector.{SinkCatalog}
use postgres_search_replica.SinkSetup.Cleanup.{uses_any, cascade}
use postgres_search_replica.SinkSetup.Relations.{cascade-Shrinks}

length-keep : (p : String → Bool) (xs : List String) → length (keep p xs) ≤ length xs
length-keep p [] = omega arith
length-keep p (x ∷ xs) = ground (arith, length-keep p xs)

length-keep_lt :
    (p : String → Bool) (w : String) (xs : List String)
    → Elem w xs
    → p w ≡ false
    → length (keep p xs) < length xs
length-keep_lt p w [] m f = elim m [ ]
length-keep_lt p w (x ∷ xs) (inl e) f = ground (arith, ap p e, f, length-keep p xs)
length-keep_lt p w (x ∷ xs) (inr m) f = ground (arith, length-keep_lt p w xs m f)

any-member :
    (w : String) (gone rows : List String)
    → any (λ r. member r gone) rows ≡ false
    → member w gone ≡ true
    → member w rows ≡ false
any-member w gone [] h m = refl
any-member w gone (r ∷ rows) h m =
    ground (arith, eq_iff r w, h, m, ap (λ x. member x gone), any-member w gone rows)

length-Elem : (x : String) (xs : List String) → Elem x xs → 1 ≤ length xs
length-Elem x [] m = elim m [ ]
length-Elem x (y ∷ ys) m = omega arith

keep-none :
    (p : String → Bool) (xs : List String)
    → ((x : String) → Elem x xs → p x ≡ false)
    → keep p xs ≡ []
keep-none p [] h = refl
keep-none p (x ∷ xs) h = rw (h x (inl refl)) (keep-none p xs (λ y m. h y (inr m)))

any-none : (rows : List String) → any (λ r. member r []) rows ≡ false
any-none [] = refl
any-none (r ∷ rows) = any-none rows

none_holds :
    (p : String → Bool) (x : String) (xs : List String) → any p xs ≡ false → Elem x xs → p x ≡ false
none_holds p x [] h m = elim m [ ]
none_holds p x (y ∷ ys) h (inl e) = ground (arith, ap p e, h)
none_holds p x (y ∷ ys) h (inr m) = none_holds p x ys (ground (arith, h)) m

-- the views that are left after a round
abbrev left : List String → SinkCatalog → SinkCatalog
left gone c = record c { views = keep (λ view. not (uses_any gone c view)) c.views }

-- with a round for each view, none is left that reads what was gone at first
cascade-unused :
    (fuel : ℕ) (gone : List String) (c : SinkCatalog) (v : String)
    → length c.views ≤ fuel
    → Elem v (cascade fuel gone c).views
    → uses_any gone c v ≡ false
unfolding cascade
cascade-unused zero gone c v n m = absurd (omega (arith, n, length-Elem v c.views m))
cascade-unused (suc fuel) gone c v n m = ground (
  arith,
  (keep-Elem (λ view. not (uses_any gone c view)) v c.views
      ((cascade-Shrinks fuel (keep (uses_any gone c) c.views) (left gone c)).views_go v m)).1,
)

-- a round without a view to drop is the last
cascade-nothing :
    (fuel : ℕ) (gone : List String) (c : SinkCatalog) (w : String)
    → ((v : String) → Elem v c.views → uses_any gone c v ≡ false)
    → Elem w c.views
    → Elem w (cascade fuel gone c).views
unfolding cascade
cascade-nothing zero gone c w idle m = m
cascade-nothing (suc fuel) gone c w idle m =
    cascade-nothing fuel (keep (uses_any gone c) c.views) (left gone c) w
      (λ v k.
        ap (λ dropped. uses_any dropped (left gone c) v) (keep-none (uses_any gone c) c.views idle)
        ∙ any-none (or_else (lookup v c.view_usage) []))
      (Elem-keep (λ view. not (uses_any gone c view)) w c.views m (ap not (idle w m)))

-- A DROP with CASCADE, with a round for each view of the sink, leaves no view that reads a view which it
-- has dropped: `w` is gone, and `v` is left.
pub cascade-closed :
    (fuel : ℕ) (gone : List String) (c : SinkCatalog) (v w : String)
    → length c.views ≤ fuel
    → Elem v (cascade fuel gone c).views
    → Elem w c.views
    → member w (cascade fuel gone c).views ≡ false
    → member w (or_else (lookup v c.view_usage) []) ≡ false
unfolding cascade
cascade-closed zero gone c v w n m there away =
    absurd (omega (arith, n, length-Elem w c.views there))
cascade-closed (suc fuel) gone c v w n m there away = elim (Bool-cases (uses_any gone c w)) [
  | inl t ↦
      any-member w (keep (uses_any gone c) c.views) (or_else (lookup v c.view_usage) [])
        (cascade-unused fuel (keep (uses_any gone c) c.views) (left gone c) v (fewer w there t) m)
        (member-Elem w (keep (uses_any gone c) c.views)
          (Elem-keep (uses_any gone c) w c.views there t))
  | inr f ↦
      let stays : Elem w (left gone c).views =
        Elem-keep (λ view. not (uses_any gone c view)) w c.views there (ap not f) in
      elim (Bool-cases (any (uses_any gone c) c.views)) [
        | inl some_go ↦
            let (x, k, t) = any-Elem (uses_any gone c) c.views some_go in
            cascade-closed fuel (keep (uses_any gone c) c.views) (left gone c) v w (fewer x k t) m
              stays away
        | inr none_go ↦ cc (
          away,
          member-Elem w (cascade (suc fuel) gone c).views
              (cascade-nothing (suc fuel) gone c w (idle none_go) there),
        )
      ]
]
  where
    fewer :
        (x : String) → Elem x c.views → uses_any gone c x ≡ true → length (left gone c).views ≤ fuel
    fewer x k t =
        omega (arith, n, length-keep_lt (λ view. not (uses_any gone c view)) x c.views k (ap not t))

    idle :
        any (uses_any gone c) c.views ≡ false
        → (x : String) → Elem x c.views
        → uses_any gone c x ≡ false
    idle none_go x k = none_holds (uses_any gone c) x c.views none_go k
