-- ===== src/Sync/CatchUp.antt =====
-- The catch-up loop of SINK_RECOVERY in src/pg_replica/reconciler.py, over any fetcher that pages by
-- key. The loop has fuel; a round for each row that is left, and one more, are enough.
use mathlib.Core.List.{append-nil}
use postgres_search_replica.Prelude.{
  ℕ, zero, suc, ◌+◌, ◌<◌, ◌≡◌, refl, sym, ap, ◌∙◌, inl, inr, Bool, true, ◌&&◌, Option, none, some,
  List, [], ◌∷◌, ◌++◌, arith, Eq, All, keep, take, length, Bool-cases, List-cases, &&-true,
}
use postgres_search_replica.Prelude.Dict.{Dict}
use postgres_search_replica.Sync.Order.{Order, ◌≺◌, Ascending}
use postgres_search_replica.Sync.Table.{upsert_all, upsert_all-append}
use postgres_search_replica.Sync.Keyset.{
  drop, above, above_trans, last_key-above, keep-true, take-append-drop, length-drop, keep-ext,
  keep-keep, after, last_key, keep-Ascending, page-rest,
}

-- The sink table, the `last_id` of the target's row in _replica_state (`none` where there is no
-- row: an UPDATE then changes nothing), and the number of rows synced.
pub record Progress (K V : Type 0) : Type 0 where
  pub table : Dict K V
  pub saved : Option (Option K)
  pub total : ℕ

abbrev pub Fetcher : Type 0 → Type 0 → Type 0
Fetcher K V = Option K → ℕ → List (K × V)

-- `update_replica_state(…, last_id=…)`
abbrev pub save : {K : Type 0} → K → Option (Option K) → Option (Option K)
save k none = none
save k (some old) = some (some k)

save-save : {K : Type 0} (a b : K) (s : Option (Option K)) → save b (save a s) ≡ save b s
save-save a b none = refl
save-save a b (some x) = refl

module _ {K V : Type 0} ⦃e : Eq K⦄ ⦃o : Order K⦄ where
  -- one round, on the page `r ∷ rs`
  unfoldable pub store_page : K × V → List (K × V) → Progress K V → Progress K V
  store_page r rs s = record {
    table = upsert_all s.table (r ∷ rs);
    saved = save (last_key r.0 rs) s.saved;
    total = s.total + length (r ∷ rs);
  }

  -- `while True: rows = fetch_batch(…); if not rows: break; …`
  unfoldable pub catch_up : Fetcher K V → ℕ → ℕ → Option K → Progress K V → Option (Progress K V)
  catch_up fetch size zero last s = none
  catch_up fetch size (suc fuel) last s = elim (fetch last size) [
    | [] ↦ some s
    | r ∷ rs ↦ catch_up fetch size fuel (some (last_key r.0 rs)) (store_page r rs s)
  ]

  catch_up-nil :
      (fetch : Fetcher K V) (size fuel : ℕ) (last : Option K) (s : Progress K V)
      → fetch last size ≡ []
      → catch_up fetch size (suc fuel) last s ≡ some s
  unfolding catch_up
  catch_up-nil fetch size fuel last s h = rw (h, catch_up)

  catch_up-cons :
      (fetch : Fetcher K V) (size fuel : ℕ) (last : Option K) (s : Progress K V) (r : K × V)
      (rs : List (K × V))
      → fetch last size ≡ r ∷ rs
      → catch_up fetch size (suc fuel) last s
        ≡ catch_up fetch size fuel (some (last_key r.0 rs)) (store_page r rs s)
  unfolding catch_up
  catch_up-cons fetch size fuel last s r rs h = rw (h, catch_up)

  -- The contract of a fetcher: the first rows, by ascending keys, that match the filter and lie
  -- above the last key.
  pub record IsKeyset (rows : List (K × V)) (filter : K × V → Bool) (fetch : Fetcher K V)
      : Type 0 where
    pub page :
        (last : Option K) (n : ℕ)
        → fetch last n ≡ take n (keep (λ r. filter r && after last r) rows)

  -- all rows at once
  abbrev pub store_all : List (K × V) → Progress K V → Progress K V
  store_all [] s = s
  store_all (r ∷ rs) s = store_page r rs s

  abbrev pub pending : List (K × V) → (K × V → Bool) → Option K → List (K × V)
  pending rows filter last = keep (λ r. filter r && after last r) rows

  last_key-append :
      (k : K) (xs : List (K × V)) (r : K × V) (ys : List (K × V))
      → last_key k (xs ++ r ∷ ys) ≡ last_key r.0 ys
  last_key-append k [] r ys = refl
  last_key-append k (x ∷ xs) r ys = last_key-append x.0 xs r ys

  length-append : (xs ys : List (K × V)) → length (xs ++ ys) ≡ length xs + length ys
  length-append [] ys = omega arith
  length-append (x ∷ xs) ys = omega (arith, length-append xs ys)

  -- storing one page and then the rest is storing all
  store_all-append :
      (r : K × V) (rs ys : List (K × V)) (s : Progress K V)
      → store_all ys (store_page r rs s) ≡ store_page r (rs ++ ys) s
  unfolding store_page
  store_all-append r rs [] s = rw append-nil
  store_all-append r rs (y ∷ ys) s = ground (
    arith,
    upsert_all-append s.table (r ∷ rs) (y ∷ ys),
    save-save (last_key r.0 rs) (last_key y.0 ys) s.saved,
    last_key-append r.0 rs y ys,
    length-append rs (y ∷ ys),
  )

  module _ (rows : List (K × V)) (filter : K × V → Bool) (sorted : Ascending rows) where
    -- after a page that ends at `last`, what is pending is what the page left over
    pub pending-page :
        (old : Option K) (n : ℕ) (r : K × V) (rs : List (K × V))
        → pending rows filter old ≡ r ∷ rs
        → pending rows filter (some (last_key r.0 (take n rs))) ≡ drop n rs
    pending-page old n r rs h =
        let new : K = last_key r.0 (take n rs) in
        sym (
          keep-ext (λ s. (filter s && after old s) && (new ≺ s.0)) (λ s. filter s && (new ≺ s.0))
            (λ s. narrower new s (λ t. above_trans old new s.0 new_above t)) rows)
        ∙ sym (keep-keep (λ s. filter s && after old s) (λ s. new ≺ s.0) rows)
        ∙ ap (keep (λ s. new ≺ s.0)) h
        ∙ page-rest n r rs ascending
      where
        ascending : Ascending (r ∷ rs)
        ascending = rw h at (keep-Ascending (λ s. filter s && after old s) rows sorted)

        head_above : above old r.0 ≡ true
        head_above =
            let all : All (λ s. (filter s && after old s) ≡ true) (r ∷ rs) =
              rw h at (keep-true (λ s. filter s && after old s) rows) in
            (&&-true (filter r) (after old r) all.0).1

        new_above : above old (last_key r.0 (take n rs)) ≡ true
        new_above = elim (last_key-above n r.0 rs ascending.0 ascending.1) [
          | inl e ↦ rw e head_above
          | inr t ↦ above_trans old r.0 (last_key r.0 (take n rs)) head_above t
        ]

        narrower :
            (new : K) (s : K × V)
            → ((new ≺ s.0) ≡ true → after old s ≡ true)
            → ((filter s && after old s) && (new ≺ s.0)) ≡ (filter s && (new ≺ s.0))
        narrower new s k = elim (Bool-cases (new ≺ s.0)) [
          | inl t ↦ ground (arith, k t)
          | inr f ↦ ground arith
        ]

    module _ (fetch : Fetcher K V) (law : IsKeyset rows filter fetch) (m : ℕ) where
      -- With fuel above the number of pending rows, the loop ends, and what it leaves is what one
      -- statement for all pending rows would leave, whatever the page size.
      pub catch_up-eq-store_all :
          (fuel : ℕ) (last : Option K) (s : Progress K V)
          → length (pending rows filter last) < fuel
          → catch_up fetch (suc m) fuel last s ≡ some (store_all (pending rows filter last) s)
      unfolding catch_up
      catch_up-eq-store_all zero last s h = elim h [ ]
      catch_up-eq-store_all (suc fuel) last s h = elim (List-cases (pending rows filter last)) [
        | inl e ↦
            catch_up-nil fetch (suc m) fuel last s (law.page last (suc m) ∙ ap (take (suc m)) e)
            ∙ ap (λ p. some (store_all p s)) (sym e)
        | inr (r, rs, e) ↦
            let left = pending-page last m r rs e in
            let next : Progress K V = store_page r (take m rs) s in
            catch_up-cons fetch (suc m) fuel last s r (take m rs)
              (law.page last (suc m) ∙ ap (take (suc m)) e)
            ∙ catch_up-eq-store_all fuel (some (last_key r.0 (take m rs))) next
                (omega (arith, ap length left, length-drop m rs, ap length e))
            ∙ ap (λ p. some (store_all p next)) left
            ∙ ap some (store_all-append r (take m rs) (drop m rs) s)
            ∙ ap (λ p. some (store_page r p s)) (take-append-drop m rs)
            ∙ ap (λ p. some (store_all p s)) (sym e)
      ]
