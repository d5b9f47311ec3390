-- ===== src/Mirror/Collect.antt =====
-- What `sync_batch` of src/pg_replica/adapters.py gathers for one collection before it calls the
-- engine.
use postgres_search_replica.Prelude.{
  ◌≡◌, refl, sym, ap, inl, inr, String, string_eq, ◌==◌, Option, none, List, [], ◌∷◌, ◌++◌, Elem,
  Elem-append_left, Elem-append_right, Bool-cases, Option-cases, List-cases,
}
use postgres_search_replica.Prelude.Dict.{Dict}
use postgres_search_replica.Prelude.Effects.{Result, ok, err, >>=-eq-ok, ok_inj}
use postgres_search_replica.Mirror.Outbox.{OutboxEntry}
use postgres_search_replica.Mirror.Qdrant.{
  PointId, Batch, point_id, usable_payload, add_upsert, append_upsert, add_entry, collect, text_at,
}

module _ {N X : Type 0} (integer : String → Option N) (loads : String → Result (List X)) where
  append_upsert-deletes :
      (x : OutboxEntry) (payload : Dict String (Option String)) (b c : Batch N X)
      (r : Result (List X))
      → append_upsert integer loads x payload b r ≡ ok c
      → b.deletes ≡ c.deletes
  append_upsert-deletes x payload b c (err y) h = cc
  append_upsert-deletes x payload b c (ok v) h = ap (λ b. b.deletes) (ok_inj h)

  add_upsert-deletes :
      (x : OutboxEntry) (payload : Dict String (Option String)) (b c : Batch N X)
      → add_upsert integer loads x payload b ≡ ok c
      → b.deletes ≡ c.deletes
  unfolding add_upsert
  add_upsert-deletes x payload b c h = elim (Option-cases (text_at "embedding" payload)) [
    | inl n ↦ ap (λ b. b.deletes) (ok_inj (rw (add_upsert, n) at h))
    | inr (text, s) ↦ elim (Bool-cases (text == "")) [
      | inl t ↦ ap (λ b. b.deletes) (ok_inj (rw (add_upsert, s, t) at h))
      | inr f ↦ append_upsert-deletes x payload b c (loads text) (rw (add_upsert, s, f) at h)
    ]
  ]

  -- the batch keeps the deletions it has
  add_entry-keeps :
      (i : PointId N) (x : OutboxEntry) (b c : Batch N X)
      → add_entry integer loads x b ≡ ok c
      → Elem i b.deletes
      → Elem i c.deletes
  unfolding add_entry
  add_entry-keeps i x b c h m = elim (Option-cases (usable_payload x)) [
    | inr (payload, s) ↦ rw (sym (add_upsert-deletes x payload b c (rw (add_entry, s) at h))) m
    | inl n ↦ elim (Bool-cases (x.action == "DELETE")) [
      | inl t ↦
          rw (sym (ap (λ b. b.deletes) (ok_inj (rw (add_entry, n, t) at h))))
            (Elem-append_left i b.deletes (point_id integer loads x.source_id ∷ []) m)
      | inr f ↦ rw (sym (ap (λ b. b.deletes) (ok_inj (rw (add_entry, n, f) at h)))) m
    ]
  ]

  collect-step :
      (x : OutboxEntry) (xs : List OutboxEntry) (b c : Batch N X)
      → collect integer loads (x ∷ xs) b ≡ ok c
      → (d : Batch N X) × (add_entry integer loads x b ≡ ok d) × (collect integer loads xs d ≡ ok c)
  unfolding collect
  collect-step x xs b c h = >>=-eq-ok (add_entry integer loads x b) (collect integer loads xs) h

  collect-keeps :
      (i : PointId N) (xs : List OutboxEntry) (b c : Batch N X)
      → collect integer loads xs b ≡ ok c
      → Elem i b.deletes
      → Elem i c.deletes
  unfolding collect
  collect-keeps i [] b c h m = rw (sym (ok_inj h)) m
  collect-keeps i (x ∷ xs) b c h m =
      let (d, first, rest) = collect-step x xs b c h in
      collect-keeps i xs d c rest (add_entry-keeps i x b d first m)

  usable_payload-delete : (x : OutboxEntry) → x.action ≡ "DELETE" → usable_payload x ≡ none
  usable_payload-delete x h = elim (Option-cases x.payload) [
    | inl n ↦ rw n refl
    | inr (ps, s) ↦ elim (List-cases ps) [
      | inl e ↦ rw (s, e) refl
      | inr (p, rest, e) ↦ rw (s, e, h) refl
    ]
  ]

  -- every deletion of the entries is in the batch
  pub collect-Elem :
      (x : OutboxEntry) (xs : List OutboxEntry) (b c : Batch N X)
      → x.action ≡ "DELETE"
      → collect integer loads xs b ≡ ok c
      → Elem x xs
      → Elem (point_id integer loads x.source_id) c.deletes
  unfolding collect add_entry
  collect-Elem x [] b c a h m = elim m [ ]
  collect-Elem x (y ∷ xs) b c a h (inr m) =
      let (d, first, rest) = collect-step y xs b c h in collect-Elem x xs d c a rest m
  collect-Elem x (y ∷ xs) b c a h (inl p) =
      let (d, first, rest) = collect-step y xs b c h in
      let i = point_id integer loads x.source_id in
      let deleted : add_entry integer loads x b ≡ ok d = rw p first in
      let same : b.deletes ++ i ∷ [] ≡ d.deletes =
        ap (λ b. b.deletes) (ok_inj (rw (add_entry, usable_payload-delete x a, a) at deleted)) in
      collect-keeps i xs d c rest
        (rw (sym same) (Elem-append_right i b.deletes (i ∷ []) (inl refl)))
