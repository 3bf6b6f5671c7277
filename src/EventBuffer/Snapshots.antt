-- ===== src/EventBuffer/Snapshots.antt =====
-- provider/debug/event_buffer.py: what `snapshot` returns.
use ma_provider_mcp.Prelude.{
  ℕ, ◌≡◌, refl, ap, ◌∙◌, inl, inr, Bool, true, false, not, ◌&&◌, Option, List, [], ◌∷◌, ◌++◌,
  length, filter, if◌then◌else◌, String, ltb, Bool-cases,
}
use ma_provider_mcp.EventBuffer.Buffer.{
  EventRecord, EventBuffer, Filters, last, max, min, wrong_type, wrong_id, expired, hidden, results,
  snapshot,
}
use ma_provider_mcp.EventBuffer.History.{length-last}

last-suffix {ℓ} : {A : Type ℓ} (n : ℕ) (xs : List A) → (older : List A) × (older ++ last n xs ≡ xs)
unfolding last
last-suffix n [] = ([], refl)
last-suffix n (x ∷ xs) =
    let (older, e) = last-suffix n xs in
    elim (Bool-cases (ltb n (length (x ∷ xs)))) [
      | inl more ↦ rw more (x ∷ older, ap (λ t. x ∷ t) e)
      | inr fits ↦ rw fits ([], refl)
    ]

skipped {ℓ} :
    {A : Type ℓ} (a b c d : Bool) (x y : A)
    → (if a then y else if b then y else if c then y else if d then y else x)
      ≡ (if not a && not b && not c && not d then x else y)
skipped true b c d x y = refl
skipped false true c d x y = refl
skipped false false true d x y = refl
skipped false false false true x y = refl
skipped false false false false x y = refl

module _ {Data : Type 0} (too_old : ℕ → String → Option Bool) where
  -- A record that no filter refuses.
  abbrev pub passes : Filters Data → EventRecord Data → Bool
  passes f r =
      not (wrong_type f.event_types r)
      && not (wrong_id f.id_filter r)
      && not (expired too_old f.since_seconds r)
      && not (hidden f.visible r)

  results-filter :
      (f : Filters Data) (rs : List (EventRecord Data))
      → results too_old f rs ≡ filter (passes f) rs
  unfolding results
  results-filter f [] = refl
  results-filter f (r ∷ rs) =
      ap
        (λ rest.
          if wrong_type f.event_types r
          then rest
          else if wrong_id f.id_filter r
          then rest
          else if expired too_old f.since_seconds r
          then rest
          else if hidden f.visible r
          then rest
          else r ∷ rest)
        (results-filter f rs)
      ∙ skipped (wrong_type f.event_types r) (wrong_id f.id_filter r)
          (expired too_old f.since_seconds r) (hidden f.visible r) (r ∷ filter (passes f) rs)
          (filter (passes f) rs)

  -- A snapshot is the newest part of the records that pass every filter, in their order, and as many
  -- of them as there are up to the limit, which is put between 1 and 1000.
  pub snapshot-newest :
      {Handle Time : Type 0} (limit : ℕ) (f : Filters Data) (b : EventBuffer Data Handle Time)
      → (length (snapshot too_old limit f b)
          ≡ min (length (filter (passes f) b.queue)) (max 1 (min limit 1000)))
        × ((older : List (EventRecord Data)) × (older ++ snapshot too_old limit f b
              ≡ filter (passes f) b.queue))
  unfolding snapshot
  snapshot-newest limit f b = rw (results-filter f b.queue) (
    length-last (max 1 (min limit 1000)) (filter (passes f) b.queue),
    last-suffix (max 1 (min limit 1000)) (filter (passes f) b.queue),
  )
