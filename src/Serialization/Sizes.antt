-- ===== src/Serialization/Sizes.antt =====
-- provider/dynamic_serialization.py: a bounded value keeps within its caps.
use ma_provider_mcp.Prelude.{
  ℕ, zero, suc, ◌+◌, ◌-◌, ◌≤◌, ◌==◌, ◌≡◌, refl, sym, subst, ◌∙◌, Bool, true, false, Option, some,
  List, [], ◌∷◌, map, length, length-append, all, all-map, leb, Bool-cases, inl, inr, arith,
}
use ma_provider_mcp.Serialization.Json.{Text, Json, put, take, sort_by, bounded_string}
use ma_provider_mcp.Serialization.Native.{
  Value, nothing, boolean, numeric, string, enumerated, dated, printed, reference, Shape, to_dict,
  model_dump, dataclass, mapping, unordered, sequence, opaque, Heap, Python, is_active, shape_at,
  type_text, cycle_text,
}
use ma_provider_mcp.Serialization.Whole.{fuel_for}
use ma_provider_mcp.Serialization.Bounded.{
  BoundedJson, Caps, each_bounded, every_bounded, kept_items, new_key, walk_fields, bounded_plain,
  bounded_shape, bounded_object, bounded_value,
}
use ma_provider_mcp.Serialization.Seen.{given-some, map-some}
use ma_provider_mcp.Serialization.Within.{
  Limits, within, array-within, object-within, length-put, all-put, length-take, all-take, all-sort,
  length-map, length-bounded_string,
}

abbrev pub limits_of : Caps → ℕ → Limits
limits_of caps chars = record { items = caps.item_cap; keys = caps.mapping_cap; chars = chars }

pub of_some :
    {A : Type 0} (p : A → Bool) (a b : A)
    → Path (Option A) (some a) (some b)
    → p a ≡ true
    → p b ≡ true
of_some p a b h g = let same : a ≡ b = cc in subst (λ c. p c ≡ true) same g

le→leb : (a b : ℕ) → a ≤ b → leb a b ≡ true
le→leb a b h = ground arith

module _ {Number : Type 0} (l : Limits) where
  abbrev is_within : ℕ → BoundedJson Number → Bool
  is_within d b = within l d b.value

  module _ (child : Value Number → Option (BoundedJson Number)) (d : ℕ)
      (good : (v : Value Number) (b : BoundedJson Number)
        → child v ≡ some b
        → within l d b.value ≡ true) where
    each_bounded-within :
        (n : ℕ) (vs : List (Value Number)) (bs : List (BoundedJson Number))
        → each_bounded child n vs ≡ some bs
        → (all (is_within d) bs ≡ true) × (length bs ≤ n)
    each_bounded-within n [] bs h =
        let same : [] ≡ bs = cc in
        subst (λ cs. (all (is_within d) cs ≡ true) × (length cs ≤ n)) same (refl, omega arith)
    each_bounded-within zero (v ∷ vs) bs h =
        let same : [] ≡ bs = cc in
        subst (λ cs. (all (is_within d) cs ≡ true) × (length cs ≤ 0)) same (refl, omega arith)
    each_bounded-within (suc n) (v ∷ vs) bs h =
        let (b, first, rest) = given-some (child v) _ bs h in
        let (cs, others, same) = map-some (λ ds. b ∷ ds) (each_bounded child n vs) bs rest in
        let (kept, few) = each_bounded-within n vs cs others in
        subst (λ ds. (all (is_within d) ds ≡ true) × (length ds ≤ suc n)) same
          (rw (good v b first) kept, omega (arith, few))

    every_bounded-within :
        (vs : List (Value Number)) (bs : List (BoundedJson Number))
        → every_bounded child vs ≡ some bs
        → all (is_within d) bs ≡ true
    every_bounded-within [] bs h = of_some (all (is_within d)) [] bs h refl
    every_bounded-within (v ∷ vs) bs h =
        let (b, first, rest) = given-some (child v) _ bs h in
        let (cs, others, same) = map-some (λ ds. b ∷ ds) (every_bounded child vs) bs rest in
        subst (λ ds. all (is_within d) ds ≡ true) same
          (rw (good v b first) (every_bounded-within vs cs others))

  kept-within :
      (d count : ℕ) (bs : List (BoundedJson Number))
      → (d == 0) ≡ false
      → all (is_within (d - 1)) bs ≡ true
      → length bs ≤ l.items
      → within l d (kept_items l.items count bs).value ≡ true
  kept-within d count bs z h n =
      array-within l d (map (λ b. b.value) bs) z
        (subst (λ m. m ≤ l.items) (sym (length-map (λ b. b.value) bs)) n)
        (all-map (within l (d - 1)) (λ b. b.value) bs ∙ h)

  module _ (python : Python Number) (caps : Caps)
      (child : Value Number → Option (BoundedJson Number)) (d : ℕ) (z : (d == 0) ≡ false)
      (good : (v : Value Number) (b : BoundedJson Number)
        → child v ≡ some b
        → within l (d - 1) b.value ≡ true) where
    walk_fields-within :
        (n : ℕ) (result : List (Text × Json Number)) (truncated : Bool)
        (fs : List (Text × Value Number)) (b : BoundedJson Number)
        → walk_fields python caps child n result truncated fs ≡ some b
        → length result + n ≤ l.keys
        → all (λ f. within l (d - 1) f.1) result ≡ true
        → within l d b.value ≡ true
    walk_fields-within n result truncated [] b h few kept =
        of_some (is_within d) _ b h (object-within l d result z (omega arith) kept)
    walk_fields-within zero result truncated (f ∷ fs) b h few kept =
        of_some (is_within d) _ b h (object-within l d result z (omega arith) kept)
    walk_fields-within (suc n) result truncated ((k, v) ∷ fs) b h few kept =
        let (c, first, rest) = given-some (child v) _ b h in
        let key = new_key python (bounded_string k (some caps.string_cap)) result in
        walk_fields-within n (put key c.value result) _ fs b rest
          (omega (arith, length-put key c.value result))
          (all-put (within l (d - 1)) key c.value result (good v c first) kept)

module _ {Number : Type 0} (python : Python Number) (caps : Caps) (chars : ℕ)
    (texts : caps.string_cap + 1 ≤ chars) where
  bounded_plain-within :
      (at : ℕ → Option (BoundedJson Number)) (d : ℕ)
      → ((i : ℕ) (b : BoundedJson Number)
          → at i ≡ some b
          → within (limits_of caps chars) d b.value ≡ true)
      → (v : Value Number) (b : BoundedJson Number) → bounded_plain python caps at v ≡ some b
      → within (limits_of caps chars) d b.value ≡ true
  bounded_plain-within at d good nothing b h =
      of_some (is_within (limits_of caps chars) d) _ b h refl
  bounded_plain-within at d good (boolean x) b h =
      of_some (is_within (limits_of caps chars) d) _ b h refl
  bounded_plain-within at d good (numeric n) b h =
      of_some (is_within (limits_of caps chars) d) _ b h
        (elim (Bool-cases (python.is_finite n)) [ inl e ↦ rw e refl | inr e ↦ rw e refl ])
  bounded_plain-within at d good (string s) b h =
      of_some (is_within (limits_of caps chars) d) _ b h
        (le→leb _ chars (omega (arith, texts, length-bounded_string s caps.string_cap)))
  bounded_plain-within at d good (enumerated v) b h = bounded_plain-within at d good v b h
  bounded_plain-within at d good (dated s) b h =
      of_some (is_within (limits_of caps chars) d) _ b h
        (le→leb _ chars (omega (arith, texts, length-bounded_string s caps.string_cap)))
  bounded_plain-within at d good (printed s) b h =
      of_some (is_within (limits_of caps chars) d) _ b h
        (le→leb _ chars (omega (arith, texts, length-bounded_string s caps.string_cap)))
  bounded_plain-within at d good (reference i) b h = good i b h

  module _ (heap : Heap Number) (marker : 11 ≤ chars)
      (named : (i : ℕ) → length (cycle_text heap i) ≤ chars) where
    type_text-le : (i : ℕ) → length (type_text heap i) ≤ chars
    type_text-le i = omega (
      arith,
      named i,
      length-append (heap.type_name i) (62 ∷ []),
      length-append (heap.type_name i) (58 ∷ 99 ∷ 121 ∷ 99 ∷ 108 ∷ 101 ∷ 62 ∷ []),
    )

    bounded_shape-within :
        (child : ℕ → Value Number → Option (BoundedJson Number)) (d i : ℕ)
        → (d == 0) ≡ false
        → ((e : ℕ) (v : Value Number) (b : BoundedJson Number)
            → child e v ≡ some b
            → within (limits_of caps chars) e b.value ≡ true)
        → (s : Shape Number) (b : BoundedJson Number)
        → bounded_shape python caps heap child d i s ≡ some b
        → within (limits_of caps chars) d b.value ≡ true
    bounded_shape-within child d i z good (to_dict v) b h = good d v b h
    bounded_shape-within child d i z good (model_dump v) b h = good d v b h
    bounded_shape-within child d i z good (dataclass fs) b h =
        walk_fields-within (limits_of caps chars) python caps (child (d - 1)) d z (good (d - 1))
          caps.mapping_cap [] false fs b h (omega arith) refl
    bounded_shape-within child d i z good (mapping fs) b h =
        walk_fields-within (limits_of caps chars) python caps (child (d - 1)) d z (good (d - 1))
          caps.mapping_cap [] false fs b h (omega arith) refl
    bounded_shape-within child d i z good (unordered vs) b h =
        let (bs, all_found, same) = map-some _ (every_bounded (child (d - 1)) vs) b h in
        let key : BoundedJson Number → Text = λ c. python.dumps c.value in
        let sorted = all-sort (is_within (limits_of caps chars) (d - 1)) key bs (
          every_bounded-within (limits_of caps chars) (child (d - 1)) (d - 1) (good (d - 1)) vs bs
            all_found) in
        subst (λ c. is_within (limits_of caps chars) d c ≡ true) same
          (kept-within (limits_of caps chars) d (length bs) (take caps.item_cap (sort_by key bs)) z
            (all-take (is_within (limits_of caps chars) (d - 1)) caps.item_cap (sort_by key bs)
              sorted)
            (length-take caps.item_cap (sort_by key bs)))
    bounded_shape-within child d i z good (sequence vs) b h =
        let (bs, all_found, same) =
          map-some _ (each_bounded (child (d - 1)) caps.item_cap vs) b h in
        let (kept, few) =
          each_bounded-within (limits_of caps chars) (child (d - 1)) (d - 1) (good (d - 1))
            caps.item_cap vs bs all_found in
        subst (λ c. is_within (limits_of caps chars) d c ≡ true) same
          (kept-within (limits_of caps chars) d (length vs) bs z kept few)
    bounded_shape-within child d i z good opaque b h =
        of_some (is_within (limits_of caps chars) d) _ b h (le→leb _ chars (type_text-le i))

    bounded_object-within :
        (fuel : ℕ) (active : List ℕ) (d i : ℕ) (b : BoundedJson Number)
        → bounded_object python caps heap fuel active d i ≡ some b
        → within (limits_of caps chars) d b.value ≡ true
    bounded_object-within zero active d i b h = absurd cc
    bounded_object-within (suc fuel) active d i b h = elim (Bool-cases (d == 0)) [
      | inl z ↦
          of_some (is_within (limits_of caps chars) d) _ b (rw (z, bounded_object) at h)
            (le→leb 11 chars marker)
      | inr z ↦ elim (Bool-cases (is_active i active)) [
        | inl e ↦
            of_some (is_within (limits_of caps chars) d) _ b (rw (z, e, bounded_object) at h)
              (le→leb _ chars (named i))
        | inr e ↦
            bounded_shape-within
              (λ c v.
                bounded_plain python caps (bounded_object python caps heap fuel (i ∷ active) c) v)
              d i z
              (λ c v x g.
                bounded_plain-within (bounded_object python caps heap fuel (i ∷ active) c) c
                  (λ j y k. bounded_object-within fuel (i ∷ active) c j y k) v x g)
              (shape_at heap.shapes i) b (rw (z, e, bounded_object) at h)
      ]
    ]

    pub bounded_value-within :
        (d : ℕ) (v : Value Number) (b : BoundedJson Number)
        → bounded_value python caps heap d v ≡ some b
        → within (limits_of caps chars) d b.value ≡ true
    unfolding bounded_value
    bounded_value-within d v b h =
        bounded_plain-within _ d (λ i c k. bounded_object-within (fuel_for python heap) [] d i c k)
          v b h
