-- ===== src/Serialization/Lossless.antt =====
-- provider/dynamic_serialization.py: a bounded value that is not truncated is the whole one.
use ma_provider_mcp.Prelude.{
  ℕ, zero, suc, ◌-◌, ◌≤◌, ◌==◌, ◌≡◌, sym, ap, subst, ◌∙◌, Bool, true, false, ◌||◌, Option, some,
  List, [], ◌∷◌, map, length, any, ltb, Bool-cases, inl, inr, arith,
}
use mathlib.Core.Option
use mathlib.Core.Bool.{true≢false}
use ma_provider_mcp.Serialization.Json.{
  Text, Json, number, text, array, object, items_of, fields_of, put, take, sort_by, bounded_string,
}
use ma_provider_mcp.Serialization.Native.{
  Value, nothing, boolean, numeric, string, enumerated, dated, printed, reference, Shape, to_dict,
  model_dump, dataclass, mapping, unordered, sequence, opaque, Heap, Python, is_active, shape_at,
}
use ma_provider_mcp.Serialization.Whole.{
  each_child, each_field, json_plain, json_shape, json_object, fuel_for, json_value,
}
use ma_provider_mcp.Serialization.Bounded.{
  BoundedJson, as_is, as_text, Caps, each_bounded, every_bounded, kept_items, new_key, key_changed,
  walk_fields, bounded_plain, bounded_shape, bounded_object, bounded_value,
}
use ma_provider_mcp.Serialization.Redact.{redact, redact_value, bounded_json_value}
use ma_provider_mcp.Serialization.Seen.{given-some, map-some}
use ma_provider_mcp.Serialization.Kept.{
  neither, bounded_string-same, some_value, new_key-same, is_cut, take-all, length-sort, any-sort,
  map-sort,
}

module _ {Number : Type 0} (bounded : Value Number → Option (BoundedJson Number))
    (whole : Value Number → Option (Json Number))
    (agree : (v : Value Number) (b : BoundedJson Number)
      → bounded v ≡ some b
      → b.truncated ≡ false
      → whole v ≡ some b.value) where
  every-agrees :
      (vs : List (Value Number)) (bs : List (BoundedJson Number))
      → every_bounded bounded vs ≡ some bs
      → any is_cut bs ≡ false
      → each_child whole vs ≡ some (map (λ b. b.value) bs)
  every-agrees [] bs h u = ap (λ cs. some (map (λ b. b.value) cs)) (some_value [] bs h)
  every-agrees (v ∷ vs) bs h u =
      let (b, first, rest) = given-some (bounded v) _ bs h in
      let (cs, others, same) = map-some (λ ds. b ∷ ds) (every_bounded bounded vs) bs rest in
      let (uncut, more) =
        neither b.truncated (any is_cut cs) (subst (λ ds. any is_cut ds ≡ false) (sym same) u) in
      let child = agree v b first uncut in
      let children = every-agrees vs cs others more in
      rw (child, each_child) (rw children (ap (λ ds. some (map (λ c. c.value) ds)) same))

  each-agrees :
      (n : ℕ) (vs : List (Value Number)) (bs : List (BoundedJson Number))
      → each_bounded bounded n vs ≡ some bs
      → length vs ≤ n
      → any is_cut bs ≡ false
      → each_child whole vs ≡ some (map (λ b. b.value) bs)
  each-agrees n [] bs h few u = ap (λ cs. some (map (λ b. b.value) cs)) (some_value [] bs h)
  each-agrees zero (v ∷ vs) bs h few u = absurd (omega arith)
  each-agrees (suc n) (v ∷ vs) bs h few u =
      let (b, first, rest) = given-some (bounded v) _ bs h in
      let (cs, others, same) = map-some (λ ds. b ∷ ds) (each_bounded bounded n vs) bs rest in
      let (uncut, more) =
        neither b.truncated (any is_cut cs) (subst (λ ds. any is_cut ds ≡ false) (sym same) u) in
      let child = agree v b first uncut in
      let children = each-agrees n vs cs others (omega arith) more in
      rw (child, each_child) (rw children (ap (λ ds. some (map (λ c. c.value) ds)) same))

  module _ (python : Python Number) (caps : Caps) where
    walk-cut :
        (n : ℕ) (result : List (Text × Json Number)) (fs : List (Text × Value Number))
        (b : BoundedJson Number)
        → walk_fields python caps bounded n result true fs ≡ some b
        → b.truncated ≡ true
    walk-cut n result [] b h = ap (λ c. c.truncated) (sym (some_value _ b h))
    walk-cut zero result (f ∷ fs) b h = ap (λ c. c.truncated) (sym (some_value _ b h))
    walk-cut (suc n) result ((k, v) ∷ fs) b h =
        let (c, first, rest) = given-some (bounded v) _ b h in walk-cut n _ fs b rest

    walk-agrees :
        (n : ℕ) (result : List (Text × Json Number)) (cut : Bool) (fs : List (Text × Value Number))
        (b : BoundedJson Number)
        → walk_fields python caps bounded n result cut fs ≡ some b
        → b.truncated ≡ false
        → Option.map (λ js. object (fields_of js)) (each_field whole result fs) ≡ some b.value
    walk-agrees n result cut [] b h u = ap (λ c. some c.value) (some_value _ b h)
    walk-agrees zero result cut (f ∷ fs) b h u =
        absurd (true≢false (ap (λ c. c.truncated) (some_value _ b h) ∙ u))
    walk-agrees (suc n) result cut ((k, v) ∷ fs) b h u =
        let (c, first, rest) = given-some (bounded v) _ b h in
        let key = bounded_string k (some caps.string_cap) in
        let next = put (new_key python key result) c.value result in
        elim (Bool-cases (cut || (key_changed key || c.truncated))) [
          | inl e ↦ absurd (
              true≢false (
                sym (
                  walk-cut n next fs b
                    (subst (λ t. walk_fields python caps bounded n next t fs ≡ some b) e rest))
                ∙ u))
          | inr e ↦
              let (clean, parts) = neither cut (key_changed key || c.truncated) e in
              let (plain, uncut) = neither (key_changed key) c.truncated parts in
              let child = agree v c first uncut in
              let same =
                new_key-same python key result plain
                ∙ bounded_string-same k caps.string_cap plain in
              rw (child, each_field)
                (subst
                  (λ x.
                    Option.map (λ js. object (fields_of js))
                      (each_field whole (put x c.value result) fs)
                    ≡ some b.value)
                  same (walk-agrees n _ _ fs b rest u))
        ]

module _ {Number : Type 0} (python : Python Number) (caps : Caps)
    (bounded : ℕ → Option (BoundedJson Number)) (whole : ℕ → Option (Json Number))
    (agree : (i : ℕ) (b : BoundedJson Number)
      → bounded i ≡ some b
      → b.truncated ≡ false
      → whole i ≡ some b.value) where
  text-agrees :
      (s : Text) (b : BoundedJson Number)
      → some (as_text (bounded_string s (some caps.string_cap))) ≡ some b
      → b.truncated ≡ false
      → Path (Option (Json Number)) (some (text s)) (some b.value)
  text-agrees s b h u =
      let same = some_value _ b h in
      let kept = bounded_string-same s caps.string_cap (ap (λ c. c.truncated) same ∙ u) in
      ap (λ t. some (text t)) (sym kept) ∙ ap (λ c. some c.value) same

  plain-agrees :
      (v : Value Number) (b : BoundedJson Number)
      → bounded_plain python caps bounded v ≡ some b
      → b.truncated ≡ false
      → json_plain whole v ≡ some b.value
  plain-agrees nothing b h u = ap (λ c. some c.value) (some_value _ b h)
  plain-agrees (boolean x) b h u = ap (λ c. some c.value) (some_value _ b h)
  plain-agrees (numeric n) b h u = elim (Bool-cases (python.is_finite n)) [
    | inl e ↦ ap (λ c. some c.value) (some_value (as_is (number n)) b (rw (e, bounded_plain) at h))
    | inr e ↦
        absurd
          (true≢false (ap (λ c. c.truncated) (some_value _ b (rw (e, bounded_plain) at h)) ∙ u))
  ]
  plain-agrees (string s) b h u = text-agrees s b h u
  plain-agrees (enumerated v) b h u = plain-agrees v b h u
  plain-agrees (dated s) b h u = text-agrees s b h u
  plain-agrees (printed s) b h u = text-agrees s b h u
  plain-agrees (reference i) b h u = agree i b h u

module _ {Number : Type 0} (python : Python Number) (caps : Caps) (heap : Heap Number) where
  -- A list whose children are kept whole.
  all_kept :
      (count : ℕ) (bs : List (BoundedJson Number)) (b : BoundedJson Number)
      → kept_items caps.item_cap count bs ≡ b
      → b.truncated ≡ false
      → (ltb caps.item_cap count ≡ false) × (any is_cut bs ≡ false)
  all_kept count bs b h u = neither _ (any is_cut bs) (ap (λ c. c.truncated) h ∙ u)

  not_over : (a b : ℕ) → ltb a b ≡ false → b ≤ a
  not_over a b h = ground arith

  module _ (bounded : ℕ → Value Number → Option (BoundedJson Number))
      (whole : Value Number → Option (Json Number))
      (agree : (d : ℕ) (v : Value Number) (b : BoundedJson Number)
        → bounded d v ≡ some b
        → b.truncated ≡ false
        → whole v ≡ some b.value) where
    shape-agrees :
        (d i : ℕ) (s : Shape Number) (b : BoundedJson Number)
        → bounded_shape python caps heap bounded d i s ≡ some b
        → b.truncated ≡ false
        → json_shape python heap whole i s ≡ some b.value
    shape-agrees d i (to_dict v) b h u = agree d v b h u
    shape-agrees d i (model_dump v) b h u = agree d v b h u
    shape-agrees d i (dataclass fs) b h u =
        walk-agrees (bounded (d - 1)) whole (agree (d - 1)) python caps caps.mapping_cap [] false fs
          b h u
    shape-agrees d i (mapping fs) b h u =
        walk-agrees (bounded (d - 1)) whole (agree (d - 1)) python caps caps.mapping_cap [] false fs
          b h u
    shape-agrees d i (sequence vs) b h u =
        let (bs, found, same) = map-some _ (each_bounded (bounded (d - 1)) caps.item_cap vs) b h in
        let (few, uncut) = all_kept (length vs) bs b same u in
        let children =
          each-agrees (bounded (d - 1)) whole (agree (d - 1)) caps.item_cap vs bs found
            (not_over _ _ few) uncut in
        rw children (ap (λ c. some c.value) same)
    shape-agrees d i (unordered vs) b h u =
        let key : BoundedJson Number → Text = λ c. python.dumps c.value in
        let (bs, found, same) = map-some _ (every_bounded (bounded (d - 1)) vs) b h in
        let (few, uncut) = all_kept (length bs) (take caps.item_cap (sort_by key bs)) b same u in
        let whole_list =
          take-all caps.item_cap (sort_by key bs)
            (subst (λ n. n ≤ caps.item_cap) (sym (length-sort key bs)) (not_over _ _ few)) in
        let clean = sym (any-sort key is_cut bs) ∙ ap (any is_cut) (sym whole_list) ∙ uncut in
        let children = every-agrees (bounded (d - 1)) whole (agree (d - 1)) vs bs found clean in
        rw children (
          ap (λ js. some (array (items_of js)))
            (sym (map-sort (λ c. c.value) python.dumps bs)
              ∙ ap (map (λ c. c.value)) (sym whole_list))
          ∙ ap (λ c. some c.value) same)
    shape-agrees d i opaque b h u = ap (λ c. some c.value) (some_value _ b h)

  object-agrees :
      (fuel : ℕ) (active : List ℕ) (d i : ℕ) (b : BoundedJson Number)
      → bounded_object python caps heap fuel active d i ≡ some b
      → b.truncated ≡ false
      → json_object python heap fuel active i ≡ some b.value
  object-agrees zero active d i b h u = absurd cc
  object-agrees (suc fuel) active d i b h u = elim (Bool-cases (d == 0)) [
    | inl z ↦
        absurd
          (true≢false (ap (λ c. c.truncated) (some_value _ b (rw (z, bounded_object) at h)) ∙ u))
    | inr z ↦ elim (Bool-cases (is_active i active)) [
      | inl e ↦
          absurd (
            true≢false
              (ap (λ c. c.truncated) (some_value _ b (rw (z, e, bounded_object) at h)) ∙ u))
      | inr e ↦
          rw (e, json_object)
            (shape-agrees
              (λ c v.
                bounded_plain python caps (bounded_object python caps heap fuel (i ∷ active) c) v)
              (json_plain (json_object python heap fuel (i ∷ active)))
              (λ c v x g w.
                plain-agrees python caps (bounded_object python caps heap fuel (i ∷ active) c)
                  (json_object python heap fuel (i ∷ active))
                  (λ j y k q. object-agrees fuel (i ∷ active) c j y k q) v x g w)
              d i (shape_at heap.shapes i) b (rw (z, e, bounded_object) at h) u)
    ]
  ]

  value-agrees :
      (d : ℕ) (v : Value Number) (b : BoundedJson Number)
      → bounded_value python caps heap d v ≡ some b
      → b.truncated ≡ false
      → json_value python heap v ≡ some b.value
  unfolding bounded_value json_value
  value-agrees d v b h u =
      plain-agrees python caps _ _ (λ i c k w. object-agrees (fuel_for python heap) [] d i c k w) v
        b h u

module _ {Number : Type 0} (python : Python Number) (heap : Heap Number)
    (item_cap string_cap max_depth : ℕ) (mapping_cap : Option ℕ) (v : Value Number) where
  -- A bounded value that is not marked as truncated is the whole value, with its previews redacted:
  -- no item, key, character or level is missing, and the items of a set stand in the same order.
  pub bounded_json_value-lossless :
      (b : BoundedJson Number)
      → bounded_json_value python heap item_cap string_cap max_depth mapping_cap v ≡ some b
      → b.truncated ≡ false
      → Option.map redact (json_value python heap v) ≡ some b.value
  unfolding bounded_json_value
  bounded_json_value-lossless b h u =
      let (c, found, same) = map-some redact_value _ b h in
      let whole = value-agrees python _ heap max_depth v c found (ap (λ x. x.truncated) same ∙ u) in
      rw whole (ap (λ x. some x.value) same)
