-- ===== src/Serialization/Ends.antt =====
-- provider/dynamic_serialization.py: both conversions end, on cyclic objects too.
use ma_provider_mcp.Prelude.{
  ℕ, zero, suc, ◌-◌, ◌≤◌, ◌<◌, ◌==◌, ◌≡◌, refl, ◌⊎◌, inl, inr, Bool, false, Option, List, [], ◌∷◌,
  length, Bool-cases, arith,
}
use ma_provider_mcp.Serialization.Json.{Text, Json, put}
use ma_provider_mcp.Serialization.Native.{
  Value, nothing, boolean, numeric, string, enumerated, dated, printed, reference, Shape, to_dict,
  model_dump, dataclass, mapping, unordered, sequence, opaque, Heap, Python, is_active, shape_at,
}
use ma_provider_mcp.Serialization.Whole.{
  each_child, each_field, json_plain, json_shape, json_object, fuel_for, json_value,
}
use ma_provider_mcp.Serialization.Bounded.{
  BoundedJson, Caps, each_bounded, every_bounded, walk_fields, bounded_plain, bounded_shape,
  bounded_object, bounded_value,
}
use ma_provider_mcp.Serialization.Seen.{Found, Found-map, unseen, unseen_lt, in_range}

module _ {Number : Type 0} (child : Value Number → Option (Json Number))
    (found : (v : Value Number) → Found (child v)) where
  each_child-Found : (vs : List (Value Number)) → Found (each_child child vs)
  each_child-Found [] = ([], refl)
  each_child-Found (v ∷ vs) =
      let (j, e) = found v in
      rw (e, each_child) (Found-map (λ js. j ∷ js) (each_child child vs) (each_child-Found vs))

  each_field-Found :
      (result : List (Text × Json Number)) (fs : List (Text × Value Number))
      → Found (each_field child result fs)
  each_field-Found result [] = (result, refl)
  each_field-Found result ((k, v) ∷ fs) =
      let (j, e) = found v in rw (e, each_field) (each_field-Found (put k j result) fs)

module _ {Number : Type 0} (at : ℕ → Option (Json Number)) (found : (i : ℕ) → Found (at i)) where
  json_plain-Found : (v : Value Number) → Found (json_plain at v)
  json_plain-Found nothing = (_, refl)
  json_plain-Found (boolean b) = (_, refl)
  json_plain-Found (numeric n) = (_, refl)
  json_plain-Found (string s) = (_, refl)
  json_plain-Found (enumerated v) = json_plain-Found v
  json_plain-Found (dated s) = (_, refl)
  json_plain-Found (printed s) = (_, refl)
  json_plain-Found (reference i) = found i

module _ {Number : Type 0} (child : Value Number → Option (BoundedJson Number))
    (found : (v : Value Number) → Found (child v)) where
  each_bounded-Found : (n : ℕ) (vs : List (Value Number)) → Found (each_bounded child n vs)
  each_bounded-Found n [] = ([], refl)
  each_bounded-Found zero (v ∷ vs) = ([], refl)
  each_bounded-Found (suc n) (v ∷ vs) =
      let (b, e) = found v in
      rw (e, each_bounded)
        (Found-map (λ bs. b ∷ bs) (each_bounded child n vs) (each_bounded-Found n vs))

  every_bounded-Found : (vs : List (Value Number)) → Found (every_bounded child vs)
  every_bounded-Found [] = ([], refl)
  every_bounded-Found (v ∷ vs) =
      let (b, e) = found v in
      rw (e, every_bounded)
        (Found-map (λ bs. b ∷ bs) (every_bounded child vs) (every_bounded-Found vs))

module _ {Number : Type 0} (python : Python Number) (caps : Caps)
    (child : Value Number → Option (BoundedJson Number))
    (found : (v : Value Number) → Found (child v)) where
  walk_fields-Found :
      (n : ℕ) (result : List (Text × Json Number)) (truncated : Bool)
      (fs : List (Text × Value Number))
      → Found (walk_fields python caps child n result truncated fs)
  walk_fields-Found n result truncated [] = (_, refl)
  walk_fields-Found zero result truncated (f ∷ fs) = (_, refl)
  walk_fields-Found (suc n) result truncated ((k, v) ∷ fs) =
      let (b, e) = found v in rw (e, walk_fields) (walk_fields-Found n _ _ fs)

module _ {Number : Type 0} (python : Python Number) (caps : Caps)
    (at : ℕ → Option (BoundedJson Number)) (found : (i : ℕ) → Found (at i)) where
  bounded_plain-Found : (v : Value Number) → Found (bounded_plain python caps at v)
  bounded_plain-Found nothing = (_, refl)
  bounded_plain-Found (boolean b) = (_, refl)
  bounded_plain-Found (numeric n) = (_, refl)
  bounded_plain-Found (string s) = (_, refl)
  bounded_plain-Found (enumerated v) = bounded_plain-Found v
  bounded_plain-Found (dated s) = (_, refl)
  bounded_plain-Found (printed s) = (_, refl)
  bounded_plain-Found (reference i) = found i

module _ {Number : Type 0} (python : Python Number) (heap : Heap Number) where
  json_shape-Found :
      (child : Value Number → Option (Json Number)) (i : ℕ) (s : Shape Number)
      → (s ≡ opaque) ⊎ ((v : Value Number) → Found (child v))
      → Found (json_shape python heap child i s)
  json_shape-Found child i s (inl e) = rw e (_, refl)
  json_shape-Found child i (to_dict v) (inr f) = f v
  json_shape-Found child i (model_dump v) (inr f) = f v
  json_shape-Found child i (dataclass fs) (inr f) = Found-map _ _ (each_field-Found child f [] fs)
  json_shape-Found child i (mapping fs) (inr f) = Found-map _ _ (each_field-Found child f [] fs)
  json_shape-Found child i (unordered vs) (inr f) = Found-map _ _ (each_child-Found child f vs)
  json_shape-Found child i (sequence vs) (inr f) = Found-map _ _ (each_child-Found child f vs)
  json_shape-Found child i opaque (inr f) = (_, refl)

  bounded_shape-Found :
      (caps : Caps) (child : ℕ → Value Number → Option (BoundedJson Number)) (depth i : ℕ)
      (s : Shape Number)
      → (s ≡ opaque) ⊎ ((d : ℕ) (v : Value Number) → Found (child d v))
      → Found (bounded_shape python caps heap child depth i s)
  bounded_shape-Found caps child depth i s (inl e) = rw e (_, refl)
  bounded_shape-Found caps child depth i (to_dict v) (inr f) = f depth v
  bounded_shape-Found caps child depth i (model_dump v) (inr f) = f depth v
  bounded_shape-Found caps child depth i (dataclass fs) (inr f) =
      walk_fields-Found python caps (child (depth - 1)) (f (depth - 1)) caps.mapping_cap [] false fs
  bounded_shape-Found caps child depth i (mapping fs) (inr f) =
      walk_fields-Found python caps (child (depth - 1)) (f (depth - 1)) caps.mapping_cap [] false fs
  bounded_shape-Found caps child depth i (unordered vs) (inr f) =
      Found-map _ _ (every_bounded-Found (child (depth - 1)) (f (depth - 1)) vs)
  bounded_shape-Found caps child depth i (sequence vs) (inr f) =
      Found-map _ _ (each_bounded-Found (child (depth - 1)) (f (depth - 1)) caps.item_cap vs)
  bounded_shape-Found caps child depth i opaque (inr f) = (_, refl)

  less_fuel :
      (fuel i : ℕ) (active : List ℕ)
      → unseen (length heap.shapes) active < suc fuel
      → is_active i active ≡ false
      → i < length heap.shapes
      → unseen (length heap.shapes) (i ∷ active) < fuel
  less_fuel fuel i active h e l = omega (arith, unseen_lt (length heap.shapes) i active l e)

  json_object-Found :
      (fuel : ℕ) (active : List ℕ) (i : ℕ)
      → unseen (length heap.shapes) active < fuel
      → Found (json_object python heap fuel active i)
  json_object-Found zero active i h = absurd (omega arith)
  json_object-Found (suc fuel) active i h = elim (Bool-cases (is_active i active)) [
    | inl e ↦ rw e (_, refl)
    | inr e ↦ rw e (
        json_shape-Found _ i (shape_at heap.shapes i) (elim (in_range heap.shapes i) [
          | inl l ↦ inr (
              json_plain-Found (json_object python heap fuel (i ∷ active))
                (λ j. json_object-Found fuel (i ∷ active) j (less_fuel fuel i active h e l)))
          | inr o ↦ inl o
        ]))
  ]

  bounded_object-Found :
      (caps : Caps) (fuel : ℕ) (active : List ℕ) (depth i : ℕ)
      → unseen (length heap.shapes) active < fuel
      → Found (bounded_object python caps heap fuel active depth i)
  bounded_object-Found caps zero active depth i h = absurd (omega arith)
  bounded_object-Found caps (suc fuel) active depth i h = elim (Bool-cases (depth == 0)) [
    | inl z ↦ rw z (_, refl)
    | inr z ↦ elim (Bool-cases (is_active i active)) [
      | inl e ↦ rw z (rw e (_, refl))
      | inr e ↦ rw z (
          rw e (
            bounded_shape-Found caps _ depth i (shape_at heap.shapes i)
              (elim (in_range heap.shapes i) [
                | inl l ↦ inr (λ d v.
                    bounded_plain-Found python caps
                      (bounded_object python caps heap fuel (i ∷ active) d)
                      (λ j.
                        bounded_object-Found caps fuel (i ∷ active) d j
                          (less_fuel fuel i active h e l))
                      v)
                | inr o ↦ inl o
              ])))
    ]
  ]

  start_fuel : (n : ℕ) → unseen n [] ≤ n
  start_fuel zero = omega arith
  start_fuel (suc n) = omega (arith, start_fuel n)

  enough : unseen (length heap.shapes) [] < fuel_for python heap
  enough = omega (arith, start_fuel (length heap.shapes))

  -- The conversion of a value ends with JSON, whatever its objects refer to, cycles included.
  pub json_value-Found : (v : Value Number) → Found (json_value python heap v)
  unfolding json_value
  json_value-Found v =
      json_plain-Found _ (λ i. json_object-Found (fuel_for python heap) [] i enough) v

  pub bounded_value-Found :
      (caps : Caps) (depth : ℕ) (v : Value Number) → Found (bounded_value python caps heap depth v)
  unfolding bounded_value
  bounded_value-Found caps depth v =
      bounded_plain-Found python caps _
        (λ i. bounded_object-Found caps (fuel_for python heap) [] depth i enough) v
