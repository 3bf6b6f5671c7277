-- ===== src/Serialization/Bounded.antt =====
-- provider/dynamic_serialization.py: `_bounded_json_value` and its helpers.
use ma_provider_mcp.Prelude.{
  ℕ, zero, suc, ◌+◌, ◌-◌, ltb, ◌==◌, Bool, true, false, ◌||◌, any, Option, none, some, List, [],
  ◌∷◌, ◌++◌, map, length, if◌then◌else◌,
}
use mathlib.Core.Option
use ma_provider_mcp.Serialization.Json.{
  Text, Json, null, truth, number, text, array, object, items_of, fields_of, put, has, take,
  sort_by, bounded_string,
}
use ma_provider_mcp.Serialization.Native.{
  Value, nothing, boolean, numeric, string, enumerated, dated, printed, reference, Shape, to_dict,
  model_dump, dataclass, mapping, unordered, sequence, opaque, Heap, Python, is_active, shape_at,
  type_text, cycle_text, given,
}
use ma_provider_mcp.Serialization.Whole.{fuel_for}

-- `BoundedJSON`
pub record BoundedJson (Number : Type 0) : Type 0 where
  pub value : Json Number
  pub truncated : Bool
  pub total_count : Option ℕ

pub record Caps : Type 0 where
  pub item_cap : ℕ
  pub string_cap : ℕ
  pub mapping_cap : ℕ

abbrev pub key_changed : Text × Bool → Bool
key_changed (key, changed) = changed

-- "[truncated]"
abbrev pub truncated_text : Text
truncated_text = 91 ∷ 116 ∷ 114 ∷ 117 ∷ 110 ∷ 99 ∷ 97 ∷ 116 ∷ 101 ∷ 100 ∷ 93 ∷ []

module _ {Number : Type 0} where
  abbrev pub as_is : Json Number → BoundedJson Number
  as_is j = record { value = j; truncated = false; total_count = none }

  abbrev pub as_text : Text × Bool → BoundedJson Number
  as_text (s, changed) = record { value = text s; truncated = changed; total_count = none }

  -- The children of a sequence, up to the cap.
  module _ (child : Value Number → Option (BoundedJson Number)) where
    abbrev pub each_bounded : ℕ → List (Value Number) → Option (List (BoundedJson Number))
    each_bounded limit [] = some []
    each_bounded zero (v ∷ vs) = some []
    each_bounded (suc limit) (v ∷ vs) =
        given (child v) (λ b. Option.map (λ bs. b ∷ bs) (each_bounded limit vs))

    -- The children of a set, all of them.
    abbrev pub every_bounded : List (Value Number) → Option (List (BoundedJson Number))
    every_bounded [] = some []
    every_bounded (v ∷ vs) = given (child v) (λ b. Option.map (λ bs. b ∷ bs) (every_bounded vs))

  -- The list of the kept children, of so many.
  abbrev pub kept_items : ℕ → ℕ → List (BoundedJson Number) → BoundedJson Number
  kept_items limit count kept = record {
    value = array (items_of (map (λ b. b.value) kept));
    truncated = ltb limit count || any (λ b. b.truncated) kept;
    total_count = some count;
  }

module _ {Number : Type 0} (python : Python Number) where
  open python use {is_finite, dumps, decimal}

  -- f"{key}#{suffix}"
  abbrev pub suffixed : Text → ℕ → Text
  suffixed key suffix = key ++ 35 ∷ decimal suffix

  -- The first free suffix, of so many.
  abbrev pub free_key : ℕ → Text → ℕ → List (Text × Json Number) → Text
  free_key zero key suffix result = suffixed key suffix
  free_key (suc fuel) key suffix result =
      let next = free_key fuel key (suffix + 1) result in
      if has (suffixed key suffix) result then next else suffixed key suffix

  abbrev pub new_key : Text × Bool → List (Text × Json Number) → Text
  new_key (key, true) result = if has key result then free_key (length result) key 2 result else key
  new_key (key, false) result = key

  module _ (caps : Caps) where
    -- The loop of `_bounded_mapping`, with what is left of the cap.
    module _ (child : Value Number → Option (BoundedJson Number)) where
      abbrev pub walk_fields :
          ℕ
          → List (Text × Json Number)
          → Bool
          → List (Text × Value Number)
          → Option (BoundedJson Number)
      walk_fields limit result truncated [] =
          some (record {
            value = object (fields_of result);
            truncated = truncated;
            total_count = none;
          })
      walk_fields zero result truncated (f ∷ fs) =
          some (record { value = object (fields_of result); truncated = true; total_count = none })
      walk_fields (suc limit) result truncated ((k, v) ∷ fs) = given (child v) (λ b.
          let key = bounded_string k (some caps.string_cap) in
          walk_fields limit (put (new_key key result) b.value result)
            (truncated || (key_changed key || b.truncated)) fs)

    -- A value, with what becomes of an object.
    abbrev pub bounded_plain :
        (ℕ → Option (BoundedJson Number)) → Value Number → Option (BoundedJson Number)
    bounded_plain at nothing = some (as_is null)
    bounded_plain at (boolean b) = some (as_is (truth b))
    bounded_plain at (numeric n) = some (
        if is_finite n
        then as_is (number n)
        else record { value = null; truncated = true; total_count = none })
    bounded_plain at (string s) = some (as_text (bounded_string s (some caps.string_cap)))
    bounded_plain at (enumerated v) = bounded_plain at v
    bounded_plain at (dated s) = some (as_text (bounded_string s (some caps.string_cap)))
    bounded_plain at (printed s) = some (as_text (bounded_string s (some caps.string_cap)))
    bounded_plain at (reference i) = at i

    module _ (heap : Heap Number) where
      abbrev pub bounded_shape :
          (ℕ → Value Number → Option (BoundedJson Number))
          → ℕ
          → ℕ
          → Shape Number
          → Option (BoundedJson Number)
      bounded_shape child depth i (to_dict v) = child depth v
      bounded_shape child depth i (model_dump v) = child depth v
      bounded_shape child depth i (dataclass fs) =
          walk_fields (child (depth - 1)) caps.mapping_cap [] false fs
      bounded_shape child depth i (mapping fs) =
          walk_fields (child (depth - 1)) caps.mapping_cap [] false fs
      bounded_shape child depth i (unordered vs) =
          Option.map
            (λ bs.
              kept_items caps.item_cap (length bs)
                (take caps.item_cap (sort_by (λ b. dumps b.value) bs)))
            (every_bounded (child (depth - 1)) vs)
      bounded_shape child depth i (sequence vs) =
          Option.map (kept_items caps.item_cap (length vs))
            (each_bounded (child (depth - 1)) caps.item_cap vs)
      bounded_shape child depth i opaque = some (as_is (text (type_text heap i)))

      abbrev pub bounded_object : ℕ → List ℕ → ℕ → ℕ → Option (BoundedJson Number)
      bounded_object zero active depth i = none
      bounded_object (suc fuel) active depth i =
          if depth == 0
          then some (record { value = text truncated_text; truncated = true; total_count = none })
          else if is_active i active
          then some
              (record { value = text (cycle_text heap i); truncated = true; total_count = none })
          else bounded_shape (λ d v. bounded_plain (bounded_object fuel (i ∷ active) d) v) depth i
              (shape_at heap.shapes i)

      -- `_bounded_json_value`, from no active object
      unfoldable pub bounded_value : ℕ → Value Number → Option (BoundedJson Number)
      bounded_value depth v = bounded_plain (bounded_object (fuel_for python heap) [] depth) v
