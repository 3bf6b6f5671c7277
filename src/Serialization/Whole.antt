-- ===== src/Serialization/Whole.antt =====
-- provider/dynamic_serialization.py: `json_value`.
use ma_provider_mcp.Prelude.{
  ℕ, zero, suc, ◌+◌, Option, none, some, List, [], ◌∷◌, length, if◌then◌else◌,
}
use mathlib.Core.Option
use ma_provider_mcp.Serialization.Json.{
  Text, Json, null, truth, number, text, array, object, items_of, fields_of, put, sort_by,
}
use ma_provider_mcp.Serialization.Native.{
  Value, nothing, boolean, numeric, string, enumerated, dated, printed, reference, Shape, to_dict,
  model_dump, dataclass, mapping, unordered, sequence, opaque, Heap, Python, is_active, shape_at,
  type_text, cycle_text, given,
}

module _ {Number : Type 0} where
  -- The children of an object, one after the other.
  module _ (child : Value Number → Option (Json Number)) where
    abbrev pub each_child : List (Value Number) → Option (List (Json Number))
    each_child [] = some []
    each_child (v ∷ vs) = given (child v) (λ j. Option.map (λ js. j ∷ js) (each_child vs))

    -- {key: ... for key, child in items}
    abbrev pub each_field :
        List (Text × Json Number) → List (Text × Value Number) → Option (List (Text × Json Number))
    each_field result [] = some result
    each_field result ((k, v) ∷ fs) = given (child v) (λ j. each_field (put k j result) fs)

  -- A value, with what becomes of an object.
  abbrev pub json_plain : (ℕ → Option (Json Number)) → Value Number → Option (Json Number)
  json_plain at nothing = some null
  json_plain at (boolean b) = some (truth b)
  json_plain at (numeric n) = some (number n)
  json_plain at (string s) = some (text s)
  json_plain at (enumerated v) = json_plain at v
  json_plain at (dated s) = some (text s)
  json_plain at (printed s) = some (text s)
  json_plain at (reference i) = at i

module _ {Number : Type 0} (python : Python Number) (heap : Heap Number) where
  open python use {dumps}

  abbrev pub json_shape :
      (Value Number → Option (Json Number)) → ℕ → Shape Number → Option (Json Number)
  json_shape child i (to_dict v) = child v
  json_shape child i (model_dump v) = child v
  json_shape child i (dataclass fs) =
      Option.map (λ js. object (fields_of js)) (each_field child [] fs)
  json_shape child i (mapping fs) =
      Option.map (λ js. object (fields_of js)) (each_field child [] fs)
  json_shape child i (unordered vs) =
      Option.map (λ js. array (items_of (sort_by dumps js))) (each_child child vs)
  json_shape child i (sequence vs) = Option.map (λ js. array (items_of js)) (each_child child vs)
  json_shape child i opaque = some (text (type_text heap i))

  -- An object. It is active while its children are converted.
  abbrev pub json_object : ℕ → List ℕ → ℕ → Option (Json Number)
  json_object zero active i = none
  json_object (suc fuel) active i =
      if is_active i active
      then some (text (cycle_text heap i))
      else json_shape (json_plain (json_object fuel (i ∷ active))) i (shape_at heap.shapes i)

  -- Each object is active at most once, so there is a call for each, and one more.
  abbrev pub fuel_for : ℕ
  fuel_for = length heap.shapes + 1

  unfoldable pub json_value : Value Number → Option (Json Number)
  json_value v = json_plain (json_object fuel_for []) v
