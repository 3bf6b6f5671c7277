-- ===== src/Serialization/Native.antt =====
-- provider/dynamic_serialization.py: the native values that are serialized.
use ma_provider_mcp.Prelude.{
  ℕ, zero, suc, ◌==◌, ◌||◌, Bool, false, Option, none, some, List, [], ◌∷◌, ◌++◌,
}
use ma_provider_mcp.Serialization.Json.{Json, Text}

-- A value, by the first test of `_json_value` that it passes: an enumeration holds its `.value`, a
-- date its `isoformat()`, a UUID or a path its `str()`, and everything else is an object, known by
-- its `id`.
pub data Value (Number : Type 0) : Type 0 where
  nothing : Value Number
  boolean : Bool → Value Number
  numeric : Number → Value Number
  string : Text → Value Number
  enumerated : Value Number → Value Number
  dated : Text → Value Number
  printed : Text → Value Number
  reference : ℕ → Value Number

-- What an object is, by the first test that it passes. What `to_dict` and `model_dump` return is an
-- object too, a set is in the order of its iteration, and a key of a mapping is its `str`.
pub data Shape (Number : Type 0) : Type 0 where
  to_dict : Value Number → Shape Number
  model_dump : Value Number → Shape Number
  dataclass : List (Text × Value Number) → Shape Number
  mapping : List (Text × Value Number) → Shape Number
  unordered : List (Value Number) → Shape Number
  sequence : List (Value Number) → Shape Number
  opaque : Shape Number

-- The objects, each at its `id`, and the name of an object's type, `module.qualname`.
pub record Heap (Number : Type 0) : Type 0 where
  pub shapes : List (Shape Number)
  pub type_name : ℕ → Text

-- What is asked of Python: `math.isfinite`, which an int passes, `json.dumps` with sorted keys, and
-- `str` of a count.
pub record Python (Number : Type 0) : Type 0 where
  pub is_finite : Number → Bool
  pub dumps : Json Number → Text
  pub decimal : ℕ → Text

-- object_id in active_ids
abbrev pub is_active : ℕ → List ℕ → Bool
is_active i [] = false
is_active i (j ∷ js) = (i == j) || is_active i js

module _ {Number : Type 0} where
  abbrev pub shape_at : List (Shape Number) → ℕ → Shape Number
  shape_at [] i = opaque
  shape_at (s ∷ ss) zero = s
  shape_at (s ∷ ss) (suc i) = shape_at ss i

  -- f"<{module}.{qualname}>"
  abbrev pub type_text : Heap Number → ℕ → Text
  type_text heap i = 60 ∷ heap.type_name i ++ 62 ∷ []

  -- f"<{module}.{qualname}:cycle>"
  abbrev pub cycle_text : Heap Number → ℕ → Text
  cycle_text heap i = 60 ∷ heap.type_name i ++ 58 ∷ 99 ∷ 121 ∷ 99 ∷ 108 ∷ 101 ∷ 62 ∷ []

-- The next step of a call that may be out of fuel.
abbrev pub given {ℓ κ} : {A : Type ℓ} {B : Type κ} → Option A → (A → Option B) → Option B
given none step = none
given (some a) step = step a
