-- ===== src/Serialization/Redact.antt =====
-- provider/dynamic_serialization.py: `redact_media_previews` and `bounded_json_value`.
use ma_provider_mcp.Prelude.{ℕ, Option, none, some, [], ◌∷◌, if◌then◌else◌}
use mathlib.Core.Option
use ma_provider_mcp.Serialization.Json.{
  Text, Json, null, truth, number, text, array, object, Items, end, item, Fields, done, field,
  same_text,
}
use ma_provider_mcp.Serialization.Native.{Value, Heap, Python}
use ma_provider_mcp.Serialization.Bounded.{BoundedJson, bounded_value}

-- "metadata"
abbrev pub metadata_text : Text
metadata_text = 109 ∷ 101 ∷ 116 ∷ 97 ∷ 100 ∷ 97 ∷ 116 ∷ 97 ∷ []

-- "preview"
abbrev pub preview_text : Text
preview_text = 112 ∷ 114 ∷ 101 ∷ 118 ∷ 105 ∷ 101 ∷ 119 ∷ []

module _ {Number : Type 0} where
  -- metadata["preview"] = None, where there is one
  abbrev pub blank_preview : Fields Number → Fields Number
  blank_preview done = done
  blank_preview (field k j fs) =
      let rest = blank_preview fs in
      if same_text k preview_text then field k null fs else field k j rest

  abbrev pub blank_inner : Json Number → Json Number
  blank_inner (object fs) = object (blank_preview fs)
  blank_inner j = j

  abbrev pub blank_metadata : Fields Number → Fields Number
  blank_metadata done = done
  blank_metadata (field k j fs) =
      let rest = blank_metadata fs in
      if same_text k metadata_text then field k (blank_inner j) fs else field k j rest

-- The loop of `redact_media_previews` takes a dictionary before its values. The values come first
-- here: a preview that is blanked holds nothing to visit, and one that is visited stays what it is,
-- null or not.
abbrev mutual
  pub redact : {Number : Type 0} → Json Number → Json Number
  redact null = null
  redact (truth b) = truth b
  redact (number n) = number n
  redact (text s) = text s
  redact (array js) = array (redact_items js)
  redact (object fs) = object (blank_metadata (redact_fields fs))

  pub redact_items : {Number : Type 0} → Items Number → Items Number
  redact_items end = end
  redact_items (item j js) = item (redact j) (redact_items js)

  pub redact_fields : {Number : Type 0} → Fields Number → Fields Number
  redact_fields done = done
  redact_fields (field k j fs) = field k (redact j) (redact_fields fs)

-- item_cap if mapping_cap is None else mapping_cap
abbrev pub mapping_cap_of : Option ℕ → ℕ → ℕ
mapping_cap_of none items = items
mapping_cap_of (some keys) items = keys

module _ {Number : Type 0} where
  abbrev pub redact_value : BoundedJson Number → BoundedJson Number
  redact_value b = record b { value = redact b.value }

  -- `bounded_json_value`, with the mapping cap given or else the item cap
  unfoldable pub bounded_json_value :
      Python Number
      → Heap Number
      → ℕ
      → ℕ
      → ℕ
      → Option ℕ
      → Value Number
      → Option (BoundedJson Number)
  bounded_json_value python heap item_cap string_cap max_depth mapping_cap v =
      Option.map redact_value (
        bounded_value python
          (record {
            item_cap = item_cap;
            string_cap = string_cap;
            mapping_cap = mapping_cap_of mapping_cap item_cap;
          })
          heap max_depth v)
