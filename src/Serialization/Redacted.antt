-- ===== src/Serialization/Redacted.antt =====
-- provider/dynamic_serialization.py: what leaves `bounded_json_value`.
use ma_provider_mcp.Prelude.{
  ℕ, suc, ◌+◌, ◌-◌, ◌≤◌, ◌==◌, ◌≡◌, refl, ap, Bool, true, false, not, ◌&&◌, Option, some, length,
  leb, if◌then◌else◌, and_split, Bool-cases, inl, inr, arith,
}
use mathlib.Core.Option
use ma_provider_mcp.Serialization.Json.{
  Json, null, truth, number, text, array, object, Items, end, item, Fields, done, field, same_text,
}
use ma_provider_mcp.Serialization.Native.{Value, Heap, Python, cycle_text}
use ma_provider_mcp.Serialization.Bounded.{BoundedJson, Caps}
use ma_provider_mcp.Serialization.Redact.{
  metadata_text, preview_text, blank_preview, blank_inner, blank_metadata, redact, redact_items,
  redact_fields, redact_value, mapping_cap_of, bounded_json_value,
}
use ma_provider_mcp.Serialization.Ends.{bounded_value-Found}
use ma_provider_mcp.Serialization.Within.{
  Limits, count_items, count_fields, within, within_items, within_fields,
}
use ma_provider_mcp.Serialization.Sizes.{bounded_value-within}

abbrev is_null : {Number : Type 0} → Json Number → Bool
is_null null = true
is_null j = false

-- Nothing under the key `preview`, or null.
abbrev no_preview : {Number : Type 0} → Fields Number → Bool
no_preview done = true
no_preview (field k j fs) =
    let rest = no_preview fs in if same_text k preview_text then is_null j else rest

abbrev previewless : {Number : Type 0} → Json Number → Bool
previewless (object fs) = no_preview fs
previewless j = true

-- Nothing under the key `metadata` that has a preview.
abbrev no_metadata_preview : {Number : Type 0} → Fields Number → Bool
no_metadata_preview done = true
no_metadata_preview (field k j fs) =
    let rest = no_metadata_preview fs in if same_text k metadata_text then previewless j else rest

-- No mapping, at any depth, has metadata with a preview.
abbrev mutual
  pub is_redacted : {Number : Type 0} → Json Number → Bool
  is_redacted null = true
  is_redacted (truth b) = true
  is_redacted (number n) = true
  is_redacted (text s) = true
  is_redacted (array js) = redacted_items js
  is_redacted (object fs) = no_metadata_preview fs && redacted_fields fs

  redacted_items : {Number : Type 0} → Items Number → Bool
  redacted_items end = true
  redacted_items (item j js) = is_redacted j && redacted_items js

  redacted_fields : {Number : Type 0} → Fields Number → Bool
  redacted_fields done = true
  redacted_fields (field k j fs) = is_redacted j && redacted_fields fs

module _ {Number : Type 0} where
  blank_preview-clean : (fs : Fields Number) → no_preview (blank_preview fs) ≡ true
  blank_preview-clean done = refl
  blank_preview-clean (field k j fs) = elim (Bool-cases (same_text k preview_text)) [
    | inl e ↦ rw e (rw e refl)
    | inr e ↦ rw e (rw e (blank_preview-clean fs))
  ]

  blank_inner-clean : (j : Json Number) → previewless (blank_inner j) ≡ true
  blank_inner-clean null = refl
  blank_inner-clean (truth b) = refl
  blank_inner-clean (number n) = refl
  blank_inner-clean (text s) = refl
  blank_inner-clean (array js) = refl
  blank_inner-clean (object fs) = blank_preview-clean fs

  blank_metadata-clean : (fs : Fields Number) → no_metadata_preview (blank_metadata fs) ≡ true
  blank_metadata-clean done = refl
  blank_metadata-clean (field k j fs) = elim (Bool-cases (same_text k metadata_text)) [
    | inl e ↦ rw e (rw e (blank_inner-clean j))
    | inr e ↦ rw e (rw e (blank_metadata-clean fs))
  ]

  keeps_metadata :
      (fs : Fields Number)
      → no_metadata_preview fs ≡ true
      → no_metadata_preview (blank_preview fs) ≡ true
  keeps_metadata done h = refl
  keeps_metadata (field k j fs) h = ground (arith, keeps_metadata fs)

  keeps_fields :
      (fs : Fields Number) → redacted_fields fs ≡ true → redacted_fields (blank_preview fs) ≡ true
  keeps_fields done h = refl
  keeps_fields (field k j fs) h = ground (arith, keeps_fields fs)

  keeps_inner : (j : Json Number) → is_redacted j ≡ true → is_redacted (blank_inner j) ≡ true
  keeps_inner null h = refl
  keeps_inner (truth b) h = refl
  keeps_inner (number n) h = refl
  keeps_inner (text s) h = refl
  keeps_inner (array js) h = h
  keeps_inner (object fs) h =
      let (a, b) = and_split (no_metadata_preview fs) (redacted_fields fs) h in
      rw (keeps_metadata fs a) (keeps_fields fs b)

  keeps_redacted :
      (fs : Fields Number) → redacted_fields fs ≡ true → redacted_fields (blank_metadata fs) ≡ true
  keeps_redacted done h = refl
  keeps_redacted (field k j fs) h =
      let (a, b) = and_split (is_redacted j) (redacted_fields fs) h in
      let inner = keeps_inner j a in
      let rest = keeps_redacted fs b in
      elim (Bool-cases (same_text k metadata_text)) [
        | inl e ↦ rw e (rw inner b)
        | inr e ↦ rw e (rw a rest)
      ]

mutual
  redact-clean : {Number : Type 0} (j : Json Number) → is_redacted (redact j) ≡ true
  redact-clean null = refl
  redact-clean (truth b) = refl
  redact-clean (number n) = refl
  redact-clean (text s) = refl
  redact-clean (array js) = redact_items-clean js
  redact-clean (object fs) =
      rw (blank_metadata-clean (redact_fields fs))
        (keeps_redacted (redact_fields fs) (redact_fields-clean fs))

  redact_items-clean :
      {Number : Type 0} (js : Items Number) → redacted_items (redact_items js) ≡ true
  redact_items-clean end = refl
  redact_items-clean (item j js) = rw (redact-clean j) (redact_items-clean js)

  redact_fields-clean :
      {Number : Type 0} (fs : Fields Number) → redacted_fields (redact_fields fs) ≡ true
  redact_fields-clean done = refl
  redact_fields-clean (field k j fs) = rw (redact-clean j) (redact_fields-clean fs)

module _ {Number : Type 0} where
  count-blank_preview : (fs : Fields Number) → count_fields (blank_preview fs) ≡ count_fields fs
  count-blank_preview done = refl
  count-blank_preview (field k j fs) = ground (arith, count-blank_preview fs)

  count-blank_metadata : (fs : Fields Number) → count_fields (blank_metadata fs) ≡ count_fields fs
  count-blank_metadata done = refl
  count-blank_metadata (field k j fs) = ground (arith, count-blank_metadata fs)

  within-blank_preview :
      (l : Limits) (d : ℕ) (fs : Fields Number)
      → within_fields l d fs ≡ true
      → within_fields l d (blank_preview fs) ≡ true
  within-blank_preview l d done h = refl
  within-blank_preview l d (field k j fs) h = ground (arith, within-blank_preview l d fs)

  within-blank_inner :
      (l : Limits) (d : ℕ) (j : Json Number)
      → within l d j ≡ true
      → within l d (blank_inner j) ≡ true
  within-blank_inner l d null h = refl
  within-blank_inner l d (truth b) h = refl
  within-blank_inner l d (number n) h = refl
  within-blank_inner l d (text s) h = h
  within-blank_inner l d (array js) h = h
  within-blank_inner l d (object fs) h =
      let (z, sizes) = and_split (not (d == 0)) _ h in
      let (few, inner) = and_split (leb (count_fields fs) l.keys) _ sizes in
      rw z (rw (count-blank_preview fs) (rw few (within-blank_preview l (d - 1) fs inner)))

  within-blank_metadata :
      (l : Limits) (d : ℕ) (fs : Fields Number)
      → within_fields l d fs ≡ true
      → within_fields l d (blank_metadata fs) ≡ true
  within-blank_metadata l d done h = refl
  within-blank_metadata l d (field k j fs) h =
      let (a, b) = and_split (within l d j) (within_fields l d fs) h in
      let inner = within-blank_inner l d j a in
      let rest = within-blank_metadata l d fs b in
      elim (Bool-cases (same_text k metadata_text)) [
        | inl e ↦ rw e (rw inner b)
        | inr e ↦ rw e (rw a rest)
      ]

mutual
  count-redact_items :
      {Number : Type 0} (js : Items Number) → count_items (redact_items js) ≡ count_items js
  count-redact_items end = refl
  count-redact_items (item j js) = ap suc (count-redact_items js)

  count-redact_fields :
      {Number : Type 0} (fs : Fields Number) → count_fields (redact_fields fs) ≡ count_fields fs
  count-redact_fields done = refl
  count-redact_fields (field k j fs) = ap suc (count-redact_fields fs)

mutual
  within-redact :
      {Number : Type 0} (l : Limits) (d : ℕ) (j : Json Number)
      → within l d j ≡ true
      → within l d (redact j) ≡ true
  within-redact l d null h = refl
  within-redact l d (truth b) h = refl
  within-redact l d (number n) h = refl
  within-redact l d (text s) h = h
  within-redact l d (array js) h =
      let (z, sizes) = and_split (not (d == 0)) _ h in
      let (few, inner) = and_split (leb (count_items js) l.items) _ sizes in
      rw z (rw (count-redact_items js) (rw few (within-redact_items l (d - 1) js inner)))
  within-redact l d (object fs) h =
      let (z, sizes) = and_split (not (d == 0)) _ h in
      let (few, inner) = and_split (leb (count_fields fs) l.keys) _ sizes in
      rw z (
        rw (count-blank_metadata (redact_fields fs)) (
          rw (count-redact_fields fs) (
            rw few (
              within-blank_metadata l (d - 1) (redact_fields fs)
                (within-redact_fields l (d - 1) fs inner)))))

  within-redact_items :
      {Number : Type 0} (l : Limits) (d : ℕ) (js : Items Number)
      → within_items l d js ≡ true
      → within_items l d (redact_items js) ≡ true
  within-redact_items l d end h = refl
  within-redact_items l d (item j js) h =
      let (a, b) = and_split (within l d j) (within_items l d js) h in
      rw (within-redact l d j a) (within-redact_items l d js b)

  within-redact_fields :
      {Number : Type 0} (l : Limits) (d : ℕ) (fs : Fields Number)
      → within_fields l d fs ≡ true
      → within_fields l d (redact_fields fs) ≡ true
  within-redact_fields l d done h = refl
  within-redact_fields l d (field k j fs) h =
      let (a, b) = and_split (within l d j) (within_fields l d fs) h in
      rw (within-redact l d j a) (within-redact_fields l d fs b)

module _ {Number : Type 0} (python : Python Number) (heap : Heap Number)
    (item_cap string_cap max_depth : ℕ) (mapping_cap : Option ℕ) (v : Value Number) where
  -- Bounding a value ends, on cyclic objects too, with a value that is nested at most max_depth
  -- deep, whose lists have at most item_cap items and whose mappings at most as many keys as the
  -- mapping cap allows; no text in it, but the keys, is longer than chars, where chars leaves room
  -- for a cut text, for the mark "[truncated]" and for the mark of a cycle; and nowhere in it does a
  -- mapping have metadata with a preview.
  pub bounded_json_value-bounded :
      (chars : ℕ)
      → string_cap + 1 ≤ chars
      → 11 ≤ chars
      → ((i : ℕ) → length (cycle_text heap i) ≤ chars)
      → (b : BoundedJson Number) × (bounded_json_value python heap item_cap string_cap max_depth
            mapping_cap v
          ≡ some b)
        × (within
              (record {
                items = item_cap;
                keys = mapping_cap_of mapping_cap item_cap;
                chars = chars;
              })
              max_depth
              b.value
            ≡ true)
        × (is_redacted b.value ≡ true)
  unfolding bounded_json_value
  bounded_json_value-bounded chars texts marker named =
      let caps : Caps = record {
        item_cap = item_cap;
        string_cap = string_cap;
        mapping_cap = mapping_cap_of mapping_cap item_cap;
      } in
      let (b, found) = bounded_value-Found python heap caps max_depth v in
      (
        redact_value b,
        ap (Option.map redact_value) found,
        within-redact _ max_depth b.value
            (bounded_value-within python caps chars texts heap marker named max_depth v b found),
        redact-clean b.value,
      )
