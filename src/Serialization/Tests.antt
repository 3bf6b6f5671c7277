-- ===== src/Serialization/Tests.antt =====
-- provider/dynamic_serialization.py on objects that refer to each other.
use ma_provider_mcp.Prelude.{
  ℕ, zero, suc, ◌≤◌, ◌≡◌, refl, ap, true, false, none, some, List, [], ◌∷◌, length, arith,
}
use mathlib.Core.Option
use ma_provider_mcp.Serialization.Json.{
  Text, Json, null, text, object, done, field, has, array, item, end, bounded_string,
}
use ma_provider_mcp.Serialization.Native.{
  string, reference, mapping, sequence, Heap, Python, cycle_text,
}
use ma_provider_mcp.Serialization.Whole.{json_value}
use ma_provider_mcp.Serialization.Bounded.{BoundedJson, new_key, bounded_value}
use ma_provider_mcp.Serialization.Redact.{metadata_text, preview_text, redact, bounded_json_value}
use ma_provider_mcp.Serialization.Ends.{json_value-Found}
use ma_provider_mcp.Serialization.Seen.{Found}
use ma_provider_mcp.Serialization.Within.{within}
use ma_provider_mcp.Serialization.Redacted.{is_redacted, bounded_json_value-bounded}
use ma_provider_mcp.Serialization.Lossless.{bounded_json_value-lossless}
use ma_provider_mcp.Serialization.Keys.{new_key-free}

-- Counts are printed in unary, and any order serves for a set.
abbrev unary : ℕ → Text
unary zero = []
unary (suc n) = 49 ∷ unary n

abbrev python : Python ℕ
python = record { is_finite = λ n. true; dumps = λ j. []; decimal = unary }

-- A track with metadata, and an album that holds itself.
abbrev objects : Heap ℕ
objects = record {
  shapes =
      mapping ((metadata_text, reference 1) ∷ [])
      ∷ mapping ((preview_text, string (117 ∷ [])) ∷ [])
      ∷ sequence (reference 2 ∷ [])
      ∷ [];
  type_name = λ i. 84 ∷ [];
}

abbrev album_json : Json ℕ
album_json = array (item (text (cycle_text objects 2)) end)

album : json_value python objects (reference 2) ≡ some album_json
unfolding json_value
album = refl

abbrev track_json : Json ℕ
track_json = object (field metadata_text (object (field preview_text null done)) done)

abbrev track_bounded : BoundedJson ℕ
track_bounded = record { value = track_json; truncated = false; total_count = none }

track : bounded_json_value python objects 5 20 3 none (reference 0) ≡ some track_bounded
unfolding bounded_json_value bounded_value bounded_string
track = refl

json_value-Found_example : Found (json_value python objects (reference 2))
json_value-Found_example = json_value-Found python objects (reference 2)

short_names : (i : ℕ) → length (cycle_text objects i) ≤ 21
short_names i = omega arith

bounded_json_value-bounded_example :
    (b : BoundedJson ℕ) × (bounded_json_value python objects 5 20 3 none (reference 0) ≡ some b)
    × (within (record { items = 5; keys = 5; chars = 21 }) 3 b.value ≡ true)
    × (is_redacted b.value ≡ true)
bounded_json_value-bounded_example =
    bounded_json_value-bounded python objects 5 20 3 none (reference 0) 21 (omega arith)
      (omega arith) short_names

bounded_json_value-lossless_example :
    Option.map redact (json_value python objects (reference 0)) ≡ some track_json
bounded_json_value-lossless_example =
    bounded_json_value-lossless python objects 5 20 3 none (reference 0) track_bounded track refl

unary-injective : (i j : ℕ) → unary i ≡ unary j → i ≡ j
unary-injective i j h = length-unary i j (ap length h)
  where
    length-unary : (m n : ℕ) → length (unary m) ≡ length (unary n) → m ≡ n
    length-unary zero zero h = refl
    length-unary zero (suc n) h = absurd (omega arith)
    length-unary (suc m) zero h = absurd (omega arith)
    length-unary (suc m) (suc n) h = ap suc (length-unary m n (omega arith))

abbrev entered : List (Text × Json ℕ)
entered = (97 ∷ [], null) ∷ (97 ∷ 35 ∷ 49 ∷ 49 ∷ [], null) ∷ []

new_key-free_example : has (new_key python (97 ∷ [], true) entered) entered ≡ false
new_key-free_example = new_key-free python (97 ∷ []) entered unary-injective
