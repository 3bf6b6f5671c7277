-- ===== src/Pagination/Tests.antt =====
-- Limits and cursors, after tests/test_catalog_pagination.py, and their theorems at small values.
use ma_provider_mcp.Prelude.{
  ℕ, ◌≤◌, ◌≡◌, refl, String, Option, none, some, List, [], ◌∷◌, length, ok, err, str_eq,
  if◌then◌else◌, Dict, ◌==◌, arith,
}
use ma_provider_mcp.Pagination.Cursor.{
  search, catalog, JsonValue, natural, negative, text, Document, document, CursorState,
  invalid_limit, cursor_malformed, version_unsupported, payload_of, normalize_query, validate_state,
  validate_query, resolve_limit, encode_cursor, decode_cursor,
}
use ma_provider_mcp.Pagination.Continuation.{
  resolve_limit-bounded, Decoded, decode_cursor-encode_cursor, decode_cursor-valid,
}

-- The query is normalized already, and is one word.
abbrev plain : String → String
plain query = query

abbrev words : String → List String
words query = if str_eq query "" then [] else query ∷ []

abbrev second_page : CursorState
second_page = record {
  version = natural 1;
  mode = text "search";
  query = text "volume";
  offset = natural 5;
  revision = text "0123";
}

-- A library that knows one payload: its bytes are 1, and its base64 is two characters and two signs.
abbrev to_json : Dict JsonValue → List ℕ
to_json payload = 1 ∷ []

abbrev from_json : List ℕ → Option Document
from_json raw = some (document (payload_of second_page))

abbrev to_base64 : List ℕ → List ℕ
to_base64 raw = 65 ∷ 81 ∷ 61 ∷ 61 ∷ []

abbrev from_base64 : List ℕ → Option (List ℕ)
from_base64 cursor = if length cursor == 4 then some (1 ∷ []) else none

runs :
    (resolve_limit search none ≡ ok 5)
    × (resolve_limit catalog (some 51) ≡ err invalid_limit)
    × (validate_query "volume" ≡ ok tt)
    × (validate_state plain plain words (record second_page { offset = natural 0 })
        ≡ err cursor_malformed)
    × (validate_state plain plain words (record second_page { version = natural 2 })
        ≡ err version_unsupported)
    × (validate_state plain plain words (record second_page { version = negative 0 })
        ≡ err version_unsupported)
    × (encode_cursor plain plain words to_json to_base64 second_page ≡ ok (65 ∷ 81 ∷ []))
    × (decode_cursor plain plain words from_json from_base64 [] ≡ err cursor_malformed)
    × (decode_cursor plain plain words from_json from_base64 (65 ∷ []) ≡ ok second_page)
unfolding resolve_limit validate_query validate_state encode_cursor decode_cursor normalize_query
runs = (refl, refl, refl, refl, refl, refl, refl, refl, refl)

resolve_limit-bounded_example : (1 ≤ 25) × (25 ≤ 50)
unfolding resolve_limit
resolve_limit-bounded_example = resolve_limit-bounded catalog none 25 refl

decode_cursor-valid_example :
    (2 ≤ 2048)
    × ((raw : List ℕ) × (from_base64 (65 ∷ 81 ∷ 61 ∷ 61 ∷ []) ≡ some raw)
        × Decoded plain plain words (from_json raw) second_page)
unfolding decode_cursor validate_state normalize_query
decode_cursor-valid_example =
    decode_cursor-valid plain plain words from_json from_base64 (65 ∷ 81 ∷ []) second_page refl

decode_cursor-encode_cursor_example :
    decode_cursor plain plain words from_json from_base64 (65 ∷ 81 ∷ []) ≡ ok second_page
unfolding encode_cursor validate_state normalize_query
decode_cursor-encode_cursor_example =
    decode_cursor-encode_cursor plain plain words to_json to_base64 from_json from_base64
      second_page (65 ∷ 81 ∷ []) refl refl refl (omega arith) (omega arith) refl
