-- ===== src/Pagination/Cursor.antt =====
-- provider/catalog_pagination.py: queries, limits and cursors. A cursor, and the bytes of its JSON
-- text, are lists of numbers: code points and octets. Parameters are what the code takes from its
-- libraries: Unicode normalization, `str.casefold`, `str.split`, and the printing and the parsing of
-- JSON and of base64, which are none where they raise. A state has any JSON values in its fields, as
-- an instance that is made from a decoded cursor does.
use ma_provider_mcp.Prelude.{
  ℕ, ◌-◌, ◌%◌, suc, zero, String, Bool, false, not, ◌&&◌, ◌||◌, Option, none, some, List, [], ◌∷◌,
  ◌++◌, length, ltb, leb, ◌==◌, str_eq, str_len, str_append, Dict, lookup, keys, contains, all,
  get_or, is_some, is_empty, Result, ok, err, ◌>>=◌, if◌then◌else◌,
}

pub data DiscoveryMode : Type 0 where
  search catalog : DiscoveryMode

abbrev search_default_limit : ℕ
search_default_limit = 5

abbrev catalog_default_limit : ℕ
catalog_default_limit = 25

abbrev max_page_limit : ℕ
max_page_limit = 50

abbrev cursor_version : ℕ
cursor_version = 1

abbrev pub max_cursor_length : ℕ
max_cursor_length = 2048

abbrev pub max_query_length : ℕ
max_query_length = 200

-- A JSON value: an integer, which `negative n` has below zero, a text, or any other.
pub data JsonValue : Type 0 where
  natural negative : ℕ → JsonValue
  text : String → JsonValue
  other : JsonValue

-- What `json.loads` returns.
pub data Document : Type 0 where
  document : Dict JsonValue → Document
  not_object : Document

pub record CursorState : Type 0 where
  pub version : JsonValue
  pub mode : JsonValue
  pub query : JsonValue
  pub offset : JsonValue
  pub revision : JsonValue

-- The code and, of an invalid cursor, the message.
pub data PaginationError : Type 0 where
  invalid_arguments invalid_limit cursor_malformed version_unsupported : PaginationError

unfoldable pub validate_query : String → Result PaginationError (Unit {0})
validate_query query = if ltb max_query_length (str_len query) then err invalid_arguments else ok tt

-- `limit` is an integer here: the code refuses what is none with the same error
unfoldable pub resolve_limit : DiscoveryMode → Option ℕ → Result PaginationError ℕ
resolve_limit search none = ok search_default_limit
resolve_limit catalog none = ok catalog_default_limit
resolve_limit _ (some limit) =
    if leb 1 limit && leb limit max_page_limit then ok limit else err invalid_limit

abbrev join_words : List String → String
join_words [] = ""
join_words (word ∷ []) = word
join_words (word ∷ next ∷ words) = str_append word (str_append " " (join_words (next ∷ words)))

abbrev pub equals_sign : ℕ
equals_sign = 61

-- text.rstrip("=")
abbrev pub rstrip : List ℕ → List ℕ
rstrip [] = []
rstrip (c ∷ cs) = let rest = rstrip cs in if is_empty rest && c == equals_sign then [] else c ∷ rest

abbrev pub repeat : ℕ → List ℕ
repeat zero = []
repeat (suc n) = equals_sign ∷ repeat n

-- "=" * (-len(cursor) % 4)
abbrev pub padding : List ℕ → List ℕ
padding cursor = repeat ((4 - length cursor % 4) % 4)

abbrev pub is_version : JsonValue → Bool
is_version (natural n) = n == cursor_version
is_version _ = false

abbrev pub is_mode : JsonValue → Bool
is_mode (text mode) = str_eq mode "search" || str_eq mode "catalog"
is_mode _ = false

abbrev pub is_positive : JsonValue → Bool
is_positive (natural n) = ltb 0 n
is_positive _ = false

abbrev pub is_filled : JsonValue → Bool
is_filled (text revision) = not (str_eq revision "")
is_filled _ = false

-- A search has a query, and a listing of the catalog has none.
abbrev pub suits : JsonValue → JsonValue → Bool
suits (text mode) (text query) =
    (str_eq mode "search" && not (str_eq query "")) || (str_eq mode "catalog" && str_eq query "")
suits _ _ = false

abbrev version_error : JsonValue → PaginationError
version_error (natural n) = if n == cursor_version then cursor_malformed else version_unsupported
version_error (negative n) = version_unsupported
version_error _ = cursor_malformed

abbrev pub payload_keys : List String
payload_keys = "v" ∷ "m" ∷ "q" ∷ "o" ∷ "r" ∷ []

-- The dictionary that is encoded.
abbrev pub payload_of : CursorState → Dict JsonValue
payload_of state =
    ("v", state.version)
    ∷ ("m", state.mode)
    ∷ ("q", state.query)
    ∷ ("o", state.offset)
    ∷ ("r", state.revision)
    ∷ []

-- set(payload) == {"v", "m", "q", "o", "r"}
abbrev pub has_keys : Dict JsonValue → Bool
has_keys payload =
    all (contains payload_keys) (keys payload) && all (λ k. is_some (lookup k payload)) payload_keys

-- payload[key], behind the test of the keys
abbrev pub item : String → Dict JsonValue → JsonValue
item k payload = get_or (lookup k payload) other

abbrev pub state_of : Dict JsonValue → CursorState
state_of payload = record {
  version = item "v" payload;
  mode = item "m" payload;
  query = item "q" payload;
  offset = item "o" payload;
  revision = item "r" payload;
}

module _ (nfkc casefold : String → String) (split : String → List String) where
  unfoldable pub normalize_query : Option String → String
  normalize_query value = join_words (split (casefold (nfkc (get_or value ""))))

  abbrev pub is_query : JsonValue → Bool
  is_query (text query) =
      str_eq (normalize_query (some query)) query && leb (str_len query) max_query_length
  is_query _ = false

  abbrev pub is_valid : CursorState → Bool
  is_valid state =
      is_version state.version
      && is_mode state.mode
      && is_query state.query
      && is_positive state.offset
      && is_filled state.revision
      && suits state.mode state.query

  -- `_validate_state`
  unfoldable pub validate_state : CursorState → Result PaginationError (Unit {0})
  validate_state state = if is_valid state then ok tt else err (version_error state.version)

  abbrev bounded_cursor : List ℕ → Result PaginationError (List ℕ)
  bounded_cursor cursor =
      if ltb max_cursor_length (length cursor) then err cursor_malformed else ok cursor

  unfoldable pub encode_cursor :
      (Dict JsonValue → List ℕ) → (List ℕ → List ℕ) → CursorState → Result PaginationError (List ℕ)
  encode_cursor to_json to_base64 state =
      validate_state state >>= λ _. bounded_cursor (rstrip (to_base64 (to_json (payload_of state))))

  abbrev pub checked_state : CursorState → Result PaginationError CursorState
  checked_state state = validate_state state >>= λ _. ok state

  abbrev pub decode_payload : Option Document → Result PaginationError CursorState
  decode_payload (some (document payload)) =
      if has_keys payload && is_mode (item "m" payload)
      then checked_state (state_of payload)
      else err cursor_malformed
  decode_payload _ = err cursor_malformed

  abbrev pub decode_bytes :
      (List ℕ → Option Document) → Option (List ℕ) → Result PaginationError CursorState
  decode_bytes from_json none = err cursor_malformed
  decode_bytes from_json (some raw) = decode_payload (from_json raw)

  unfoldable pub decode_cursor :
      (List ℕ → Option Document)
      → (List ℕ → Option (List ℕ))
      → List ℕ
      → Result PaginationError CursorState
  decode_cursor from_json from_base64 cursor =
      if is_empty cursor || ltb max_cursor_length (length cursor)
      then err cursor_malformed
      else decode_bytes from_json (from_base64 (cursor ++ padding cursor))
