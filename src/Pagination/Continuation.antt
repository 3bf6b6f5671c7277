-- ===== src/Pagination/Continuation.antt =====
-- provider/catalog_pagination.py: a cursor continues where it was made, and no other is taken.
use ma_provider_mcp.Prelude.{
  ℕ, ◌%◌, ◌+◌, ◌≤◌, ◌≡◌, refl, subst, ◌||◌, ◌&&◌, if◌then◌else◌, String, Bool, true, false, Option,
  none, some, List, ◌++◌, arith, length, ltb, and_split, is_empty, Dict, Result, ok, err, returned,
}
use ma_provider_mcp.Pagination.Cursor.{
  DiscoveryMode, search, catalog, max_cursor_length, JsonValue, Document, document, not_object,
  CursorState, PaginationError, resolve_limit, rstrip, padding, is_mode, payload_of, has_keys, item,
  state_of, validate_state, encode_cursor, decode_payload, decode_bytes, decode_cursor,
}
use ma_provider_mcp.Pagination.States.{
  allowed, ReadFrom, state_of-ReadFrom, Continues, valid-Continues, validate_ok, valid_mode,
}
use ma_provider_mcp.Pagination.Padding.{rstrip-padding, rstrip_filled}

-- Every page size that is accepted, or that a mode has by default, lies between 1 and 50.
pub resolve_limit-bounded :
    (mode : DiscoveryMode) (limit : Option ℕ) (n : ℕ)
    → resolve_limit mode limit ≡ ok n
    → (1 ≤ n) × (n ≤ 50)
unfolding resolve_limit
resolve_limit-bounded search none n h = ground arith
resolve_limit-bounded catalog none n h = ground arith
resolve_limit-bounded search (some limit) n h = ground arith
resolve_limit-bounded catalog (some limit) n h = ground arith

not_refused :
    {A : Type 0} (refused : Bool) (r : Result PaginationError A) (a : A) (e : PaginationError)
    → (if refused then err e else r) ≡ ok a
    → (refused ≡ false) × (r ≡ ok a)
not_refused true r a e h = absurd cc
not_refused false r a e h = (refl, h)

abbrev returns : {A : Type 0} → A → Result PaginationError A
returns a = ok a

ok-injective : {A : Type 0} (a b : A) → returns a ≡ returns b → a ≡ b
ok-injective a b h = cc

module _ (nfkc casefold : String → String) (split : String → List String) where
  -- The payload of a valid state is decoded as that state.
  decode_payload-payload_of :
      (s : CursorState) (done : Unit {0})
      → validate_state nfkc casefold split s ≡ ok done
      → decode_payload nfkc casefold split (some (document (payload_of s))) ≡ ok s
  decode_payload-payload_of s done h =
      rw (valid_mode nfkc casefold split s (validate_ok nfkc casefold split s done h), h)

  -- A cursor that is made for a state is decoded as the same state. Of the libraries it takes, for
  -- the payload of this state: that JSON and base64 are read back as what was written, and that the
  -- base64 text is not empty, has a multiple of four characters and at most two signs of padding.
  pub decode_cursor-encode_cursor :
      (to_json : Dict JsonValue → List ℕ) (to_base64 : List ℕ → List ℕ)
      (from_json : List ℕ → Option Document) (from_base64 : List ℕ → Option (List ℕ))
      (s : CursorState) (cursor : List ℕ)
      → from_json (to_json (payload_of s)) ≡ some (document (payload_of s))
      → from_base64 (to_base64 (to_json (payload_of s))) ≡ some (to_json (payload_of s))
      → length (to_base64 (to_json (payload_of s))) % 4 ≡ 0
      → 1 ≤ length (to_base64 (to_json (payload_of s)))
      → length (to_base64 (to_json (payload_of s)))
        ≤ length (rstrip (to_base64 (to_json (payload_of s)))) + 2
      → encode_cursor nfkc casefold split to_json to_base64 s ≡ ok cursor
      → decode_cursor nfkc casefold split from_json from_base64 cursor ≡ ok s
  unfolding encode_cursor decode_cursor
  decode_cursor-encode_cursor to_json to_base64 from_json from_base64 s cursor json base64 fours
        given few h =
      let whole = to_base64 (to_json (payload_of s)) in
      let (done, valid, bounded) = returned (validate_state nfkc casefold split s) _ h in
      let (short, same) = not_refused _ (ok (rstrip whole)) cursor _ bounded in
      subst (λ t. decode_cursor nfkc casefold split from_json from_base64 t ≡ ok s)
        (ok-injective _ _ same)
        (rw
          (rstrip_filled whole fours given few, short, rstrip-padding whole fours few, base64, json)
          (decode_payload-payload_of s done valid))

  -- What a decoded payload is.
  pub Decoded : Option Document → CursorState → Type 0
  Decoded o s =
      (payload : Dict JsonValue) × (o ≡ some (document payload))
      × ReadFrom payload s
      × Continues nfkc casefold split s

  decode_payload-Decoded :
      (o : Option Document) (s : CursorState)
      → decode_payload nfkc casefold split o ≡ ok s
      → Decoded o s
  unfolding Decoded
  decode_payload-Decoded none s h = absurd cc
  decode_payload-Decoded (some not_object) s h = absurd cc
  decode_payload-Decoded (some (document payload)) s h =
      let (tests, rest) = allowed (has_keys payload && is_mode (item "m" payload)) _ s _ h in
      let (done, valid, same) =
        returned (validate_state nfkc casefold split (state_of payload))
          (λ _. ok (state_of payload)) rest in
      let same_state = ok-injective (state_of payload) s same in
      (
        payload,
        refl,
        subst (λ u. ReadFrom payload u) same_state
            (state_of-ReadFrom payload
              (and_split (has_keys payload) (is_mode (item "m" payload)) tests).0),
        subst (λ u. Continues nfkc casefold split u) same_state
            (valid-Continues nfkc casefold split (state_of payload)
              (validate_ok nfkc casefold split (state_of payload) done valid)),
      )

  decode_bytes-Decoded :
      (from_json : List ℕ → Option Document) (o : Option (List ℕ)) (s : CursorState)
      → decode_bytes nfkc casefold split from_json o ≡ ok s
      → (raw : List ℕ) × (o ≡ some raw) × Decoded (from_json raw) s
  decode_bytes-Decoded from_json none s h = absurd cc
  decode_bytes-Decoded from_json (some raw) s h =
      (raw, refl, decode_payload-Decoded (from_json raw) s h)

  -- A state that is taken from a text of a client is one that a next page can have been given: of
  -- version 1, with a normalized query of at most 200 characters that is empty exactly in the mode
  -- catalog, a positive offset and a revision. The text has at most 2048 characters, and each value of
  -- the state is the one that stands under its key in the JSON object of the padded text.
  pub decode_cursor-valid :
      (from_json : List ℕ → Option Document) (from_base64 : List ℕ → Option (List ℕ))
      (cursor : List ℕ) (s : CursorState)
      → decode_cursor nfkc casefold split from_json from_base64 cursor ≡ ok s
      → (length cursor ≤ 2048)
        × ((raw : List ℕ) × (from_base64 (cursor ++ padding cursor) ≡ some raw)
            × Decoded (from_json raw) s)
  unfolding decode_cursor
  decode_cursor-valid from_json from_base64 cursor s h =
      let (fits, taken) =
        not_refused _
          (decode_bytes nfkc casefold split from_json (from_base64 (cursor ++ padding cursor))) s _
          h in
      (
        short_enough (is_empty cursor) fits,
        decode_bytes-Decoded from_json (from_base64 (cursor ++ padding cursor)) s taken,
      )
    where
      short_enough :
          (b : Bool) → (b || ltb max_cursor_length (length cursor)) ≡ false → length cursor ≤ 2048
      short_enough true e = absurd cc
      short_enough false e = ground arith
