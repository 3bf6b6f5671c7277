-- ===== src/Pagination/States.antt =====
-- provider/catalog_pagination.py: what a validated state is.
use ma_provider_mcp.Prelude.{
  ℕ, ◌≤◌, ◌≡◌, ◌≢◌, refl, sym, ap, subst, ◌∙◌, ◌⊎◌, ◌||◌, ◌&&◌, not, if◌then◌else◌, inl, inr,
  String, Bool, true, false, Option, none, some, List, arith, str_eq, str_len, eq_iff, and_split,
  is_some, all, contains, get_or, keys, Dict, lookup, Result, ok, err,
}
use ma_provider_mcp.Pagination.Cursor.{
  JsonValue, natural, negative, text, other, CursorState, PaginationError, is_mode, is_positive,
  payload_keys, has_keys, state_of, normalize_query, is_valid, is_version, is_filled, suits,
  is_query, validate_state,
}

pub allowed :
    {A : Type 0} (holds : Bool) (r : Result PaginationError A) (a : A) (e : PaginationError)
    → (if holds then r else err e) ≡ ok a
    → (holds ≡ true) × (r ≡ ok a)
allowed true r a e h = (refl, h)
allowed false r a e h = absurd cc

-- The modes and the queries that suit them.
abbrev pub Suited : JsonValue → String → Type 0
Suited mode q = ((mode ≡ text "search") × (q ≢ "")) ⊎ ((mode ≡ text "catalog") × (q ≡ ""))

apart_text : (a b : String) → str_eq a b ≡ false → a ≢ b
apart_text a b e same = let z : true ≡ false = sym ((eq_iff a b).1 same) ∙ e in absurd cc

false_of_not : (b : Bool) → not b ≡ true → b ≡ false
false_of_not true h = absurd cc
false_of_not false h = refl

or_cases : (a b : Bool) → (a || b) ≡ true → (a ≡ true) ⊎ (b ≡ true)
or_cases true b h = inl refl
or_cases false b h = inr h

suits-Suited : (mode : JsonValue) (q : String) → suits mode (text q) ≡ true → Suited mode q
suits-Suited (text m) q h = elim (or_cases (str_eq m "search" && not (str_eq q "")) _ h) [
  | inl s ↦
      let (a, b) = and_split (str_eq m "search") (not (str_eq q "")) s in
      inl
        (ap (λ t. text t) ((eq_iff m "search").0 a), apart_text q "" (false_of_not (str_eq q "") b))
  | inr s ↦
      let (a, b) = and_split (str_eq m "catalog") (str_eq q "") s in
      inr (ap (λ t. text t) ((eq_iff m "catalog").0 a), (eq_iff q "").0 b)
]
suits-Suited (natural n) q h = absurd cc
suits-Suited (negative n) q h = absurd cc
suits-Suited other q h = absurd cc

version_one : (v : JsonValue) → is_version v ≡ true → v ≡ natural 1
version_one (natural n) h = ap (λ m. natural m) (ground arith)
version_one (negative n) h = absurd cc
version_one (text t) h = absurd cc
version_one other h = absurd cc

positive : (v : JsonValue) → is_positive v ≡ true → (n : ℕ) × (v ≡ natural n) × (1 ≤ n)
positive (natural n) h = (n, refl, ground arith)
positive (negative n) h = absurd cc
positive (text t) h = absurd cc
positive other h = absurd cc

filled : (v : JsonValue) → is_filled v ≡ true → (r : String) × (v ≡ text r) × (r ≢ "")
filled (text r) h = (r, refl, apart_text r "" (false_of_not (str_eq r "") h))
filled (natural n) h = absurd cc
filled (negative n) h = absurd cc
filled other h = absurd cc

found : {A : Type 0} (o : Option A) (d : A) → is_some o ≡ true → o ≡ some (get_or o d)
found none d h = absurd cc
found (some a) d h = refl

-- A state is what its payload says.
pub record ReadFrom (payload : Dict JsonValue) (s : CursorState) : Type 0 where
  pub version : lookup "v" payload ≡ some s.version
  pub mode : lookup "m" payload ≡ some s.mode
  pub query : lookup "q" payload ≡ some s.query
  pub offset : lookup "o" payload ≡ some s.offset
  pub revision : lookup "r" payload ≡ some s.revision

pub state_of-ReadFrom :
    (payload : Dict JsonValue) → has_keys payload ≡ true → ReadFrom payload (state_of payload)
state_of-ReadFrom payload h =
    let (_, present) = and_split (all (contains payload_keys) (keys payload)) _ h in
    let (v, more) = and_split (is_some (lookup "v" payload)) _ present in
    let (m, more2) = and_split (is_some (lookup "m" payload)) _ more in
    let (q, more3) = and_split (is_some (lookup "q" payload)) _ more2 in
    let (o, more4) = and_split (is_some (lookup "o" payload)) _ more3 in
    let (r, _) = and_split (is_some (lookup "r" payload)) _ more4 in
    record {
      version = found (lookup "v" payload) other v;
      mode = found (lookup "m" payload) other m;
      query = found (lookup "q" payload) other q;
      offset = found (lookup "o" payload) other o;
      revision = found (lookup "r" payload) other r;
    }

module _ (nfkc casefold : String → String) (split : String → List String) where
  -- A state that a next page can have been given.
  pub record Continues (s : CursorState) : Type 0 where
    pub current : s.version ≡ natural 1
    pub query : String
    pub has_query : s.query ≡ text query
    pub normalized : normalize_query nfkc casefold split (some query) ≡ query
    pub bounded : str_len query ≤ 200
    pub suited : Suited s.mode query
    pub offset : ℕ
    pub has_offset : s.offset ≡ natural offset
    pub advanced : 1 ≤ offset
    pub revision : String
    pub has_revision : s.revision ≡ text revision
    pub revised : revision ≢ ""

  queried :
      (v : JsonValue)
      → is_query nfkc casefold split v ≡ true
      → (q : String) × (v ≡ text q)
        × (normalize_query nfkc casefold split (some q) ≡ q)
        × (str_len q ≤ 200)
  queried (text q) h =
      let (a, b) = and_split (str_eq (normalize_query nfkc casefold split (some q)) q) _ h in
      (q, refl, (eq_iff (normalize_query nfkc casefold split (some q)) q).0 a, ground arith)
  queried (natural n) h = absurd cc
  queried (negative n) h = absurd cc
  queried other h = absurd cc

  pub valid-Continues : (s : CursorState) → is_valid nfkc casefold split s ≡ true → Continues s
  valid-Continues s h =
      let (all5, fits) = and_split _ (suits s.mode s.query) h in
      let (all4, revised) = and_split _ (is_filled s.revision) all5 in
      let (all3, advanced) = and_split _ (is_positive s.offset) all4 in
      let (all2, asked) = and_split _ (is_query nfkc casefold split s.query) all3 in
      let (current, _) = and_split (is_version s.version) (is_mode s.mode) all2 in
      let (q, is_text, normal, short) = queried s.query asked in
      let (n, is_number, above) = positive s.offset advanced in
      let (r, is_revision, given) = filled s.revision revised in
      record {
        current = version_one s.version current;
        query = q;
        has_query = is_text;
        normalized = normal;
        bounded = short;
        suited = suits-Suited s.mode q (subst (λ v. suits s.mode v ≡ true) is_text fits);
        offset = n;
        has_offset = is_number;
        advanced = above;
        revision = r;
        has_revision = is_revision;
        revised = given;
      }

  pub validate_ok :
      (s : CursorState) (done : Unit {0})
      → validate_state nfkc casefold split s ≡ ok done
      → is_valid nfkc casefold split s ≡ true
  unfolding validate_state
  validate_ok s done h = (allowed (is_valid nfkc casefold split s) (ok tt) done _ h).0

  pub valid_mode : (s : CursorState) → is_valid nfkc casefold split s ≡ true → is_mode s.mode ≡ true
  valid_mode s h =
      let (all5, _) = and_split _ (suits s.mode s.query) h in
      let (all4, _) = and_split _ (is_filled s.revision) all5 in
      let (all3, _) = and_split _ (is_positive s.offset) all4 in
      let (all2, _) = and_split _ (is_query nfkc casefold split s.query) all3 in
      (and_split (is_version s.version) (is_mode s.mode) all2).1
