-- ===== src/Secrets/Gate.antt =====
-- provider/config_io/secret_handler.py: the gate on writes of secret entries. `entry_type` of an
-- entry is a text, of which `secure_string` is `ConfigEntryType.SECURE_STRING`. The values that are
-- written are not read, only their keys.
use ma_provider_mcp.Prelude.{
  ◌≡◌, subst, refl, inl, inr, String, Bool, true, false, Option, none, some, List, [], ◌∷◌, str_eq,
  Dict, lookup, insert, keys, Member, Bool-cases, Result, ok, err, if◌then◌else◌,
}

pub record ConfigEntry : Type 0 where
  pub key : String
  pub entry_type : String

-- A mapping by key, or the entries alone.
pub data Entries : Type 0 where
  mapping : Dict ConfigEntry → Entries
  sequence : List ConfigEntry → Entries

abbrev index : Dict ConfigEntry → List ConfigEntry → Dict ConfigEntry
index m [] = m
index m (e ∷ es) = index (insert e.key e m) es

unfoldable pub entries_by_key : Entries → Dict ConfigEntry
entries_by_key (mapping m) = m
entries_by_key (sequence es) = index [] es

abbrev is_secure : String → Option ConfigEntry → Bool
is_secure secure_string none = false
is_secure secure_string (some e) = str_eq e.entry_type secure_string

unfoldable pub is_secret_key : String → Entries → String → Bool
is_secret_key secure_string entries key =
    is_secure secure_string (lookup key (entries_by_key entries))

-- the first key of the payload that is secret
unfoldable pub first_secret : String → Entries → List String → Option String
first_secret secure_string indexed [] = none
first_secret secure_string indexed (k ∷ ks) =
    let rest = first_secret secure_string indexed ks in
    if is_secret_key secure_string indexed k then some k else rest

abbrev refused : Option String → Result String (Unit {0})
refused none = ok tt
refused (some key) = err key

-- The error names the offending key.
unfoldable pub gate_secret_writes {ℓ} :
    {Value : Type ℓ} → String → Entries → Dict Value → Bool → Result String (Unit {0})
gate_secret_writes secure_string entries values secret_capability_enabled =
    if secret_capability_enabled
    then ok tt
    else refused (first_secret secure_string (mapping (entries_by_key entries)) (keys values))

module _ (secure_string : String) (entries : Entries) where
  -- What the first secret key of a payload is: one of it that is secret, or none is.
  pub data First : List String → Option String → Type 0 where
    all_plain :
        (ks : List String)
        → ((k : String) → Member k ks → is_secret_key secure_string entries k ≡ false)
        → First ks none
    offending :
        (ks : List String) (k : String)
        → Member k ks
        → is_secret_key secure_string entries k ≡ true
        → First ks (some k)

  same_key :
      (k : String)
      → is_secret_key secure_string (mapping (entries_by_key entries)) k
        ≡ is_secret_key secure_string entries k
  unfolding is_secret_key entries_by_key
  same_key k = refl

  extended :
      (k : String) (ks : List String) (o : Option String)
      → is_secret_key secure_string entries k ≡ false
      → First ks o
      → First (k ∷ ks) o
  extended k ks _ h (all_plain _ plain) = all_plain (k ∷ ks) (λ j m. plain_of k ks h plain j m)
    where
      plain_of :
          (k : String) (ks : List String)
          → is_secret_key secure_string entries k ≡ false
          → ((k : String) → Member k ks → is_secret_key secure_string entries k ≡ false)
          → (j : String) → Member j (k ∷ ks)
          → is_secret_key secure_string entries j ≡ false
      plain_of k ks h plain j (inl e) = rw e h
      plain_of k ks h plain j (inr m) = plain j m
  extended k ks _ h (offending _ j m s) = offending (k ∷ ks) j (inr m) s

  first_secret-First :
      (ks : List String)
      → First ks (first_secret secure_string (mapping (entries_by_key entries)) ks)
  unfolding first_secret
  first_secret-First [] = all_plain [] (λ k m. absurd m)
  first_secret-First (k ∷ ks) = elim (Bool-cases (is_secret_key secure_string entries k)) [
    | inl e ↦ rw (same_key k, e) (offending (k ∷ ks) k (inl refl) e)
    | inr e ↦ rw (same_key k, e) (extended k ks _ e (first_secret-First ks))
  ]

  passes_plain :
      (ks : List String) (o : Option String)
      → First ks o
      → refused o ≡ ok tt
      → (k : String) → Member k ks
      → is_secret_key secure_string entries k ≡ false
  passes_plain ks _ (all_plain _ plain) h = plain
  passes_plain ks _ (offending _ j m s) h = absurd cc

  stops_secret :
      (ks : List String) (o : Option String) (key : String)
      → First ks o
      → refused o ≡ err key
      → Member key ks × (is_secret_key secure_string entries key ≡ true)
  stops_secret ks _ key (all_plain _ plain) h = absurd cc
  stops_secret ks _ key (offending _ j m s) h =
      (let e : j ≡ key = cc in
        subst (λ t. Member t ks × (is_secret_key secure_string entries t ≡ true)) e (m, s))

  -- A write that passes without the secret capability writes no key of a secret entry.
  pub gate_secret_writes-passes :
      {Value : Type 0} (values : Dict Value) (key : String)
      → gate_secret_writes secure_string entries values false ≡ ok tt
      → Member key (keys values)
      → is_secret_key secure_string entries key ≡ false
  unfolding gate_secret_writes
  gate_secret_writes-passes values key h =
      passes_plain (keys values) _ (first_secret-First (keys values)) h key

  -- A write is refused only without the secret capability, and the key that the error names is a
  -- key of the payload whose entry is secret.
  pub gate_secret_writes-refuses :
      {Value : Type 0} (values : Dict Value) (enabled : Bool) (key : String)
      → gate_secret_writes secure_string entries values enabled ≡ err key
      → (enabled ≡ false)
        × Member key (keys values)
        × (is_secret_key secure_string entries key ≡ true)
  unfolding gate_secret_writes
  gate_secret_writes-refuses values true key h = absurd cc
  gate_secret_writes-refuses values false key h =
      let (member, secret) =
        stops_secret (keys values) _ key (first_secret-First (keys values)) h in
      (refl, member, secret)
