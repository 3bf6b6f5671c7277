-- ===== src/PolicyConfig/Suffixes.antt =====
-- provider/policy_config.py: the policies that are stored by the suffix of a token, and
-- `policy_event_buffer_enabled`.
use Prim.Native.Char.{code}
use Prim.Native.String.{String}
use ma_provider_mcp.Prelude.{
  ℕ, zero, suc, ◌≡◌, ◌≢◌, sym, ap, ◌∙◌, inl, inr, Bool, false, not, ◌&&◌, ◌||◌, Option, none, some,
  List, [], ◌∷◌, any, any_of_Member, Member, str_eq, str_append, leb, Result, ok, err, returned,
  Bool-cases, if◌then◌else◌, ◌>>=◌, arith,
}
use mathlib.Core.Bool.{true≢false}
use ma_provider_mcp.Capability.{Capability, debug_events, value}
use ma_provider_mcp.Policy.Mode.{PolicyMode, deny, same, same_iff, PolicyProfile, custom}
use ma_provider_mcp.Policy.Snapshot.{PolicyError, PolicySnapshot, policy_snapshot}
use ma_provider_mcp.Policy.Resolver.{PolicyResolver, any_allows, resolve}
use ma_provider_mcp.Policy.Resolution.{allows_any}
use ma_provider_mcp.PolicyConfig.Stored.{
  Item, text_item, other_item, Raw, text, listed, Store, profile_of, parse_mode, policy_value,
  fragment,
}
use ma_provider_mcp.PolicyConfig.Build.{sorted_set, build_policy_resolver}

-- [0-9a-f]
abbrev is_hex : ℕ → Bool
is_hex c = (leb b'0' c && leb c b'9') || (leb b'a' c && leb c b'f')

-- [0-9a-f]{n}
abbrev is_hex_text : ℕ → String → Bool
is_hex_text zero s = str_eq s ""
is_hex_text (suc n) String.[] = false
is_hex_text (suc n) (String.◌∷◌ c s) = is_hex (code c) && is_hex_text n s

-- the texts that `valid_policy_token_suffix` accepts
abbrev valid_suffixes : List Item → List String
valid_suffixes [] = []
valid_suffixes (text_item s ∷ items) =
    let rest = valid_suffixes items in if is_hex_text 64 s then s ∷ rest else rest
valid_suffixes (other_item s ∷ items) = valid_suffixes items

-- `manual_token_suffixes`
abbrev pub manual_token_suffixes : Raw → List String
manual_token_suffixes (listed items) = sorted_set (valid_suffixes items)
manual_token_suffixes _ = []

abbrev pub suffixes : Store → List String
suffixes store = manual_token_suffixes (policy_value store "policy_token_suffixes")

module _ (store : Store) (capability : Capability) where
  abbrev suffix_mode_key : String → String
  suffix_mode_key suffix =
      str_append "policy_token_" (str_append (fragment (value capability)) (str_append "_" suffix))

  abbrev snapshot_mode : Result PolicyError PolicySnapshot → PolicyMode
  snapshot_mode (ok snapshot) = snapshot.modes capability
  snapshot_mode (err e) = deny

  abbrev profile_suffix_mode : String → Option PolicyProfile → PolicyMode
  profile_suffix_mode suffix none = deny
  profile_suffix_mode suffix (some custom) =
      parse_mode (policy_value store (suffix_mode_key suffix))
  profile_suffix_mode suffix (some profile) = snapshot_mode (policy_snapshot profile [])

  abbrev selected_mode : String → Raw → PolicyMode
  selected_mode suffix (text s) =
      if str_eq s "Inherit" then deny else profile_suffix_mode suffix (profile_of s)
  selected_mode suffix raw = deny

  -- A stored value that is no text has no profile's name for its `str`.
  -- The mode that one suffix has, where deny stands for going on to the next one too.
  unfoldable pub suffix_mode : String → PolicyMode
  suffix_mode suffix = selected_mode suffix (policy_value store (str_append "policy_token_" suffix))

  -- `_suffix_policies_allow`
  unfoldable pub suffix_policies_allow : Bool
  suffix_policies_allow = any (λ suffix. not (same deny (suffix_mode suffix))) (suffixes store)

module _ (digest strip : String → String) (store : Store) (active : List String) where
  unfoldable pub policy_event_buffer_enabled : Result PolicyError Bool
  policy_event_buffer_enabled = build_policy_resolver digest strip store active >>= λ resolver.
      ok (any_allows resolver debug_events || suffix_policies_allow store debug_events)

  same_flag : (a b : Bool) → Path (Result PolicyError Bool) (ok a) (ok b) → a ≡ b
  same_flag a b h = cc

  denied : (m : PolicyMode) → (m ≢ deny → ⊥) → m ≡ deny
  denied m h = elim (Bool-cases (same deny m)) [
    | inl e ↦ sym ((same_iff deny m).0 e)
    | inr e ↦ absurd (h (λ d. true≢false (sym ((same_iff deny m).1 (sym d)) ∙ e)))
  ]

  -- Where the event buffer is off, no policy exposes debug events: the default snapshot, the
  -- snapshot of every token, and the policy of every stored suffix deny them.
  pub policy_event_buffer_enabled-off :
      (r : PolicyResolver)
      → build_policy_resolver digest strip store active ≡ ok r
      → policy_event_buffer_enabled ≡ ok false
      → ((t : Option String) → (resolve r t).modes debug_events ≡ deny)
        × ((suffix : String)
            → Member suffix (suffixes store)
            → suffix_mode store debug_events suffix ≡ deny)
  unfolding policy_event_buffer_enabled suffix_policies_allow
  policy_event_buffer_enabled-off r built off =
      let (x, first, rest) = returned (build_policy_resolver digest strip store active) _ off in
      let same_resolver : r ≡ x = same_ok r x (sym built ∙ first) in
      let flag =
        ap (λ y. any_allows y debug_events || suffix_policies_allow store debug_events)
          same_resolver
        ∙ same_flag _ false rest in
      let (tokens, stored) =
        neither (any_allows r debug_events) (suffix_policies_allow store debug_events) flag in
      (
        λ t. denied _ (λ n. true≢false (sym (allows_any r debug_events t n) ∙ tokens)),
        λ suffix m. elim (Bool-cases (same deny (suffix_mode store debug_events suffix))) [
          | inl e ↦ sym ((same_iff deny _).0 e)
          | inr e ↦ absurd (
              true≢false (
                sym (
                  any_of_Member (λ s. not (same deny (suffix_mode store debug_events s)))
                    (suffixes store) m (ap not e))
                ∙ stored))
        ],
      )
    where
      same_ok :
          (a b : PolicyResolver) → Path (Result PolicyError PolicyResolver) (ok a) (ok b) → a ≡ b
      same_ok a b h = cc

      neither : (a b : Bool) → (a || b) ≡ false → (a ≡ false) × (b ≡ false)
      neither a b h = ground arith
