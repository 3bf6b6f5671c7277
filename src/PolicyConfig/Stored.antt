-- ===== src/PolicyConfig/Stored.antt =====
-- provider/policy_config.py: stored values, their keys, and the parsing of one selector. SHA-256 is a
-- parameter.
use Prim.Native.Char.{Char}
use ma_provider_mcp.Prelude.{
  String, Bool, ◌&&◌, Option, none, some, List, str_eq, str_append, replace, get_or, Result,
  if◌then◌else◌,
}
use ma_provider_mcp.Policy.Mode.{
  PolicyMode, deny, allow, confirm, PolicyProfile, safe_queries, home_control, interactive_admin,
  trusted, custom,
}
use ma_provider_mcp.Policy.Snapshot.{PolicyError, for_each_capability}
use ma_provider_mcp.Policy.Resolver.{PolicySelection, inherit, profile_selection, custom_selection}

-- An item of a stored collection: a text, or something else by its `str`.
pub data Item : Type 0 where
  text_item : String → Item
  other_item : String → Item

-- A stored value: `None`, a text, a list, tuple or set, another iterable, or anything else.
pub data Raw : Type 0 where
  missing : Raw
  text : String → Raw
  listed : List Item → Raw
  iterable : List Item → Raw
  other : Raw

-- config.get_value, and `raw_value_provider` where there is one
pub record Store : Type 0 where
  pub get_value : String → Raw
  pub raw_value_provider : Option (String → Raw)

-- str(profile)
abbrev pub profile_text : PolicyProfile → String
profile_text safe_queries = "Safe queries"
profile_text home_control = "Home control"
profile_text interactive_admin = "Interactive admin"
profile_text trusted = "Trusted"
profile_text custom = "Custom"

-- PolicyProfile(raw)
abbrev pub profile_of : String → Option PolicyProfile
profile_of raw =
    if str_eq raw (profile_text safe_queries)
    then some safe_queries
    else if str_eq raw (profile_text home_control)
    then some home_control
    else if str_eq raw (profile_text interactive_admin)
    then some interactive_admin
    else if str_eq raw (profile_text trusted)
    then some trusted
    else if str_eq raw (profile_text custom)
    then some custom
    else none

-- str(mode)
abbrev pub mode_text : PolicyMode → String
mode_text deny = "deny"
mode_text allow = "allow"
mode_text confirm = "confirm"

-- PolicyMode(raw)
abbrev pub mode_of : String → Option PolicyMode
mode_of raw =
    if str_eq raw (mode_text deny)
    then some deny
    else if str_eq raw (mode_text allow)
    then some allow
    else if str_eq raw (mode_text confirm)
    then some confirm
    else none

-- `_parse_mode`
unfoldable pub parse_mode : Raw → PolicyMode
parse_mode (text raw) = get_or (mode_of raw) deny
parse_mode _ = deny

abbrev or_raw : Raw → Option (String → Raw) → String → Raw
or_raw missing (some provider) key = provider key
or_raw raw provider key = raw

-- `policy_value`
unfoldable pub policy_value : Store → String → Raw
policy_value store key = or_raw (store.get_value key) store.raw_value_provider key

abbrev underscore : Char
underscore = "_"

-- capability.replace(":", "_")
abbrev pub fragment : String → String
fragment capability = replace b':' underscore capability

module _ (digest : String → String) where
  -- `token_policy_key`
  abbrev pub token_policy_key : String → String
  token_policy_key token_id = str_append "policy_token_" (digest token_id)

  -- `policy_mode_key`
  abbrev pub policy_mode_key : String → Option String → String
  policy_mode_key capability none = str_append "policy_mode_" (fragment capability)
  policy_mode_key capability (some token_id) =
      str_append "policy_token_"
        (str_append (fragment capability) (str_append "_" (digest token_id)))

  abbrev pub selector_key : Option String → String
  selector_key none = "policy_default"
  selector_key (some token_id) = token_policy_key token_id

  module _ (store : Store) where
    -- One mode of a custom policy.
    abbrev pub stored_mode : Option String → String → PolicyMode
    stored_mode token_id capability =
        parse_mode (policy_value store (policy_mode_key capability token_id))

    abbrev pub by_profile :
        Option String → Option PolicyProfile → Result PolicyError PolicySelection
    by_profile token_id none = profile_selection safe_queries
    by_profile token_id (some custom) =
        custom_selection (for_each_capability (stored_mode token_id))
    by_profile token_id (some profile) = profile_selection profile

    abbrev pub by_raw : Option String → Bool → Raw → Result PolicyError PolicySelection
    by_raw token_id allow_inherit missing =
        if allow_inherit then inherit else profile_selection safe_queries
    by_raw token_id allow_inherit (text raw) =
        if allow_inherit && str_eq raw "Inherit"
        then inherit
        else if str_eq raw "Read-only"
        then profile_selection safe_queries
        else by_profile token_id (profile_of raw)
    by_raw token_id allow_inherit _ = profile_selection safe_queries

    -- `_parse_selection`
    unfoldable pub parse_selection : Option String → Bool → Result PolicyError PolicySelection
    parse_selection token_id allow_inherit =
        by_raw token_id allow_inherit (policy_value store (selector_key token_id))
