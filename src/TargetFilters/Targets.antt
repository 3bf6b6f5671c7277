-- ===== src/TargetFilters/Targets.antt =====
-- provider/target_filters.py: the targets that a call names, and `enforce_target_filters`.
use Prim.Native.String.{String}
use ma_provider_mcp.Prelude.{
  Bool, true, false, not, ◌&&◌, ◌||◌, Option, none, some, List, [], ◌∷◌, ◌++◌, all, contains,
  str_eq, starts_with, starts_with_any, split, Dict, lookup, Result, ok, err, ◌>>◌, if◌then◌else◌,
}
use ma_provider_mcp.TargetFilters.Rules.{
  TargetKind, TargetRule, target_rule, is_player_kind, is_sequence_kind, is_reference_kind,
  music_provider_attributes,
}

-- A value of an argument: `None`, a text, a collection, or a mapping or object with its attributes
-- that are not `None`, by their `str`, with its `uri` if that is a text, and with its provider
-- mappings if they are a collection. A collection and an object have their own `str`.
mutual
  pub data Argument : Type 0 where
    absent : Argument
    word : String → Argument
    several : String → Arguments → Argument
    attributed : String → Dict String → Option String → Arguments → Argument

  pub data Arguments : Type 0 where
    last : Arguments
    more : Argument → Arguments → Arguments

-- The end of Music Assistant's `_parse_share_url`: an error, a provider, or `None`.
pub data Shared : Type 0 where
  rejected : Shared
  shared_by : String → Shared
  unshared : Shared

pub record Provider : Type 0 where
  pub instance_id : String
  pub is_music : Bool

-- What is asked of Music Assistant: `_parse_share_url`, `BUILTIN_URL_SCHEMES`, `MediaType`, and
-- `get_provider`, where an unavailable instance may be asked for.
pub record Library : Type 0 where
  pub share_url : String → Shared
  pub builtin_url_schemes : List String
  pub is_media_type : String → Bool
  pub get_provider : String → Bool → Option Provider

-- The filters of a user, `none` where they are no collection.
pub record User : Type 0 where
  pub is_admin : Bool
  pub player_filter : Option (List String)
  pub provider_filter : Option (List String)

-- `_allowed_values`
abbrev pub allowed_values : Option (List String) → Option (List String)
allowed_values (some (s ∷ ss)) = some (s ∷ ss)
allowed_values _ = none

abbrev pub internal_music_targets : List String
internal_music_targets = "builtin" ∷ "database" ∷ "library" ∷ []

-- `_attribute_ids`
abbrev pub attribute_ids : Dict String → List String → List String
attribute_ids attributes [] = []
attribute_ids attributes (name ∷ names) =
    let rest = attribute_ids attributes names in
    elim (lookup name attributes) [ none ↦ rest | some s ↦ if str_eq s "" then rest else s ∷ rest ]

-- The text before "://", where there is one.
abbrev pub before_scheme : String → Option String
before_scheme String.[] = none
before_scheme (String.◌∷◌ c s) =
    let rest = before_scheme s in
    if starts_with (String.◌∷◌ c s) "://"
    then some String.[]
    else elim rest [ none ↦ none | some text ↦ some (String.◌∷◌ c text) ]

module _ (library : Library) where
  open library use {share_url, builtin_url_schemes, is_media_type, get_provider}

  abbrev by_parts : List String → List String
  by_parts (provider ∷ media ∷ item ∷ []) =
      if not (str_eq provider "")
        && not (str_eq media "")
        && not (str_eq item "")
        && is_media_type media
      then provider ∷ []
      else []
  by_parts _ = []

  abbrev by_scheme : String → Option String → List String
  by_scheme value none = by_parts (split b':' value)
  by_scheme value (some provider) =
      if str_eq provider "" then by_parts (split b':' value) else provider ∷ []

  abbrev plain_ids : String → List String
  plain_ids value =
      if starts_with_any value builtin_url_schemes
      then "builtin" ∷ []
      else by_scheme value (before_scheme value)

  abbrev by_share : String → Shared → List String
  by_share value rejected = "<unresolved share url>" ∷ []
  by_share value (shared_by provider) = provider ∷ []
  by_share value unshared = plain_ids value

  -- `_reference_provider_ids` of a text
  unfoldable pub link_ids : String → List String
  link_ids value =
      if starts_with_any value ("http://" ∷ "https://" ∷ [])
      then by_share value (share_url value)
      else plain_ids value

  abbrev uri_ids : Option String → List String
  uri_ids none = []
  uri_ids (some uri) = link_ids uri

-- `_reference_provider_ids`. A set is a list.
unfoldable mutual
  pub reference_ids : Library → Argument → List String
  reference_ids library absent = []
  reference_ids library (word value) = link_ids library value
  reference_ids library (several text items) = all_reference_ids library items
  reference_ids library (attributed text attributes uri mappings) =
      attribute_ids attributes music_provider_attributes
      ++ (uri_ids library uri ++ all_reference_ids library mappings)

  pub all_reference_ids : Library → Arguments → List String
  all_reference_ids library last = []
  all_reference_ids library (more value values) =
      reference_ids library value ++ all_reference_ids library values

abbrev str_of : Argument → String
str_of absent = "None"
str_of (word s) = s
str_of (several s items) = s
str_of (attributed s attributes uri mappings) = s

abbrev strs_of : Arguments → List String
strs_of last = []
strs_of (more value values) = str_of value ∷ strs_of values

-- `_target_values`
abbrev pub target_values : Argument → Bool → List String
target_values (several s items) true = strs_of items
target_values value sequence = str_of value ∷ []

abbrev pub is_absent : Argument → Bool
is_absent absent = true
is_absent _ = false

pub data Denied : Type 0 where
  insufficient_permissions : Denied

module _ (library : Library) where
  open library use {get_provider}

  -- `_resolve_music_provider`
  abbrev pub resolve_music_provider : String → Option Provider
  resolve_music_provider submitted = elim (get_provider submitted true) [
    | none ↦ get_provider submitted false
    | some exact ↦
        if str_eq exact.instance_id submitted then some exact else get_provider submitted false
  ]

  abbrev is_allowed_provider : List String → Option Provider → Bool
  is_allowed_provider allowed none = false
  is_allowed_provider allowed (some provider) =
      provider.is_music && contains allowed provider.instance_id

  -- One round of the loop of `_enforce_music_providers`.
  abbrev pub passes_provider : List String → String → Bool
  passes_provider allowed submitted =
      contains internal_music_targets submitted
      || (contains allowed submitted
          || is_allowed_provider allowed (resolve_music_provider submitted))

  -- `_enforce_music_providers`
  abbrev pub enforce_music_providers : List String → Option (List String) → Result Denied (Unit {0})
  enforce_music_providers requested none = ok tt
  enforce_music_providers requested (some allowed) =
      if all (passes_provider allowed) requested then ok tt else err insufficient_permissions

  -- `_enforce_allowed`
  abbrev pub enforce_allowed : List String → Option (List String) → Result Denied (Unit {0})
  enforce_allowed requested none = ok tt
  enforce_allowed requested (some allowed) =
      if all (contains allowed) requested then ok tt else err insufficient_permissions

  abbrev pub values_of : TargetKind → Argument → List String
  values_of kind value =
      if is_reference_kind kind
      then reference_ids library value
      else target_values value (is_sequence_kind kind)

  -- One round of the loop of `enforce_target_filters`.
  abbrev pub enforce_rule : User → Argument → Option TargetRule → Result Denied (Unit {0})
  enforce_rule user value none = ok tt
  enforce_rule user value (some rule) =
      if is_player_kind rule.target_kind
      then enforce_allowed (values_of rule.target_kind value) (allowed_values user.player_filter)
      else enforce_music_providers (values_of rule.target_kind value)
          (allowed_values user.provider_filter)

  abbrev pub enforce_each : User → String → List (String × Argument) → Result Denied (Unit {0})
  enforce_each user command [] = ok tt
  enforce_each user command ((argument, value) ∷ arguments) =
      (if is_absent value then ok tt else enforce_rule user value (target_rule command argument))
      >> enforce_each user command arguments

  unfoldable pub enforce_target_filters :
      User → String → List (String × Argument) → Result Denied (Unit {0})
  enforce_target_filters user command arguments =
      if user.is_admin then ok tt else enforce_each user command arguments
