-- ===== src/TargetFilters/Rows.antt =====
-- provider/target_filters.py: the rows of a listing that a user sees.
use Prim.Native.String.{String}
use ma_provider_mcp.Prelude.{
  Bool, true, false, not, ◌&&◌, ◌||◌, Option, none, some, List, [], ◌∷◌, ◌++◌, filter, all, any,
  is_empty, is_some, contains, str_eq, Dict, if◌then◌else◌,
}
use ma_provider_mcp.TargetFilters.Rules.{
  TargetKind, music_provider, CollectionRule, collection_rule, is_player_kind, single_item_rules,
  player_row_attributes, music_provider_attributes,
}
use ma_provider_mcp.TargetFilters.Targets.{
  Library, User, allowed_values, internal_music_targets, attribute_ids, before_scheme, link_ids,
}

-- What a row or a result is known by: its attributes and those of its provider mappings, by their
-- `str`, and its `uri` and `path` where they are texts.
pub record Identity : Type 0 where
  pub attributes : Dict String
  pub provider_mappings : List (Dict String)
  pub uri : Option String
  pub path : Option String

pub record Row (Data : Type 0) : Type 0 where
  pub identity : Identity
  pub content : Data

-- A field of a result: a list of rows, or anything else.
pub data Part (Data : Type 0) : Type 0 where
  rows_part : List (Row Data) → Part Data
  other_part : Data → Part Data

-- A result: `None`, a list of rows, a mapping or a dataclass of parts, or another object.
pub data Listing (Data : Type 0) : Type 0 where
  nothing : Listing Data
  rows : List (Row Data) → Listing Data
  parts : Identity → List (String × Part Data) → Listing Data
  single : Row Data → Listing Data

-- names == others
abbrev pub same_names : List String → List String → Bool
same_names [] [] = true
same_names [] (n ∷ ns) = false
same_names (m ∷ ms) [] = false
same_names (m ∷ ms) (n ∷ ns) = str_eq m n && same_names ms ns

abbrev pub is_music_attributes : List String → Bool
is_music_attributes names = same_names names music_provider_attributes

-- row_ids & allowed
abbrev pub meets : List String → List String → Bool
meets ids allowed = any (contains allowed) ids

-- row_ids and row_ids <= internal
abbrev pub is_internal : List String → Bool
is_internal ids = not (is_empty ids) && all (contains internal_music_targets) ids

abbrev mapping_ids : List (Dict String) → List String → List String
mapping_ids [] names = []
mapping_ids (m ∷ ms) names = attribute_ids m names ++ mapping_ids ms names

abbrev pub filter_of : User → TargetKind → Option (List String)
filter_of user kind = if is_player_kind kind then user.player_filter else user.provider_filter

abbrev pub attributes_of : TargetKind → List String
attributes_of kind =
    if is_player_kind kind then player_row_attributes else music_provider_attributes

module _ (library : Library) where
  abbrev scheme_ids : Option String → List String
  scheme_ids none = []
  scheme_ids (some value) = if is_some (before_scheme value) then link_ids library value else []

  -- `_row_ids`
  unfoldable pub row_ids : Identity → List String → List String
  row_ids row names =
      attribute_ids row.attributes names
      ++ (mapping_ids row.provider_mappings names
          ++ (if is_music_attributes names then scheme_ids row.uri ++ scheme_ids row.path else []))

  abbrev pub by_allowed : Identity → TargetKind → Option (List String) → Bool
  by_allowed row kind none = true
  by_allowed row kind (some allowed) =
      meets (row_ids row (attributes_of kind)) allowed
      || (not (is_player_kind kind) && is_internal (row_ids row (attributes_of kind)))

  -- `collection_row_allowed`
  unfoldable pub collection_row_allowed : Option User → Identity → TargetKind → Bool
  collection_row_allowed none row kind = true
  collection_row_allowed (some user) row kind =
      if user.is_admin then true else by_allowed row kind (allowed_values (filter_of user kind))

  module _ {Data : Type 0} where
    abbrev pub is_listed : List String → List String → Row Data → Bool
    is_listed allowed names item =
        meets (row_ids item.identity names) allowed
        || (is_music_attributes names && is_internal (row_ids item.identity names))

    -- `_filter_rows`
    abbrev pub filter_rows : List (Row Data) → List String → List String → List (Row Data)
    filter_rows items allowed names = filter (is_listed allowed names) items

    abbrev pub filter_part : List String → List String → Part Data → Part Data
    filter_part allowed names (rows_part items) = rows_part (filter_rows items allowed names)
    filter_part allowed names (other_part value) = other_part value

    abbrev pub filter_parts :
        List String → List String → List (String × Part Data) → List (String × Part Data)
    filter_parts allowed names [] = []
    filter_parts allowed names ((key, part) ∷ fields) =
        (key, filter_part allowed names part) ∷ filter_parts allowed names fields

    abbrev pub by_listing : List String → List String → Listing Data → Listing Data
    by_listing allowed names nothing = nothing
    by_listing allowed names (rows items) = rows (filter_rows items allowed names)
    by_listing allowed names (parts identity fields) =
        parts identity (filter_parts allowed names fields)
    by_listing allowed names (single row) = single row

    abbrev pub by_filter : Option (List String) → List String → Listing Data → Listing Data
    by_filter none names result = result
    by_filter (some allowed) names result = by_listing allowed names result

    -- What the attributes of a result are, where none and a list have none.
    abbrev pub identity_of : Listing Data → Identity
    identity_of (parts identity fields) = identity
    identity_of (single row) = row.identity
    identity_of result = record { attributes = []; provider_mappings = []; uri = none; path = none }

    abbrev pub by_collection : User → String → Listing Data → Option CollectionRule → Listing Data
    by_collection user command result none =
        if contains single_item_rules command
          && not (collection_row_allowed (some user) (identity_of result) music_provider)
        then nothing
        else result
    by_collection user command result (some rule) =
        by_filter (allowed_values (filter_of user rule.target_kind)) rule.row_attributes result

    unfoldable pub filter_collection_result : Option User → String → Listing Data → Listing Data
    filter_collection_result none command result = result
    filter_collection_result (some user) command result =
        if user.is_admin
        then result
        else by_collection user command result (collection_rule command)
