-- ===== src/PolicyConfig/Build.antt =====
-- provider/policy_config.py: `manual_token_ids` and `build_policy_resolver`. `str.strip` is a
-- parameter.
use Prim.Native.String.{compare}
use Prim.Native.Nat.{Ordering}
use ma_provider_mcp.Prelude.{
  String, Bool, true, false, not, none, some, List, [], ◌∷◌, ◌++◌, map, filter, contains, str_eq,
  Dict, Result, ok, if◌then◌else◌, ◌>>=◌,
}
use ma_provider_mcp.Policy.Snapshot.{PolicyError}
use ma_provider_mcp.Policy.Resolver.{PolicySelection, PolicyResolver, resolver_init}
use ma_provider_mcp.PolicyConfig.Stored.{
  Item, text_item, other_item, Raw, text, listed, iterable, Store, parse_selection,
}

-- str(item)
abbrev str_of : Item → String
str_of (text_item s) = s
str_of (other_item s) = s

abbrev pub values_of : Raw → List String
values_of (text s) = s ∷ []
values_of (listed items) = map str_of items
values_of (iterable items) = map str_of items
values_of _ = []

-- if value
abbrev pub given_text : String → Bool
given_text s = not (str_eq s "")

-- dict.fromkeys, after those that are there already
abbrev pub unique : List String → List String → List String
unique seen [] = []
unique seen (s ∷ ss) =
    let fresh = unique (s ∷ seen) ss in
    let rest = unique seen ss in if contains seen s then rest else s ∷ fresh

-- `manual_token_ids`
unfoldable pub manual_token_ids : (String → String) → Raw → List String
manual_token_ids strip raw = unique [] (filter given_text (map strip (values_of raw)))

-- sorted({...})
abbrev pub add_sorted : String → List String → List String
add_sorted s [] = s ∷ []
add_sorted s (t ∷ ts) =
    let rest = add_sorted s ts in
    elim (compare s t) [ Ordering.lt ↦ s ∷ t ∷ ts | Ordering.eq ↦ t ∷ ts | Ordering.gt ↦ t ∷ rest ]

abbrev pub sorted_set : List String → List String
sorted_set [] = []
sorted_set (s ∷ ss) = add_sorted s (sorted_set ss)

module _ (digest : String → String) (store : Store) where
  -- {token_id: parse(token_id) for token_id in token_ids}
  abbrev pub parse_overrides : List String → Result PolicyError (Dict PolicySelection)
  parse_overrides [] = ok []
  parse_overrides (token_id ∷ token_ids) =
      parse_selection digest store (some token_id) true >>= λ selection.
      parse_overrides token_ids >>= λ overrides. ok ((token_id, selection) ∷ overrides)

module _ (digest strip : String → String) (store : Store) where
  open store use {get_value}

  abbrev pub all_token_ids : List String → List String
  all_token_ids active =
      sorted_set
        (manual_token_ids strip (get_value "policy_manual_token_ids") ++ filter given_text active)

  unfoldable pub build_policy_resolver : List String → Result PolicyError PolicyResolver
  build_policy_resolver active = parse_selection digest store none false >>= λ default.
      parse_overrides digest store (all_token_ids active) >>= λ overrides.
      resolver_init default overrides
