-- ===== src/PolicyConfig/Tests.antt =====
-- provider/policy_config.py on a store with a custom default and a token with a broken selector.
use ma_provider_mcp.Prelude.{
  ◌≡◌, refl, Option, false, Member, lookup, get_or, String, none, some, [], ◌∷◌, str_eq, ok, ◌⊎◌,
  if◌then◌else◌,
}
use ma_provider_mcp.Capability.{Capability, debug_events, query_library, control_volume, value}
use ma_provider_mcp.Policy.Mode.{deny, confirm, home_control}
use ma_provider_mcp.Policy.Resolver.{
  PolicyResolver, resolve, profile_selection, selection_init, selection_snapshot, compile_overrides,
  resolver_init, any_allows,
}
use ma_provider_mcp.Policy.Snapshot.{
  PolicySnapshot, for_each_capability, profile_mode, policy_snapshot, snapshot_init,
}
use ma_provider_mcp.PolicyConfig.Suffixes.{
  suffixes, suffix_mode, suffix_policies_allow, policy_event_buffer_enabled,
  policy_event_buffer_enabled-off,
}
use ma_provider_mcp.PolicyConfig.Stored.{
  Raw, missing, text, listed, text_item, other_item, other, Store, stored_mode, parse_mode,
  parse_selection, policy_value,
}
use ma_provider_mcp.PolicyConfig.Build.{manual_token_ids, build_policy_resolver}
use ma_provider_mcp.PolicyConfig.Resolved.{Granted, build_policy_resolver-Granted}

abbrev digest : String → String
digest token_id = token_id

abbrev strip : String → String
strip s = s

abbrev stored_value : String → Raw
stored_value key =
    if str_eq key "policy_default"
    then text "Custom"
    else if str_eq key "policy_mode_control_volume"
    then text "confirm"
    else if str_eq key "policy_token_t1"
    then other
    else missing

abbrev store : Store
store = record { get_value = stored_value; raw_value_provider = none }

manual :
    manual_token_ids strip
      (listed (text_item "b" ∷ other_item "a" ∷ text_item "" ∷ text_item "b" ∷ []))
    ≡ "b" ∷ "a" ∷ []
unfolding manual_token_ids
manual = refl

volume : stored_mode digest store none (value control_volume) ≡ confirm
unfolding parse_mode policy_value
volume = refl

unnamed : stored_mode digest store none (value query_library) ≡ deny
unfolding parse_mode policy_value
unnamed = refl

build_policy_resolver-Granted_example :
    (r : PolicyResolver) × (build_policy_resolver digest strip store ("t1" ∷ []) ≡ ok r)
    × ((c : Capability) → Granted digest store none c ((resolve r none).modes c))
    × ((t : String)
        → ((c : Capability) → Granted digest store (some t) c ((resolve r (some t)).modes c))
          ⊎ (resolve r (some t) ≡ resolve r none))
build_policy_resolver-Granted_example = build_policy_resolver-Granted digest store strip ("t1" ∷ [])

-- A store that names a profile for all, and lists no suffix that is well formed.
abbrev home_value : String → Raw
home_value key =
    if str_eq key "policy_default"
    then text "Home control"
    else if str_eq key "policy_token_suffixes"
    then listed (text_item "abc" ∷ [])
    else missing

abbrev home_store : Store
home_store = record { get_value = home_value; raw_value_provider = none }

abbrev home_snapshot : PolicySnapshot
home_snapshot = record {
  profile = home_control;
  modes = λ c. get_or (lookup (value c) (for_each_capability (profile_mode home_control))) deny;
}

abbrev home_resolver : PolicyResolver
home_resolver = record {
  default = record { choice = some home_control; custom_modes = [] };
  overrides = [];
  default_snapshot = home_snapshot;
  override_snapshots = [];
}

home_built : build_policy_resolver digest strip home_store [] ≡ ok home_resolver
unfolding build_policy_resolver parse_selection policy_value manual_token_ids profile_selection
    selection_init selection_snapshot policy_snapshot snapshot_init compile_overrides resolver_init
home_built = refl

home_off : policy_event_buffer_enabled digest strip home_store [] ≡ ok false
unfolding policy_event_buffer_enabled build_policy_resolver parse_selection policy_value
    manual_token_ids profile_selection selection_init selection_snapshot policy_snapshot
    snapshot_init profile_mode compile_overrides resolver_init any_allows resolve
    suffix_policies_allow suffix_mode
home_off = refl

policy_event_buffer_enabled-off_example :
    ((t : Option String) → (resolve home_resolver t).modes debug_events ≡ deny)
    × ((suffix : String)
        → Member suffix (suffixes home_store)
        → suffix_mode home_store debug_events suffix ≡ deny)
policy_event_buffer_enabled-off_example =
    policy_event_buffer_enabled-off digest strip home_store [] home_resolver home_built home_off
