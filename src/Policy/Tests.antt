-- ===== src/Policy/Tests.antt =====
-- Runs of the policy code, and the theorems at concrete inputs.
use ma_provider_mcp.Prelude.{
  ◌≡◌, refl, ◌≢◌, ◌↔◌, String, true, Option, none, some, [], ◌∷◌, inl, inr, Dict, get_or, lookup,
  keys, Member, is_some, ok, err,
}
use ma_provider_mcp.Capability.{value, kind, of_string, debug_events}
use ma_provider_mcp.Policy.Mode.{
  PolicyMode, deny, allow, confirm, safe_queries, custom, combine_policy_modes,
}
use ma_provider_mcp.Policy.Snapshot.{PolicySnapshot, empty_token_id, policy_snapshot, mode}
use ma_provider_mcp.Policy.Profiles.{grant, policy_snapshot-grant, policy_snapshot_custom}
use ma_provider_mcp.Policy.Resolver.{
  PolicySelection, PolicyResolver, selection_snapshot, override_snapshot, compile_overrides,
  resolver_init, resolve, any_allows,
}
use ma_provider_mcp.Policy.Resolution.{Resolves, resolver_init-Resolves, any_allows_iff}

program : Unit {0}
unfolding combine_policy_modes policy_snapshot mode selection_snapshot override_snapshot
    compile_overrides resolver_init resolve any_allows
program = tt

combine_runs :
    (combine_policy_modes (allow ∷ confirm ∷ allow ∷ []) ≡ confirm)
    × (combine_policy_modes (confirm ∷ deny ∷ []) ≡ deny)
unfolding program
combine_runs = (refl, refl)

abbrev explicit : Dict PolicyMode
explicit = ("debug:events", confirm) ∷ []

abbrev custom_policy : PolicySnapshot
custom_policy = record { profile = custom; modes = λ c. get_or (lookup (value c) explicit) deny }

abbrev default_selection : PolicySelection
default_selection = record { choice = some safe_queries; custom_modes = [] }

abbrev overrides : Dict PolicySelection
overrides =
    ("token-a", record { choice = some custom; custom_modes = explicit })
    ∷ ("token-b", record { choice = none; custom_modes = [] })
    ∷ []

abbrev safe_policy : PolicySnapshot
safe_policy = record { profile = safe_queries; modes = λ c. grant safe_queries (kind c) }

abbrev resolver : PolicyResolver
resolver = record {
  default = default_selection;
  overrides = overrides;
  default_snapshot = safe_policy;
  override_snapshots = ("token-a", some custom_policy) ∷ ("token-b", none) ∷ [];
}

explicit_known : (k : String) → Member k (keys explicit) → is_some (of_string k) ≡ true
explicit_known k (inl e) = rw e
explicit_known k (inr h) = absurd h

policy_snapshot-grant_example : policy_snapshot safe_queries [] ≡ ok safe_policy
policy_snapshot-grant_example = policy_snapshot-grant safe_queries (λ e. cc)

policy_snapshot_custom_example : policy_snapshot custom explicit ≡ ok custom_policy
policy_snapshot_custom_example = (policy_snapshot_custom explicit).1 explicit_known

resolver_builds : resolver_init default_selection overrides ≡ ok resolver
unfolding resolver_init compile_overrides override_snapshot selection_snapshot
resolver_builds = rw (policy_snapshot-grant_example, policy_snapshot_custom_example)

resolver_refuses_empty_id :
    resolver_init default_selection (("", default_selection) ∷ []) ≡ err empty_token_id
unfolding program
resolver_refuses_empty_id = refl

resolver_init-Resolves_example : Resolves default_selection overrides resolver
resolver_init-Resolves_example =
    resolver_init-Resolves default_selection overrides resolver resolver_builds

any_allows_iff_example :
    (any_allows resolver debug_events ≡ true)
    ↔ ((t : Option String) × ((resolve resolver t).modes debug_events ≢ deny))
any_allows_iff_example = any_allows_iff resolver debug_events (refl, (refl, tt))
