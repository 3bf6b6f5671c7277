-- ===== src/Policy/Resolver.antt =====
-- provider/policy.py: `PolicySelection` and `PolicyResolver`.
use ma_provider_mcp.Prelude.{
  String, Bool, true, false, not, ◌&&◌, Option, none, some, [], ◌∷◌, str_eq, Dict, lookup, keys,
  any, is_empty, Result, ok, err, ◌>>=◌, if◌then◌else◌,
}
use ma_provider_mcp.Capability.{Capability}
use ma_provider_mcp.Policy.Mode.{PolicyMode, deny, same, PolicyProfile, custom}
use ma_provider_mcp.Policy.Snapshot.{
  PolicyError, unsupported_capability, modes_need_custom, use_custom, default_inherits,
  empty_token_id, inherit_snapshot, PolicySnapshot, has_unsupported, policy_snapshot,
}

-- `choice` is `none` for Inherit.
pub record PolicySelection : Type 0 where
  pub choice : Option PolicyProfile
  pub custom_modes : Dict PolicyMode

abbrev pub is_custom : Option PolicyProfile → Bool
is_custom (some custom) = true
is_custom _ = false

unfoldable pub selection_init :
    Option PolicyProfile → Dict PolicyMode → Result PolicyError PolicySelection
selection_init choice custom_modes =
    if has_unsupported custom_modes
    then err unsupported_capability
    else if not (is_custom choice) && not (is_empty custom_modes)
    then err modes_need_custom
    else ok (record { choice = choice; custom_modes = custom_modes })

unfoldable pub inherit : Result PolicyError PolicySelection
unfolding selection_init
inherit = selection_init none []

unfoldable pub profile_selection : PolicyProfile → Result PolicyError PolicySelection
unfolding selection_init
profile_selection custom = err use_custom
profile_selection profile = selection_init (some profile) []

unfoldable pub custom_selection : Dict PolicyMode → Result PolicyError PolicySelection
unfolding selection_init
custom_selection modes = selection_init (some custom) modes

unfoldable pub selection_snapshot : PolicySelection → Result PolicyError PolicySnapshot
selection_snapshot selection = elim selection.choice [
  | none ↦ err inherit_snapshot
  | some profile ↦ policy_snapshot profile selection.custom_modes
]

pub record PolicyResolver : Type 0 where
  pub default : PolicySelection
  pub overrides : Dict PolicySelection
  pub default_snapshot : PolicySnapshot
  pub override_snapshots : Dict (Option PolicySnapshot)

-- One value of the comprehension over the overrides.
unfoldable pub override_snapshot : PolicySelection → Result PolicyError (Option PolicySnapshot)
override_snapshot selection = elim selection.choice [
  | none ↦ ok none
  | some profile ↦ do snapshot ← selection_snapshot selection; ok (some snapshot)
]

unfoldable pub compile_overrides :
    Dict PolicySelection → Result PolicyError (Dict (Option PolicySnapshot))
compile_overrides [] = ok []
compile_overrides ((token_id, selection) ∷ rest) = do
  snapshot ← override_snapshot selection
  compiled ← compile_overrides rest
  ok ((token_id, snapshot) ∷ compiled)

-- `__post_init__`. A value is never mutated, so that a copy is the value itself.
unfoldable pub resolver_init :
    PolicySelection → Dict PolicySelection → Result PolicyError PolicyResolver
resolver_init default overrides = elim default.choice [
  | none ↦ err default_inherits
  | some profile ↦ do
    snapshot ← selection_snapshot default
    compiled ← compile_overrides overrides
    if any (λ token_id. str_eq token_id "") (keys compiled)
        then err empty_token_id
        else ok (record {
          default = default;
          overrides = overrides;
          default_snapshot = snapshot;
          override_snapshots = compiled;
        })
]

-- self._override_snapshots.get(token_id) or self._default_snapshot
abbrev pub or_default : Option (Option PolicySnapshot) → PolicySnapshot → PolicySnapshot
or_default (some (some snapshot)) default = snapshot
or_default _ default = default

unfoldable pub resolve : PolicyResolver → Option String → PolicySnapshot
resolve resolver none = resolver.default_snapshot
resolve resolver (some token_id) =
    or_default (lookup token_id resolver.override_snapshots) resolver.default_snapshot

abbrev pub exposes : Capability → Option PolicySnapshot → Bool
exposes capability none = false
exposes capability (some snapshot) = not (same deny (snapshot.modes capability))

unfoldable pub any_allows : PolicyResolver → Capability → Bool
unfolding resolve
any_allows resolver capability =
    if not (same deny ((resolve resolver none).modes capability))
    then true
    else any (λ entry. exposes capability entry.1) resolver.override_snapshots
