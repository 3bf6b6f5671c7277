-- ===== src/CommandPolicy/Tests.antt =====
-- Runs of the resolution of command policies, after tests/test_command_policy.py, and the theorems
-- at concrete commands.
use ma_provider_mcp.Prelude.{
  ◌≤◌, ◌≡◌, refl, ◌≢◌, ◌↔◌, ◌⊎◌, inl, String, true, false, none, some, List, [], ◌∷◌, Member,
}
use ma_provider_mcp.Capability.{
  Capability, query_library, edit_library, delete_library, edit_playlists, delete_playlists,
  system_admin, kind, config_write_secret, edit_queue, debug_providers,
}
use ma_provider_mcp.Policy.Mode.{allow, confirm, rank, home_control, combine_policy_modes}
use ma_provider_mcp.Policy.Snapshot.{PolicySnapshot}
use ma_provider_mcp.Policy.Profiles.{grant}
use ma_provider_mcp.CommandPolicy.Decision.{
  Operation, CommandDecision, FamilyPolicy, effective_mode, alternative_mode, decision_modes,
}
use ma_provider_mcp.CommandPolicy.Families.{family, family_policies, scope_families}
use ma_provider_mcp.CommandPolicy.Exact.{command_is_hard_denied, exact_policies}
use ma_provider_mcp.CommandPolicy.Scope.{
  Scope, unset, named, any_of, cons, nil, matches, longest_match, matching_family, value_operation,
  scope_operation, scope_family, is_destructive, operation,
}
use ma_provider_mcp.CommandPolicy.Resolve.{
  required_capabilities, fallback_capability, preflight_of, fallback_decision, family_decision,
  scope_fallback_policy, is_system, family_or_scope, resolve_command_policy,
}
use ma_provider_mcp.CommandPolicy.Modes.{needed, IsGranted, effective_allow_iff, effective_extra-le}
use ma_provider_mcp.CommandPolicy.Guards.{is_guarded, resolve_command_policy-guarded}
use ma_provider_mcp.CommandPolicy.Longest.{IsLongest, matching_family-IsLongest}
use ma_provider_mcp.CommandPolicy.Columns.{Falls, scope_fallback-guards}
use ma_provider_mcp.CommandPolicy.Deletions.{GuardsDeletion, destructive-guards}

program : Unit {0}
unfolding combine_policy_modes effective_mode alternative_mode decision_modes family_policies
    scope_families command_is_hard_denied exact_policies matches longest_match matching_family
    value_operation scope_operation scope_family is_destructive operation required_capabilities
    fallback_capability preflight_of fallback_decision family_decision scope_fallback_policy
    is_system family_or_scope resolve_command_policy
program = tt

-- The names below are folded already.
abbrev fold : String → String
fold text = text

abbrev required : String → Scope → List Capability
required command scope = (resolve_command_policy fold command scope none).required_capabilities

runs :
    (required "music/playlists/remove" (named "library.write") ≡ delete_playlists ∷ [])
    × (required "music/albums/update" (named "library.write") ≡ edit_library ∷ [])
    × (required "music/tracks/library_items" (named "library.read") ≡ query_library ∷ [])
    × (required "tasks/list" unset ≡ system_admin ∷ [])
    × (required "plugin/delete_thing" (named "library.manage") ≡ delete_library ∷ [])
    × (required "plugin/set" (named "queues.control") ≡ edit_queue ∷ [])
    × (required "plugin/set_delete" (named "providers.read") ≡ [])
    × (required "plugin/list"
          (any_of (cons (named "players.control") (cons (named "providers.read") nil)))
        ≡ debug_providers ∷ [])
    × (required "auth/login" (named "library.read") ≡ [])
    × (required "party/url" (named "providers.read") ≡ system_admin ∷ [])
unfolding program
runs = (refl, refl, refl, refl, refl, refl, refl, refl, refl, refl)

abbrev home : PolicySnapshot
home = record { profile = home_control; modes = λ c. grant home_control (kind c) }

abbrev remove_playlist : CommandDecision
remove_playlist = resolve_command_policy fold "music/playlists/remove" (named "library.write") none

remove_needs_prompt : effective_mode remove_playlist home [] ≡ confirm
unfolding program
remove_needs_prompt = refl

effective_allow_iff_example :
    (effective_mode remove_playlist home [] ≡ allow) ↔ IsGranted remove_playlist home []
effective_allow_iff_example = effective_allow_iff remove_playlist home []

remove_asked : (needed remove_playlist [] ≢ []) ⊎ (remove_playlist.alternative_capabilities ≢ [])
unfolding program
remove_asked = inl (λ e. cc)

effective_extra-le_example :
    rank (effective_mode remove_playlist home (config_write_secret ∷ []))
    ≤ rank (effective_mode remove_playlist home [])
effective_extra-le_example =
    effective_extra-le remove_playlist home [] (config_write_secret ∷ []) remove_asked

guarded_example :
    is_guarded (resolve_command_policy fold "plugin/list" (named "library.read") none) ≡ true
guarded_example = resolve_command_policy-guarded fold "plugin/list" (named "library.read") none

auth_denied : command_is_hard_denied "auth/login" ≡ true
unfolding program
auth_denied = refl

abbrev playlists : FamilyPolicy
playlists =
    family "music/playlists/" (some query_library) none (some edit_playlists)
      (some delete_playlists) false

playlists_match : matching_family "music/playlists/remove" ≡ some playlists
unfolding program
playlists_match = refl

matching_family-IsLongest_example : IsLongest "music/playlists/remove" family_policies playlists
matching_family-IsLongest_example =
    (matching_family-IsLongest "music/playlists/remove").0 playlists playlists_match

scope_fallback-guards_example :
    Falls
      (record {
        prefix = "queues.read";
        capabilities = (Operation.read, Capability.query_queue) ∷ [];
        readonly = false;
      })
      (operation fold "plugin/list" (named "queues.read") none (
        some (record {
          prefix = "queues.read";
          capabilities = (Operation.read, Capability.query_queue) ∷ [];
          readonly = false;
        })))
      (scope_fallback_policy fold "plugin/list" (named "queues.read") none)
unfolding scope_family scope_families
scope_fallback-guards_example =
    (scope_fallback-guards fold "plugin/list" (named "queues.read") none).1 _ refl

remove_asks_for_delete :
    Member delete_playlists (required "music/playlists/remove" (named "library.write"))
unfolding program
remove_asks_for_delete = inl refl

destructive-guards_example : GuardsDeletion "music/playlists/remove" playlists delete_playlists
unfolding exact_policies is_destructive
destructive-guards_example =
    destructive-guards fold "music/playlists/remove" (named "library.write") none playlists
      delete_playlists refl playlists_match refl refl remove_asks_for_delete
