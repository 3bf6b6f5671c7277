-- ===== src/Execution/Worlds.antt =====
-- The authorization of a call, in a world where all is allowed and nothing changes.
use ma_provider_mcp.Prelude.{
  ℕ, ◌+◌, ◌≡◌, refl, String, Bool, true, false, Option, none, some, [], ok, err, if◌then◌else◌,
  ◌==◌,
}
use ma_provider_mcp.Capability.{kind}
use ma_provider_mcp.Policy.Mode.{allow, home_control, trusted, combine_policy_modes}
use ma_provider_mcp.Policy.Snapshot.{PolicySnapshot}
use ma_provider_mcp.Policy.Profiles.{grant}
use ma_provider_mcp.CommandPolicy.Decision.{alternative_mode, decision_modes, effective_mode}
use ma_provider_mcp.CommandPolicy.Families.{family_policies, scope_families}
use ma_provider_mcp.CommandPolicy.Exact.{command_is_hard_denied, exact_policies}
use ma_provider_mcp.CommandPolicy.Scope.{
  named, matches, longest_match, matching_family, value_operation, scope_operation, scope_family,
  is_destructive, operation,
}
use ma_provider_mcp.CommandPolicy.Resolve.{
  required_capabilities, preflight_of, family_decision, is_system, family_or_scope,
  resolve_command_policy,
}
use ma_provider_mcp.Execution.Invocation.{
  Handler, handler_is_discoverable, DynamicEntry, Invocation,
}
use ma_provider_mcp.Execution.Live.{
  World, request_policy, reauthorize_entry, live_decision, not_found, tool_error,
}
use ma_provider_mcp.Execution.Authorize.{
  begun, after_impersonation, confirm_authorization, authorize_call,
}
use ma_provider_mcp.Execution.Checks.{Sealed}
use ma_provider_mcp.Execution.Sealed.{Asked, authorize_call-Sealed}

abbrev pub handler : Handler
handler = record {
  identity = 1;
  required_scope = some (named "library.write");
  authenticated = true;
  alias = false;
  target_callable = true;
  has_signature = true;
  has_type_hints = true;
}

abbrev home : PolicySnapshot
home = record { profile = home_control; modes = λ c. grant home_control (kind c) }

abbrev full : PolicySnapshot
full = record { profile = trusted; modes = λ c. grant trusted (kind c) }

-- One handler, which is taken away at time 5.
abbrev live_until_five : ℕ → String → Option Handler
live_until_five t command = if t == 5 then none else some handler

-- Token, user and arguments are Booleans; a token is true where its policy is the full one.
abbrev pub world : World Bool Bool Bool
world = record {
  auth_required = λ t. true;
  authentication = λ t. ok (some (true, true));
  identity_holds = λ t token user. true;
  enabled = λ t user. true;
  user_id = λ user. some "u1";
  token_policy = λ t token. full;
  default_policy = λ t. home;
  live_handler = live_until_five;
  scope_allowed = λ t user scope. true;
  may_impersonate = λ t user. true;
  target_allowed = λ t user command arguments. true;
  resolve_user = λ t auth text scope. ok true;
  preflight =
      λ t d arguments auth. ok (record { secure_config_value = none; additional_required = [] });
  revalidate = λ t d arguments flight. ok flight;
  profile_of = λ command. none;
  casefold = λ text. text;
}

abbrev pub entry : DynamicEntry
entry = record {
  name = "ma_music_playlists_remove";
  command = "music/playlists/remove";
  required_scope = some "library.write";
  allow_impersonation = true;
  handler = handler;
  annotations = [];
  profile = none;
  decision = none;
  policy_mode = allow;
}

abbrev renewed : DynamicEntry
renewed = record entry {
  annotations = (live_decision world 1 entry).annotations;
  decision = some (live_decision world 1 entry);
}

abbrev pub removing : Invocation Bool Bool Bool
removing =
    begun world 1 renewed (some (true, true)) true none
      (record { secure_config_value = none; additional_required = [] })

authorized : authorize_call world 0 entry (some (true, true)) true none ≡ ok removing
unfolding combine_policy_modes effective_mode alternative_mode decision_modes family_policies
    scope_families command_is_hard_denied exact_policies matches longest_match matching_family
    value_operation scope_operation scope_family is_destructive operation required_capabilities
    preflight_of family_decision is_system family_or_scope resolve_command_policy
    handler_is_discoverable request_policy reauthorize_entry confirm_authorization authorize_call
authorized = refl

taken_away :
    authorize_call world 5 entry (some (true, true)) true none ≡ err (tool_error (not_found none))
unfolding reauthorize_entry authorize_call
taken_away = refl

authorize_call-Sealed_example :
    Sealed world (after_impersonation 0 none + 1) (some (true, true)) removing
    × Asked world 0 entry (some (true, true)) true none removing
authorize_call-Sealed_example =
    authorize_call-Sealed world 0 entry (some (true, true)) true none removing authorized
