-- ===== src/Execution/Calls.antt =====
-- A whole call, from its authorization to its run, in the world where all is allowed.
use ma_provider_mcp.Prelude.{
  ◌≡◌, refl, String, Bool, true, false, Option, none, some, List, [], ◌∷◌, map, Result, ok, err,
}
use mathlib.Core.Bool.{decide}
use ma_provider_mcp.Execution.Denied.{invocation_audit_capability}
use ma_provider_mcp.Capability.{Capability-discrete, value}
use ma_provider_mcp.Policy.Mode.{custom, confirm, combine_policy_modes}
use ma_provider_mcp.CommandPolicy.Decision.{alternative_mode, decision_modes, effective_mode}
use ma_provider_mcp.CommandPolicy.Families.{family_policies, scope_families}
use ma_provider_mcp.CommandPolicy.Exact.{command_is_hard_denied, exact_policies}
use ma_provider_mcp.CommandPolicy.Scope.{
  matches, longest_match, matching_family, value_operation, scope_operation, scope_family,
  is_destructive, operation,
}
use ma_provider_mcp.CommandPolicy.Resolve.{
  required_capabilities, preflight_of, family_decision, is_system, family_or_scope,
  resolve_command_policy,
}
use ma_provider_mcp.Execution.Invocation.{handler_is_discoverable, DynamicEntry, Invocation}
use ma_provider_mcp.Execution.Live.{World, request_policy, reauthorize_entry, Fails}
use ma_provider_mcp.Execution.Authorize.{
  confirm_authorization, authorize_call, final_authentication, finalize_invocation, seal,
}
use ma_provider_mcp.Execution.Evidence.{
  decision_confirmed, denied_capability, first_with, sorted, invocation_mode, decision_mode,
  confirmation_evidence, confirmed_capabilities, confirmation_capability,
}
use ma_provider_mcp.Execution.Session.{
  Client, Session, Answer, accepted, declined, is_subset, intersection, is_privileged_capability,
}
use ma_provider_mcp.Execution.Pipeline.{confirm_, authorize_call_audited, reauthorize}
use ma_provider_mcp.Execution.Run.{execute_authorized, confirm_again, call_parsed}
use ma_provider_mcp.Execution.Finalized.{Final, Refreshed, finalize_invocation-Final}
use ma_provider_mcp.Execution.Quiet.{Refuses}
use ma_provider_mcp.Execution.HardDenied.{hard_denied-Refuses}
use ma_provider_mcp.Execution.Safety.{call_parsed-Safe}
use ma_provider_mcp.Execution.Ready.{Safe}
use ma_provider_mcp.Execution.Worlds.{handler, world, entry, removing}

abbrev or_removing : Result (Fails world) (Invocation Bool Bool Bool) → Invocation Bool Bool Bool
or_removing (ok invocation) = invocation
or_removing (err e) = removing

abbrev final : Invocation Bool Bool Bool
final = or_removing (finalize_invocation world 1 removing none)

finalized : finalize_invocation world 1 removing none ≡ ok final
unfolding combine_policy_modes effective_mode alternative_mode decision_modes family_policies
    scope_families command_is_hard_denied exact_policies matches longest_match matching_family
    value_operation scope_operation scope_family is_destructive operation required_capabilities
    preflight_of family_decision is_system family_or_scope resolve_command_policy
    handler_is_discoverable request_policy reauthorize_entry confirm_authorization
    finalize_invocation seal final_authentication
finalized = refl

finalize_invocation-Final_example :
    (caller : Option (Bool × Bool)) × Final world 4 caller none final
    × Refreshed world 1 removing none caller final
finalize_invocation-Final_example = finalize_invocation-Final world 1 removing final none finalized

abbrev client : Answer → Client Bool Bool Bool Bool
client answer = record {
  elicit = λ t prompt. answer;
  run = λ t invocation confirmed. ok true;
  filter_result = λ user command value. value;
  postflight = λ t invocation value. ok value;
  client_id = λ token. some "c1";
}

abbrev start : Session Bool Bool Bool
start = record { time = 0; audits = []; accepted = []; executed = [] }

abbrev names : Session Bool Bool Bool → List (String × List String)
names s =
    map (λ (invocation, confirmed). (invocation.entry.command, map value confirmed)) s.executed

-- A world that stays, and asks for confirmation.
abbrev steady : World Bool Bool Bool
steady = record world {
  live_handler = λ t command. some handler;
  token_policy = λ t token. record { profile = custom; modes = λ c. confirm };
}

-- An entry of an unconditional deny family.
abbrev login : DynamicEntry
login = record entry { command = "auth/login" }

hard_denied-Refuses_example :
    Refuses (call_parsed steady (client accepted) login (some (true, true)) true none)
unfolding command_is_hard_denied
hard_denied-Refuses_example =
    hard_denied-Refuses steady (client accepted) login (some (true, true)) none true refl

call_parsed-Safe_example :
    Safe steady
      (client accepted)
      (call_parsed steady (client accepted) entry (some (true, true)) true none start).1
      false
call_parsed-Safe_example =
    call_parsed-Safe steady (client accepted) entry (some (true, true)) true none start refl

unfoldable called : Answer → List (String × List String)
called answer =
    names (call_parsed steady (client answer) entry (some (true, true)) true none start).1

accepted_runs : called accepted ≡ ("music/playlists/remove", "delete:playlists" ∷ []) ∷ []
unfolding combine_policy_modes effective_mode alternative_mode decision_modes family_policies
    scope_families command_is_hard_denied exact_policies matches longest_match matching_family
    value_operation scope_operation scope_family is_destructive operation required_capabilities
    preflight_of family_decision is_system family_or_scope resolve_command_policy
    handler_is_discoverable request_policy reauthorize_entry confirm_authorization authorize_call
    finalize_invocation seal final_authentication invocation_mode decision_mode
    confirmation_evidence confirmed_capabilities confirmation_capability is_subset intersection
    is_privileged_capability confirm_ authorize_call_audited reauthorize execute_authorized
    confirm_again call_parsed called decision_confirmed decide Capability-discrete
    invocation_audit_capability denied_capability first_with sorted
accepted_runs = refl

declined_does_not : called declined ≡ []
unfolding combine_policy_modes effective_mode alternative_mode decision_modes family_policies
    scope_families command_is_hard_denied exact_policies matches longest_match matching_family
    value_operation scope_operation scope_family is_destructive operation required_capabilities
    preflight_of family_decision is_system family_or_scope resolve_command_policy
    handler_is_discoverable request_policy reauthorize_entry confirm_authorization authorize_call
    finalize_invocation seal final_authentication invocation_mode decision_mode
    confirmation_evidence confirmed_capabilities confirmation_capability is_subset intersection
    is_privileged_capability confirm_ authorize_call_audited reauthorize execute_authorized
    confirm_again call_parsed called decision_confirmed
declined_does_not = refl
