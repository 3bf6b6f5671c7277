-- ===== src/Execution/Live.antt =====
-- provider/execution.py: what an authorization reads of Music Assistant and of the request, at a
-- time that counts the awaits. The answers may change at every await, and nothing is assumed of
-- them. `Fails` has what may be raised; an authorization that fails keeps the invocation it is for.
use ma_provider_mcp.Prelude.{
  ℕ, String, Bool, true, false, not, ◌&&◌, Option, none, some, [], Result, ok, err, ◌>>◌,
  if◌then◌else◌, ◌==◌,
}
use ma_provider_mcp.Capability.{Capability}
use ma_provider_mcp.Policy.Mode.{deny, same}
use ma_provider_mcp.Policy.Snapshot.{PolicySnapshot}
use ma_provider_mcp.CommandPolicy.Decision.{
  CommandDecision, CommandPreflight, CommandProfile, effective_mode,
}
use ma_provider_mcp.CommandPolicy.Scope.{Scope, unset}
use ma_provider_mcp.CommandPolicy.Resolve.{resolve_command_policy}
use ma_provider_mcp.Execution.Evidence.{Reason}
use ma_provider_mcp.Execution.Invocation.{
  Handler, handler_is_discoverable, DynamicEntry, Invocation,
}

-- provider/errors.py: `ToolFailureCode`
pub data FailureCode : Type 0 where
  authentication_required not_found_or_forbidden invalid_arguments : FailureCode
  confirmation_required operation_cancelled catalog_changed : FailureCode
  execution_timeout execution_failed response_too_large : FailureCode

-- The messages of a `ToolError`. `not_found` may name a capability that the caller lacks, and
-- `failure` is what `tool_failure` makes.
pub data Message : Type 0 where
  not_found : Option Capability → Message
  authentication_needed no_impersonation unknown_user : Message
  elicitation_unsupported : Reason → Message
  cancelled confirmation_changed command_timed_out : Message
  failure : FailureCode → Message
  other_message : Message

-- What may be raised. `invocation_error` is `_InvocationAuthorizationError`.
pub data Failure (Invoked : Type 0) : Type 0 where
  tool_error : Message → Failure Invoked
  invocation_error : Message → Invoked → Failure Invoked
  insufficient_permissions authentication_error timeout_error other_error : Failure Invoked

pub record World (Token User Args : Type 0) : Type 0 where
  pub auth_required : ℕ → Bool
  pub authentication : ℕ → Result (Failure (Invocation Token User Args)) (Option (Token × User))
  pub identity_holds : ℕ → Token → User → Bool
  pub enabled : ℕ → User → Bool
  pub user_id : User → Option String
  pub token_policy : ℕ → Token → PolicySnapshot
  pub default_policy : ℕ → PolicySnapshot
  pub live_handler : ℕ → String → Option Handler
  pub scope_allowed : ℕ → User → Scope → Bool
  pub may_impersonate : ℕ → User → Bool
  pub target_allowed : ℕ → User → String → Args → Bool
  pub resolve_user :
      ℕ
      → Option (Token × User)
      → String
      → Option Scope
      → Result (Failure (Invocation Token User Args)) User
  pub preflight :
      ℕ
      → CommandDecision
      → Args
      → Option (Token × User)
      → Result (Failure (Invocation Token User Args)) CommandPreflight
  pub revalidate :
      ℕ
      → CommandDecision
      → Args
      → CommandPreflight
      → Result (Failure (Invocation Token User Args)) CommandPreflight
  pub profile_of : String → Option CommandProfile
  pub casefold : String → String

-- `scope` of a handler for `resolve_command_policy`: None where it declares none
abbrev scope_or_unset : Option Scope → Scope
scope_or_unset none = unset
scope_or_unset (some scope) = scope

abbrev pub scope_of : Option Handler → Option Scope
scope_of none = none
scope_of (some handler) = handler.required_scope

-- handlers.get(command), where it is the handler of the entry and still discoverable
abbrev pub is_live : DynamicEntry → Option Handler → Bool
is_live entry none = false
is_live entry (some handler) =
    handler.identity == entry.handler.identity && handler_is_discoverable entry.command handler

abbrev with_decision : DynamicEntry → CommandDecision → DynamicEntry
with_decision entry d = record entry { annotations = d.annotations; decision = some d }

abbrev pub refuse {ℓ} : {I : Type 0} {A : Type ℓ} → Message → Result (Failure I) A
refuse message = err (tool_error message)

-- if condition: raise ToolError(message)
abbrev pub refuse_if : {I : Type 0} → Bool → Message → Result (Failure I) (Unit {0})
refuse_if true message = refuse message
refuse_if false message = ok tt

module _ {Token User Args : Type 0} (world : World Token User Args) where
  open world use {
    auth_required, enabled, token_policy, default_policy, live_handler, scope_allowed,
    target_allowed, profile_of, casefold,
  }

  abbrev pub Fails : Type 0
  Fails = Failure (Invocation Token User Args)

  -- `_request_policy`
  unfoldable pub request_policy : ℕ → Option (Token × User) → PolicySnapshot
  request_policy t none = default_policy t
  request_policy t (some (token, user)) = token_policy t token

  abbrev pub lacks_user : ℕ → Option (Token × User) → Bool
  lacks_user t none = auth_required t
  lacks_user t (some (token, user)) = not (enabled t user)

  abbrev pub lacks_scope : ℕ → Option (Token × User) → Option Scope → Bool
  lacks_scope t (some (token, user)) (some scope) = not (scope_allowed t user scope)
  lacks_scope t _ _ = false

  -- The decision of the live command.
  abbrev pub live_decision : ℕ → DynamicEntry → CommandDecision
  live_decision t entry =
      resolve_command_policy casefold entry.command
        (scope_or_unset (scope_of (live_handler t entry.command))) (profile_of entry.command)

  unfoldable pub reauthorize_entry :
      ℕ → DynamicEntry → Option (Token × User) → PolicySnapshot → Result Fails DynamicEntry
  reauthorize_entry t entry auth policy =
      refuse_if (not (is_live entry (live_handler t entry.command))) (not_found none)
      >> refuse_if (lacks_user t auth) authentication_needed
      >> refuse_if (lacks_scope t auth (scope_of (live_handler t entry.command))) (not_found none)
      >> refuse_if (same deny (effective_mode (live_decision t entry) policy [])) (not_found none)
      >> ok (with_decision entry (live_decision t entry))

  -- The target filters of the impersonated user, or else of the caller.
  abbrev pub targets_allowed : ℕ → Option User → Option (Token × User) → String → Args → Bool
  targets_allowed t (some user) auth command arguments = target_allowed t user command arguments
  targets_allowed t none (some (token, user)) command arguments =
      target_allowed t user command arguments
  targets_allowed t none none command arguments = true

  abbrev pub check_targets :
      ℕ → Option User → Option (Token × User) → String → Args → Result Fails (Unit {0})
  check_targets t impersonated auth command arguments =
      if targets_allowed t impersonated auth command arguments
      then ok tt
      else err insufficient_permissions

  abbrev pub is_disabled : ℕ → Option User → Bool
  is_disabled t none = false
  is_disabled t (some user) = not (enabled t user)
