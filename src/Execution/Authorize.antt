-- ===== src/Execution/Authorize.antt =====
-- provider/execution.py: `_authorize_call` and `_finalize_invocation`. Each await takes one step of
-- time; what stands behind the last one is checked at one moment.
use ma_provider_mcp.Prelude.{
  ℕ, ◌+◌, String, Bool, true, false, not, ◌&&◌, ◌||◌, Option, none, some, str_eq, Result, ok, err,
  ◌>>=◌, ◌>>◌, if◌then◌else◌,
}
use ma_provider_mcp.Policy.Mode.{deny, same}
use ma_provider_mcp.Policy.Snapshot.{PolicySnapshot}
use ma_provider_mcp.CommandPolicy.Decision.{CommandDecision, CommandPreflight, effective_mode}
use ma_provider_mcp.CommandPolicy.Scope.{Scope, unset, named}
use ma_provider_mcp.CommandPolicy.Resolve.{resolve_command_policy}
use ma_provider_mcp.Execution.Invocation.{DynamicEntry, Invocation}
use ma_provider_mcp.Execution.Evidence.{denied_capability}
use ma_provider_mcp.Execution.Live.{
  not_found, authentication_needed, no_impersonation, Failure, tool_error, invocation_error,
  insufficient_permissions, authentication_error, timeout_error, other_error, World, refuse,
  refuse_if, Fails, request_policy, live_decision, reauthorize_entry, check_targets, is_disabled,
}

-- `if impersonated:`, which an empty text fails
abbrev pub truthy : Option String → Bool
truthy none = false
truthy (some text) = not (str_eq text "")

abbrev label_scope : Option String → Scope
label_scope none = unset
label_scope (some label) = named label

abbrev text_of : Option String → String
text_of none = ""
text_of (some text) = text

-- The time behind the resolution of a user, which is an await where one is impersonated.
abbrev pub after_impersonation : ℕ → Option String → ℕ
after_impersonation t impersonated = if truthy impersonated then t + 1 else t

-- `not isinstance(a, str) or not a`
abbrev no_text : Option String → Bool
no_text none = true
no_text (some text) = str_eq text ""

abbrev same_text : Option String → Option String → Bool
same_text none none = true
same_text (some a) (some b) = str_eq a b
same_text _ _ = false

module _ {Token User Args : Type 0} where
  abbrev wrap :
      Invocation Token User Args
      → Failure (Invocation Token User Args)
      → Failure (Invocation Token User Args)
  wrap invocation (tool_error message) = invocation_error message invocation
  wrap invocation (invocation_error message other) = invocation_error message invocation
  wrap invocation insufficient_permissions = invocation_error (not_found none) invocation
  wrap invocation authentication_error = authentication_error
  wrap invocation timeout_error = timeout_error
  wrap invocation other_error = other_error

  -- except (ToolError, InsufficientPermissions): raise _InvocationAuthorizationError
  abbrev pub sealing {ℓ} :
      {A : Type ℓ}
      → Invocation Token User Args
      → Result (Failure (Invocation Token User Args)) A
      → Result (Failure (Invocation Token User Args)) A
  sealing invocation (ok a) = ok a
  sealing invocation (err e) = err (wrap invocation e)

  -- The final test of the mode, with the capabilities that the request adds.
  abbrev pub check_mode :
      CommandDecision
      → Invocation Token User Args
      → Result (Failure (Invocation Token User Args)) (Unit {0})
  check_mode d invocation =
      refuse_if
        (same deny (effective_mode d invocation.policy invocation.preflight.additional_required))
        (not_found (denied_capability d invocation.preflight invocation.policy))

module _ {Token User Args : Type 0} (world : World Token User Args) where
  open world use {
    auth_required, authentication, identity_holds, enabled, user_id, may_impersonate, resolve_user,
    preflight, revalidate, casefold,
  }

  abbrev pub check_person :
      ℕ → Invocation Token User Args → DynamicEntry → Result (Fails world) (Unit {0})
  check_person t invocation live =
      refuse_if (is_disabled world t invocation.impersonated_user) no_impersonation
      >> check_targets world t invocation.impersonated_user invocation.auth live.command
          invocation.arguments

  abbrev pub with_entry : Invocation Token User Args → DynamicEntry → Invocation Token User Args
  with_entry invocation live = record invocation { entry = live }

  -- The part of `_authorize_call` behind the preflight, in which there is no await.
  unfoldable pub confirm_authorization :
      ℕ → Invocation Token User Args → Result (Fails world) (Invocation Token User Args)
  confirm_authorization t invocation =
      sealing invocation (
        reauthorize_entry world t invocation.entry invocation.auth invocation.policy >>= λ live.
        (check_person t invocation live >> ok live))
      >>= λ live. sealing (with_entry invocation live) (
          check_mode (live_decision world t live) (with_entry invocation live)
          >> ok (with_entry invocation live))

  abbrev some_user : User → Result (Fails world) (Option User)
  some_user user = ok (some user)

  -- Where a user is impersonated, the resolution is an await.
  abbrev pub impersonate :
      ℕ → Option (Token × User) → Option String → Option Scope → Result (Fails world) (Option User)
  impersonate t auth impersonated scope =
      if truthy impersonated
      then resolve_user t auth (text_of impersonated) scope >>= some_user
      else ok none

  abbrev pub begun :
      ℕ
      → DynamicEntry
      → Option (Token × User)
      → Args
      → Option User
      → CommandPreflight
      → Invocation Token User Args
  begun t live auth arguments user flight = record {
    entry = live;
    arguments = arguments;
    auth = auth;
    impersonated_user = user;
    preflight = flight;
    policy = request_policy world t auth;
  }

  -- The decision of an entry, and where it has none the one of its catalog label.
  abbrev pub decision_or : DynamicEntry → CommandDecision
  decision_or entry = elim entry.decision [
    | none ↦
        resolve_command_policy casefold entry.command (label_scope entry.required_scope)
          entry.profile
    | some d ↦ d
  ]

  -- The preflight, which gets the decision of the entry, and what stands behind it.
  abbrev pub with_user :
      ℕ
      → DynamicEntry
      → Option (Token × User)
      → Args
      → Option User
      → Result (Fails world) (Invocation Token User Args)
  with_user t live auth arguments user =
      check_targets world t user auth live.command arguments
      >> preflight t (decision_or live) arguments auth
      >>= λ flight. confirm_authorization (t + 1) (begun (t + 1) live auth arguments user flight)

  abbrev pub with_live :
      ℕ
      → Option (Token × User)
      → Args
      → Option String
      → DynamicEntry
      → Result (Fails world) (Invocation Token User Args)
  with_live t auth arguments impersonated live =
      impersonate t auth impersonated live.handler.required_scope
      >>= with_user (after_impersonation t impersonated) live auth arguments

  unfoldable pub authorize_call :
      ℕ
      → DynamicEntry
      → Option (Token × User)
      → Args
      → Option String
      → Result (Fails world) (Invocation Token User Args)
  authorize_call t entry auth arguments impersonated =
      reauthorize_entry world t entry auth (request_policy world t auth)
      >>= with_live t auth arguments impersonated

  -- `_authentication_is_still_exact`
  abbrev pub still_exact : ℕ → Option (Token × User) → Bool
  still_exact t none = not (auth_required t)
  still_exact t (some (token, user)) = enabled t user && identity_holds t token user

  abbrev id_of : Option User → Option String
  id_of none = none
  id_of (some user) = user_id user

  abbrev may_change : ℕ → Option (Token × User) → Bool
  may_change t none = false
  may_change t (some (token, user)) = may_impersonate t user

  abbrev user_of : Option (Token × User) → Option User
  user_of none = none
  user_of (some (token, user)) = some user

  -- The test of an impersonation: the same target as before, and allowed to this caller.
  abbrev pub wrong_target : ℕ → Option (Token × User) → Option User → Option User → Bool
  wrong_target t auth previous none = false
  wrong_target t auth previous (some target) =
      no_text (id_of (user_of auth))
      || no_text (user_id target)
      || not (same_text (user_id target) (id_of previous))
      || (not (same_text (id_of (user_of auth)) (user_id target)) && not (may_change t auth))

  abbrev pub check_final :
      ℕ
      → Option (Token × User)
      → Option User
      → Invocation Token User Args
      → DynamicEntry
      → Result (Fails world) (Unit {0})
  check_final t auth previous final live =
      refuse_if (wrong_target t auth previous final.impersonated_user) no_impersonation
      >> refuse_if (is_disabled world t final.impersonated_user) no_impersonation
      >> check_targets world t final.impersonated_user auth final.entry.command final.arguments
      >> check_mode (live_decision world t live) (with_entry final live)

  -- The part of `_finalize_invocation` that is one `try`.
  unfoldable pub seal :
      ℕ
      → Option (Token × User)
      → Option User
      → Invocation Token User Args
      → Result (Fails world) (Invocation Token User Args)
  seal t auth previous final =
      sealing final (
        refuse_if (not (still_exact t auth)) authentication_needed
        >> reauthorize_entry world t final.entry auth final.policy)
      >>= λ live.
          sealing (with_entry final live)
            (check_final t auth previous final live >> ok (with_entry final live))

  abbrev pub with_target :
      Option (Token × User) → User → Result (Fails world) (Option (Token × User) × Option User)
  with_target auth target = ok (auth, some target)

  abbrev pub target_of :
      ℕ
      → Option String
      → Option Scope
      → Option (Token × User)
      → Result (Fails world) (Option (Token × User) × Option User)
  target_of t impersonated scope none = ok (none, none)
  target_of t impersonated scope (some caller) =
      if truthy impersonated
      then resolve_user t (some caller) (text_of impersonated) scope >>= with_target (some caller)
      else ok (some caller, none)

  unfoldable pub final_authentication :
      ℕ → Option String → Option Scope → Result (Fails world) (Option (Token × User) × Option User)
  final_authentication t impersonated scope =
      (if auth_required t then authentication t else ok none)
      >>= target_of (t + 1) impersonated scope

  abbrev pub or_auth : Option (Token × User) → Option (Token × User) → Option (Token × User)
  or_auth none other = other
  or_auth (some caller) other = some caller

  abbrev pub finished :
      Invocation Token User Args
      → Option (Token × User)
      → Option User
      → CommandPreflight
      → PolicySnapshot
      → Invocation Token User Args
  finished invocation auth user flight policy = record invocation {
    auth = or_auth auth invocation.auth;
    impersonated_user = user;
    preflight = flight;
    policy = policy;
  }

  abbrev pub is_absent : Option (Token × User) → Bool
  is_absent none = true
  is_absent (some caller) = false

  -- The synchronous part of `_finalize_invocation`, at the moment after its last await, with the
  -- preflight made sure of.
  abbrev pub finish_sure :
      ℕ
      → Option (Token × User)
      → Option User
      → Invocation Token User Args
      → CommandPreflight
      → Result (Fails world) (Invocation Token User Args)
  finish_sure t auth user invocation sure =
      let final =
        finished invocation auth user sure
          (request_policy world t (or_auth auth invocation.auth)) in
      if is_absent auth && auth_required t
      then err (invocation_error authentication_needed final)
      else seal t auth invocation.impersonated_user final

  abbrev pub finish :
      ℕ
      → CommandDecision
      → CommandPreflight
      → Invocation Token User Args
      → Option (Token × User) × Option User
      → Result (Fails world) (Invocation Token User Args)
  finish t d flight invocation (auth, user) =
      revalidate t d invocation.arguments flight >>= finish_sure t auth user invocation

  -- Behind the preflight: two awaits at most, and then `finish`.
  abbrev pub finalize_flight :
      ℕ
      → CommandDecision
      → Invocation Token User Args
      → Option String
      → CommandPreflight
      → Result (Fails world) (Invocation Token User Args)
  finalize_flight t d invocation impersonated flight =
      final_authentication (t + 1) impersonated invocation.entry.handler.required_scope
      >>= finish (t + 3) d flight invocation

  abbrev pub finalize_decided :
      ℕ
      → Invocation Token User Args
      → Option String
      → Option CommandDecision
      → Result (Fails world) (Invocation Token User Args)
  finalize_decided t invocation impersonated none = refuse (not_found none)
  finalize_decided t invocation impersonated (some d) =
      preflight t d invocation.arguments invocation.auth
      >>= finalize_flight t d invocation impersonated

  unfoldable pub finalize_invocation :
      ℕ
      → Invocation Token User Args
      → Option String
      → Result (Fails world) (Invocation Token User Args)
  finalize_invocation t invocation impersonated =
      finalize_decided t invocation impersonated invocation.entry.decision
