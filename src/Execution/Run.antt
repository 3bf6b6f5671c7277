-- ===== src/Execution/Run.antt =====
-- provider/execution.py: `_execute_authorized`, and the part of `_call` between the parsing of the
-- arguments and the envelope.
use ma_provider_mcp.Prelude.{
  ℕ, ◌+◌, String, Bool, not, Option, none, some, List, [], ◌∷◌, ◌++◌, starts_with, Result, err,
  if◌then◌else◌,
}
use ma_provider_mcp.Capability.{Capability}
use ma_provider_mcp.Execution.Invocation.{DynamicEntry, Invocation}
use ma_provider_mcp.Execution.Evidence.{Reason, confirmed_capabilities, confirmation_evidence}
use ma_provider_mcp.Execution.Denied.{invocation_audit_capability}
use ma_provider_mcp.Execution.Live.{
  not_found, confirmation_changed, command_timed_out, failure, authentication_required,
  not_found_or_forbidden, execution_failed, tool_error, invocation_error, insufficient_permissions,
  authentication_error, timeout_error, other_error, World, Fails,
}
use ma_provider_mcp.Execution.Authorize.{truthy, finalize_invocation}
use ma_provider_mcp.Execution.Actions.{pure, raise, ◌>>=◌, ◌>>◌, catch}
use ma_provider_mcp.Execution.Session.{
  authorization_denied, execution_failed as run_failed, execution_succeeded, is_subset,
  intersection, Client, Act, audit_invocation, audit_execution,
}
use ma_provider_mcp.Execution.Pipeline.{await_, confirm_, authorize_call_audited, reauthorize}

module _ {Token User Args Value : Type 0} (world : World Token User Args)
    (client : Client Token User Args Value) where
  open client use {run, filter_result, postflight}

  -- What the handlers of `_execute_authorized` raise for what they catch.
  abbrev pub surfaced : Fails world → Fails world
  surfaced timeout_error = tool_error command_timed_out
  surfaced (tool_error message) = tool_error message
  surfaced (invocation_error message invocation) = invocation_error message invocation
  surfaced authentication_error = tool_error (failure authentication_required)
  surfaced insufficient_permissions = tool_error (failure not_found_or_forbidden)
  surfaced other_error = tool_error (failure execution_failed)

  abbrev audit_sealing : Invocation Token User Args → Bool → Act Token User Args (Unit {0})
  audit_sealing invocation impersonating =
      audit_invocation world client invocation authorization_denied
        (invocation_audit_capability invocation) impersonating

  -- A failed finalization, which nothing has run before.
  abbrev pub after_sealing :
      Invocation Token User Args
      → Bool
      → Fails world
      → Act Token User Args (Invocation Token User Args)
  after_sealing invocation impersonating (invocation_error message denied) =
      audit_sealing denied impersonating >> raise (invocation_error message denied)
  after_sealing invocation impersonating (tool_error message) =
      audit_sealing invocation impersonating >> raise (tool_error message)
  after_sealing invocation impersonating e = raise (surfaced e)

  abbrev pub audit_refusal : Invocation Token User Args → Bool → Act Token User Args (Unit {0})
  audit_refusal invocation impersonating =
      if starts_with invocation.entry.command "fastmcp/"
      then pure tt
      else audit_execution world client invocation authorization_denied impersonating

  -- A run that raised.
  abbrev pub after_run : Invocation Token User Args → Bool → Fails world → Act Token User Args Value
  after_run invocation impersonating authentication_error =
      audit_refusal invocation impersonating >> raise (surfaced authentication_error)
  after_run invocation impersonating insufficient_permissions =
      audit_refusal invocation impersonating >> raise (surfaced insufficient_permissions)
  after_run invocation impersonating e =
      audit_execution world client invocation run_failed impersonating >> raise (surfaced e)

  -- the impersonated user, or else the caller
  abbrev subject : Option User → Option (Token × User) → Option User
  subject (some user) auth = some user
  subject none none = none
  subject none (some (token, user)) = some user

  -- `_postflight`
  abbrev checked_result : ℕ → Invocation Token User Args → Value → Result (Fails world) Value
  checked_result t invocation value = elim invocation.entry.decision [
    | none ↦ err (tool_error (not_found none))
    | some d ↦ postflight t invocation value
  ]

  -- `_execute`, which is the only run of a handler
  abbrev pub execute : Invocation Token User Args → List Capability → Act Token User Args Value
  execute invocation confirmed s = (
    run s.time invocation confirmed,
    record s { time = s.time + 1; executed = s.executed ++ (invocation, confirmed) ∷ [] },
  )

  -- The answer of a handler, filtered for the subject.
  abbrev pub checking : Invocation Token User Args → Value → Act Token User Args Value
  checking invocation value = await_ 1 (λ t. checked_result t invocation (
      filter_result (subject invocation.impersonated_user invocation.auth) invocation.entry.command
        value))

  abbrev pub run_once : Invocation Token User Args → List Capability → Act Token User Args Value
  run_once invocation confirmed = execute invocation confirmed >>= checking invocation

  abbrev pub seal_call :
      Invocation Token User Args → Option String → Act Token User Args (Invocation Token User Args)
  seal_call invocation impersonated =
      catch (await_ 4 (λ t. finalize_invocation world t invocation impersonated))
        (after_sealing invocation (truthy impersonated))

  -- What stands behind a run.
  abbrev pub reported :
      Invocation Token User Args
      → Bool
      → Value
      → Act Token User Args (Invocation Token User Args × Value)
  reported final impersonating value =
      audit_execution world client final execution_succeeded impersonating
      >> pure {A = Invocation Token User Args × Value} (final, value)

  -- What stands behind the finalization.
  abbrev pub run_sealed :
      List Reason
      → Bool
      → Invocation Token User Args
      → Act Token User Args (Invocation Token User Args × Value)
  run_sealed evidence impersonating final =
      if not (is_subset (confirmation_evidence final impersonating) evidence)
      then audit_sealing final impersonating >> raise (tool_error confirmation_changed)
      else catch (run_once final (intersection (confirmed_capabilities final) evidence))
          (after_run final impersonating)
        >>= reported final impersonating

  unfoldable pub execute_authorized :
      Invocation Token User Args
      → List Reason
      → Option String
      → Act Token User Args (Invocation Token User Args × Value)
  execute_authorized invocation evidence impersonated =
      seal_call invocation impersonated >>= run_sealed evidence (truthy impersonated)

  -- Another authorization, behind the second prompt.
  abbrev pub reauthorized :
      Invocation Token User Args
      → List Reason
      → Args
      → Option String
      → List Reason
      → Act Token User Args (Invocation Token User Args × List Reason)
  reauthorized invocation evidence arguments impersonated more =
      reauthorize world client invocation arguments impersonated >>= λ again.
      pure (again, evidence ++ more)

  -- A second prompt, where the invocation needs more than the first one named.
  unfoldable pub confirm_again :
      Invocation Token User Args
      → List Reason
      → Args
      → Option String
      → Act Token User Args (Invocation Token User Args × List Reason)
  confirm_again invocation evidence arguments impersonated =
      if is_subset (confirmation_evidence invocation (truthy impersonated)) evidence
      then pure (invocation, evidence)
      else confirm_ world client invocation (truthy impersonated)
        >>= reauthorized invocation evidence arguments impersonated

  -- What is confirmed, and behind it the run.
  abbrev pub run_confirmed :
      Invocation Token User Args
      → List Reason
      → Args
      → Option String
      → Act Token User Args (Invocation Token User Args × Value)
  run_confirmed invocation evidence arguments impersonated =
      confirm_again invocation evidence arguments impersonated >>= λ ready.
      execute_authorized ready.0 ready.1 impersonated

  -- The first prompt, and behind it another authorization.
  abbrev pub confirm_and_run :
      Args
      → Option String
      → Invocation Token User Args
      → Act Token User Args (Invocation Token User Args × Value)
  confirm_and_run arguments impersonated initial =
      confirm_ world client initial (truthy impersonated) >>= λ evidence.
      reauthorize world client initial arguments impersonated >>= λ invocation.
      run_confirmed invocation evidence arguments impersonated

  -- `_call`, from `initial_invocation` on
  unfoldable pub call_parsed :
      DynamicEntry
      → Option (Token × User)
      → Args
      → Option String
      → Act Token User Args (Invocation Token User Args × Value)
  call_parsed entry auth arguments impersonated =
      authorize_call_audited world client entry auth arguments impersonated
      >>= confirm_and_run arguments impersonated
