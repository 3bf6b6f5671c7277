-- ===== src/Execution/Stages.antt =====
-- provider/execution.py: the stages of a call that run nothing, and what a prompt adds.
use ma_provider_mcp.Prelude.{
  refl, String, Bool, true, false, Option, none, ok, starts_with, if◌then◌else◌,
}
use ma_provider_mcp.Execution.Invocation.{DynamicEntry, Invocation}
use ma_provider_mcp.Execution.Evidence.{Reason}
use ma_provider_mcp.Execution.Live.{
  World, not_found, authentication_needed, elicitation_unsupported, cancelled, failure, tool_error,
  invocation_error, insufficient_permissions, authentication_error, timeout_error, other_error,
  Fails,
}
use ma_provider_mcp.Execution.Authorize.{authorize_call}
use ma_provider_mcp.Execution.Actions.{pure, raise, ◌>>◌, Ends, returns, raises}
use ma_provider_mcp.Execution.Session.{
  Outcome, execution_failed as run_failed, authorization_denied, Client, Session, Act,
  audit_execution,
}
use ma_provider_mcp.Execution.Pipeline.{
  await_, after_denial, authorize_call_audited, authenticate, reauthorize, after_refusal,
}
use ma_provider_mcp.Execution.Run.{after_sealing, audit_refusal, after_run}
use ma_provider_mcp.Execution.Quiet.{
  Same, Same-refl, Quiet, Quiet-pure, Quiet-raise, Quiet-await, Quiet-catch, Quiet-bind,
  Quiet-emit_audit, Quiet-audited_raise, Refuses, Refuses-raise, Refuses-behind,
}

module _ {Token User Args Value : Type 0} (world : World Token User Args)
    (client : Client Token User Args Value) where
  pub Quiet-if :
      {A : Type 0} (b : Bool) (m k : Act Token User Args A)
      → Quiet m
      → Quiet k
      → Quiet (if b then m else k)
  Quiet-if true m k qm qk = qm
  Quiet-if false m k qm qk = qk

  Quiet-after_denial :
      (entry : DynamicEntry) (auth : Option (Token × User)) (impersonated : Option String)
      (e : Fails world)
      → Quiet (after_denial world client entry auth impersonated e)
  Quiet-after_denial entry auth impersonated (tool_error message) = record {
    at = λ s. raises _ _ (record { executed = refl; accepted = refl });
  }
  Quiet-after_denial entry auth impersonated (invocation_error message invocation) = record {
    at = λ s. raises _ _ (record { executed = refl; accepted = refl });
  }
  Quiet-after_denial entry auth impersonated insufficient_permissions = record {
    at = λ s. raises _ _ (record { executed = refl; accepted = refl });
  }
  Quiet-after_denial entry auth impersonated authentication_error = Quiet-raise authentication_error
  Quiet-after_denial entry auth impersonated timeout_error = Quiet-raise timeout_error
  Quiet-after_denial entry auth impersonated other_error = Quiet-raise other_error

  pub Quiet-authorize_call_audited :
      (entry : DynamicEntry) (auth : Option (Token × User)) (arguments : Args)
      (impersonated : Option String)
      → Quiet (authorize_call_audited world client entry auth arguments impersonated)
  unfolding authorize_call_audited
  Quiet-authorize_call_audited entry auth arguments impersonated =
      Quiet-catch (await_ 3 (λ t. authorize_call world t entry auth arguments impersonated))
        (after_denial world client entry auth impersonated)
        (Quiet-await 3 (λ t. authorize_call world t entry auth arguments impersonated))
        (Quiet-after_denial entry auth impersonated)

  Quiet-authenticate : Quiet (authenticate world client)
  Quiet-authenticate = record { at = λ s. by_test (world.auth_required s.time) s }
    where
      by_test :
          (b : Bool) (s : Session Token User Args)
          → Ends
              (λ a t. Same s t)
              (λ t. Same s t)
              (if b then await_ 1 world.authentication s else (ok none, s))
      by_test true s = (Quiet-await 1 world.authentication).at s
      by_test false s = returns none s (Same-refl s)

  module _ (invocation : Invocation Token User Args) (arguments : Args)
      (impersonated : Option String) where
    pub Quiet-reauthorize : Quiet (reauthorize world client invocation arguments impersonated)
    unfolding reauthorize
    Quiet-reauthorize = record {
      at = λ s.
          (Quiet-bind (authenticate world client) _ Quiet-authenticate (λ auth.
              Quiet-if _ _ _
                (Quiet-audited_raise world client invocation.auth invocation.entry.command _ _
                  authorization_denied (tool_error authentication_needed))
                (Quiet-authorize_call_audited invocation.entry auth arguments impersonated))).at
            s;
    }

  -- A reported end of a prompt.
  pub Refuses-after_refusal :
      (invocation : Invocation Token User Args) (reason : Reason) (impersonating : Bool)
      (e : Fails world)
      → Refuses (after_refusal world client invocation reason impersonating e)
  Refuses-after_refusal invocation reason impersonating (tool_error cancelled) = record {
    at = λ s. raises _ _ (record { executed = refl; accepted = refl });
  }
  Refuses-after_refusal invocation reason impersonating (tool_error (not_found c)) = record {
    at = λ s. raises _ _ (record { executed = refl; accepted = refl });
  }
  Refuses-after_refusal invocation reason impersonating (tool_error (elicitation_unsupported c)) =
      record { at = λ s. raises _ _ (record { executed = refl; accepted = refl }) }
  Refuses-after_refusal invocation reason impersonating (tool_error (failure c)) = record {
    at = λ s. raises _ _ (record { executed = refl; accepted = refl });
  }
  Refuses-after_refusal invocation reason impersonating (tool_error _) = record {
    at = λ s. raises _ _ (record { executed = refl; accepted = refl });
  }
  Refuses-after_refusal invocation reason impersonating (invocation_error message denied) =
      Refuses-raise _
  Refuses-after_refusal invocation reason impersonating insufficient_permissions = Refuses-raise _
  Refuses-after_refusal invocation reason impersonating authentication_error = Refuses-raise _
  Refuses-after_refusal invocation reason impersonating timeout_error = Refuses-raise _
  Refuses-after_refusal invocation reason impersonating other_error = Refuses-raise _

  pub Refuses-after_sealing :
      (invocation : Invocation Token User Args) (impersonating : Bool) (e : Fails world)
      → Refuses (after_sealing world client invocation impersonating e)
  Refuses-after_sealing invocation impersonating (tool_error message) = record {
    at = λ s. raises _ _ (record { executed = refl; accepted = refl });
  }
  Refuses-after_sealing invocation impersonating (invocation_error message denied) = record {
    at = λ s. raises _ _ (record { executed = refl; accepted = refl });
  }
  Refuses-after_sealing invocation impersonating insufficient_permissions = Refuses-raise _
  Refuses-after_sealing invocation impersonating authentication_error = Refuses-raise _
  Refuses-after_sealing invocation impersonating timeout_error = Refuses-raise _
  Refuses-after_sealing invocation impersonating other_error = Refuses-raise _

  pub Quiet-audit_execution :
      (invocation : Invocation Token User Args) (outcome : Outcome) (impersonating : Bool)
      → Quiet (audit_execution world client invocation outcome impersonating)
  Quiet-audit_execution invocation outcome impersonating =
      Quiet-if _ _ _ (Quiet-pure tt)
        (Quiet-if _ _ _ (Quiet-pure tt) (Quiet-emit_audit world client _ _ _ _ _))

  Refuses-failed_run :
      (invocation : Invocation Token User Args) (impersonating : Bool) (e : Fails world)
      → Refuses
          (audit_execution world client invocation run_failed impersonating >> raise {A = Value} e)
  Refuses-failed_run invocation impersonating e =
      Refuses-behind (audit_execution world client invocation run_failed impersonating) e
        (Quiet-audit_execution invocation run_failed impersonating)

  Refuses-refused_run :
      (invocation : Invocation Token User Args) (impersonating : Bool) (e : Fails world)
      → Refuses (audit_refusal world client invocation impersonating >> raise {A = Value} e)
  Refuses-refused_run invocation impersonating e =
      Refuses-behind (audit_refusal world client invocation impersonating) e (
        Quiet-if (starts_with invocation.entry.command "fastmcp/") (pure tt)
          (audit_execution world client invocation authorization_denied impersonating)
          (Quiet-pure tt) (Quiet-audit_execution invocation authorization_denied impersonating))

  pub Refuses-after_run :
      (invocation : Invocation Token User Args) (impersonating : Bool) (e : Fails world)
      → Refuses (after_run world client invocation impersonating e)
  Refuses-after_run invocation impersonating (tool_error message) =
      Refuses-failed_run invocation impersonating _
  Refuses-after_run invocation impersonating (invocation_error message denied) =
      Refuses-failed_run invocation impersonating _
  Refuses-after_run invocation impersonating insufficient_permissions =
      Refuses-refused_run invocation impersonating _
  Refuses-after_run invocation impersonating authentication_error =
      Refuses-refused_run invocation impersonating _
  Refuses-after_run invocation impersonating timeout_error =
      Refuses-failed_run invocation impersonating _
  Refuses-after_run invocation impersonating other_error =
      Refuses-failed_run invocation impersonating _
