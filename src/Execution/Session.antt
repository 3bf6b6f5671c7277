-- ===== src/Execution/Session.antt =====
-- provider/execution.py and provider/audit.py: the state of one call, and its audit records. Beside
-- what an authorization asks, a call asks the client to confirm and Music Assistant to run.
use mathlib.Core.Bool.{decide}
use ma_provider_mcp.Prelude.{
  ℕ, String, Bool, true, false, not, Option, none, some, List, [], ◌∷◌, ◌++◌, all, any, filter,
  starts_with, starts_with_any, str_eq, Result, ok, if◌then◌else◌,
}
use ma_provider_mcp.Capability.{Capability, Capability-discrete, value}
use ma_provider_mcp.Policy.Mode.{PolicyMode}
use ma_provider_mcp.Execution.Invocation.{Invocation}
use ma_provider_mcp.Execution.Evidence.{Reason, capability, impersonation, unknown, invocation_mode}
use ma_provider_mcp.Execution.Denied.{invocation_audit_capability}
use ma_provider_mcp.Execution.Live.{World, Failure}
use ma_provider_mcp.Execution.Actions.{Action, pure}

-- The end of `ctx.elicit`: accepted with true data, anything else that came back, refused by the
-- transport or the protocol, or another error.
pub data Answer : Type 0 where
  accepted declined unsupported failed : Answer

pub data Outcome : Type 0 where
  authorization_denied execution_failed execution_succeeded : Outcome
  confirmation_requested confirmation_accepted confirmation_declined : Outcome
  confirmation_unsupported : Outcome

pub record AuditRecord : Type 0 where
  pub user_id : String
  pub client_id : String
  pub command : String
  pub capability : Reason
  pub mode : PolicyMode
  pub outcome : Outcome

unfoldable pub is_privileged_capability : Reason → Bool
is_privileged_capability (capability c) =
    starts_with_any (value c)
      ("edit:" ∷ "delete:" ∷ "config:" ∷ "system:" ∷ "control:" ∷ "debug:" ∷ [])
is_privileged_capability _ = false

abbrev pub same_reason : Reason → Reason → Bool
same_reason (capability c) (capability d) = decide (Capability-discrete c d)
same_reason impersonation impersonation = true
same_reason unknown unknown = true
same_reason _ _ = false

-- reason in reasons
abbrev pub is_among : List Reason → Reason → Bool
is_among reasons r = any (same_reason r) reasons

-- reasons.issubset(others)
unfoldable pub is_subset : List Reason → List Reason → Bool
is_subset reasons others = all (is_among others) reasons

-- capabilities & evidence
unfoldable pub intersection : List Capability → List Reason → List Capability
intersection capabilities evidence = filter (λ c. is_among evidence (capability c)) capabilities

-- What a call asks of the client and, to run, of Music Assistant. `filter_result` is
-- `filter_collection_result`.
pub record Client (Token User Args Value : Type 0) : Type 0 where
  pub elicit : ℕ → String → Answer
  pub run :
      ℕ
      → Invocation Token User Args
      → List Capability
      → Result (Failure (Invocation Token User Args)) Value
  pub filter_result : Option User → String → Value → Value
  pub postflight :
      ℕ → Invocation Token User Args → Value → Result (Failure (Invocation Token User Args)) Value
  pub client_id : Token → Option String

-- `accepted` holds the reasons that the accepted prompts have named, and `executed` the runs of a
-- handler with the capabilities that were handed to it as confirmed.
pub record Session (Token User Args : Type 0) : Type 0 where
  pub time : ℕ
  pub audits : List AuditRecord
  pub accepted : List Reason
  pub executed : List (Invocation Token User Args × List Capability)

abbrev pub Act : Type 0 → Type 0 → Type 0 → Type 0 → Type 0
Act Token User Args A = Action (Session Token User Args) (Failure (Invocation Token User Args)) A

-- str(value or default)
abbrev text_or : Option String → String → String
text_or none other = other
text_or (some text) other = if str_eq text "" then other else text

module _ {Token User Args Value : Type 0} (world : World Token User Args)
    (client : Client Token User Args Value) where
  open world use {user_id}
  open client use {client_id}

  abbrev audit_user : Option (Token × User) → String
  audit_user none = "ma-user:anonymous"
  audit_user (some (token, user)) = text_or (user_id user) "ma-user:anonymous"

  abbrev audit_client : Option (Token × User) → String
  audit_client none = "ma-token:none"
  audit_client (some (token, user)) = text_or (client_id token) "ma-token:none"

  -- `_emit_audit`
  abbrev pub emit_audit :
      Option (Token × User)
      → String
      → Reason
      → PolicyMode
      → Outcome
      → Act Token User Args (Unit {0})
  emit_audit auth command reason mode outcome s = (
    ok tt,
    record s {
      audits =
          s.audits
          ++ record {
            user_id = audit_user auth;
            client_id = audit_client auth;
            command = command;
            capability = reason;
            mode = mode;
            outcome = outcome;
          }
            ∷ [];
    },
  )

  -- `_audit_invocation`, with the capability given
  abbrev pub audit_invocation :
      Invocation Token User Args → Outcome → Reason → Bool → Act Token User Args (Unit {0})
  audit_invocation invocation outcome reason impersonating =
      emit_audit invocation.auth invocation.entry.command reason
        (invocation_mode invocation impersonating) outcome

  -- `_audit_execution`
  abbrev pub audit_execution :
      Invocation Token User Args → Outcome → Bool → Act Token User Args (Unit {0})
  audit_execution invocation outcome impersonating =
      if starts_with invocation.entry.command "fastmcp/"
      then pure tt
      else if not (is_privileged_capability (invocation_audit_capability invocation))
      then pure tt
      else audit_invocation invocation outcome (invocation_audit_capability invocation)
          impersonating
