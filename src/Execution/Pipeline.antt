-- ===== src/Execution/Pipeline.antt =====
-- provider/execution.py: `_confirm`, `_authorize_call_audited`, `_reauthorize`,
-- `_execute_authorized`, and the part of `_call` from the first authorization to the result.
use Prim.Native.String.{compare}
use Prim.Native.Nat.{Ordering}
use ma_provider_mcp.Prelude.{
  ℕ, ◌+◌, String, Bool, true, false, ◌&&◌, Option, none, some, List, [], ◌∷◌, ◌++◌, is_empty,
  str_append, Result, ok, err, if◌then◌else◌,
}
use ma_provider_mcp.Capability.{value}
use ma_provider_mcp.CommandPolicy.Decision.{effective_mode}
use ma_provider_mcp.Execution.Invocation.{DynamicEntry, Invocation}
use ma_provider_mcp.Execution.Evidence.{
  Reason, capability, impersonation, unknown, confirmation_capability, confirmation_evidence,
}
use ma_provider_mcp.Execution.Denied.{decision_audit_capability, invocation_audit_capability}
use ma_provider_mcp.Execution.Live.{
  authentication_needed, elicitation_unsupported, cancelled, Failure, tool_error, invocation_error,
  insufficient_permissions, other_error, World, Fails, request_policy,
}
use ma_provider_mcp.Execution.Authorize.{truthy, decision_or, authorize_call}
use ma_provider_mcp.Execution.Actions.{pure, raise, ◌>>=◌, ◌>>◌, catch}
use ma_provider_mcp.Execution.Session.{
  Answer, accepted, declined, unsupported, failed, authorization_denied, confirmation_requested,
  confirmation_accepted, confirmation_declined, confirmation_unsupported, Client, Act, emit_audit,
  audit_invocation,
}

-- sorted(texts)
abbrev insert_text : String → List String → List String
insert_text s [] = s ∷ []
insert_text s (t ∷ ts) =
    let rest = insert_text s ts in elim (compare s t) [ Ordering.gt ↦ t ∷ rest | _ ↦ s ∷ t ∷ ts ]

abbrev join : String → List String → String
join separator [] = ""
join separator (t ∷ []) = t
join separator (t ∷ u ∷ ts) = str_append t (str_append separator (join separator (u ∷ ts)))

-- the texts of the reasons but the impersonation, sorted
abbrev named_texts : List Reason → List String
named_texts [] = []
named_texts (capability c ∷ rs) = insert_text (value c) (named_texts rs)
named_texts (unknown ∷ rs) = insert_text "unknown" (named_texts rs)
named_texts (impersonation ∷ rs) = named_texts rs

abbrev names_impersonation : List Reason → Bool
names_impersonation [] = false
names_impersonation (impersonation ∷ rs) = true
names_impersonation (r ∷ rs) = names_impersonation rs

abbrev capability_part : List String → List String
capability_part [] = []
capability_part (t ∷ []) = str_append "capability " t ∷ []
capability_part (t ∷ u ∷ ts) = str_append "capabilities " (join ", " (t ∷ u ∷ ts)) ∷ []

-- `_confirmation_prompt`
unfoldable pub confirmation_prompt : String → List Reason → String
confirmation_prompt name evidence =
    let parts =
      capability_part (named_texts evidence)
      ++ (if names_impersonation evidence then "impersonation of another user" ∷ [] else []) in
    str_append "Run " (str_append name (str_append " using " (str_append (join " and " parts) "?")))

abbrev is_given : Option String → Bool
is_given none = false
is_given (some text) = true

module _ {Token User Args : Type 0} {A : Type 0} where
  -- await: the answer of this moment, and time passes
  abbrev pub await_ :
      ℕ → (ℕ → Result (Failure (Invocation Token User Args)) A) → Act Token User Args A
  await_ n answer s = (answer s.time, record s { time = s.time + n })

module _ {Token User Args Value : Type 0} (world : World Token User Args)
    (client : Client Token User Args Value) where
  open world use {auth_required, authentication}
  open client use {elicit, run, filter_result, postflight}

  abbrev pub answered : Answer → List Reason → Reason → Act Token User Args (Unit {0})
  answered accepted evidence reason s = (ok tt, record s { accepted = s.accepted ++ evidence })
  answered declined evidence reason s = (err (tool_error cancelled), s)
  answered unsupported evidence reason s = (err (tool_error (elicitation_unsupported reason)), s)
  answered failed evidence reason s = (err other_error, s)

  -- `_confirm_capability`. What an accepted prompt has named is kept.
  abbrev pub confirm_capability : String → List Reason → Reason → Act Token User Args (Unit {0})
  confirm_capability name evidence reason s =
      answered (elicit s.time (confirmation_prompt name evidence)) evidence reason
        (record s { time = s.time + 1 })

  abbrev pub after_refusal :
      Invocation Token User Args → Reason → Bool → Fails world → Act Token User Args (Unit {0})
  after_refusal invocation reason impersonating (tool_error cancelled) =
      audit_invocation world client invocation confirmation_declined reason impersonating
      >> raise (tool_error cancelled)
  after_refusal invocation reason impersonating (tool_error message) =
      audit_invocation world client invocation confirmation_unsupported reason impersonating
      >> raise (tool_error message)
  after_refusal invocation reason impersonating e = raise e

  -- `_confirm`
  unfoldable pub confirm_ : Invocation Token User Args → Bool → Act Token User Args (List Reason)
  confirm_ invocation impersonating =
      let evidence = confirmation_evidence invocation impersonating in
      let reason = confirmation_capability invocation in
      if is_empty evidence
      then pure []
      else audit_invocation world client invocation confirmation_requested reason impersonating
        >> catch (confirm_capability invocation.entry.name evidence reason)
            (after_refusal invocation reason impersonating)
        >> audit_invocation world client invocation confirmation_accepted reason impersonating
        >> pure evidence

  -- One record for a denied authorization that has no invocation.
  abbrev audit_denied : DynamicEntry → Option (Token × User) → Act Token User Args (Unit {0})
  audit_denied entry auth s =
      let policy = request_policy world s.time auth in
      let d = decision_or world entry in
      emit_audit world client auth entry.command (decision_audit_capability d policy)
        (effective_mode d policy []) authorization_denied s

  abbrev pub after_denial :
      DynamicEntry
      → Option (Token × User)
      → Option String
      → Fails world
      → Act Token User Args (Invocation Token User Args)
  after_denial entry auth impersonated (invocation_error message invocation) =
      audit_invocation world client invocation authorization_denied
        (invocation_audit_capability invocation) (is_given impersonated)
      >> raise (invocation_error message invocation)
  after_denial entry auth impersonated (tool_error message) =
      audit_denied entry auth >> raise (tool_error message)
  after_denial entry auth impersonated insufficient_permissions =
      audit_denied entry auth >> raise insufficient_permissions
  after_denial entry auth impersonated e = raise e

  unfoldable pub authorize_call_audited :
      DynamicEntry
      → Option (Token × User)
      → Args
      → Option String
      → Act Token User Args (Invocation Token User Args)
  authorize_call_audited entry auth arguments impersonated =
      catch (await_ 3 (λ t. authorize_call world t entry auth arguments impersonated))
        (after_denial entry auth impersonated)

  abbrev pub authenticate : Act Token User Args (Option (Token × User))
  authenticate s = if auth_required s.time then await_ 1 authentication s else (ok none, s)

  abbrev pub is_missing : Option (Token × User) → Bool
  is_missing none = true
  is_missing (some caller) = false

  -- `_reauthorize`
  unfoldable pub reauthorize :
      Invocation Token User Args
      → Args
      → Option String
      → Act Token User Args (Invocation Token User Args)
  reauthorize invocation arguments impersonated s =
      let require_auth = auth_required s.time in
      (authenticate >>= λ auth.
      if is_missing auth && require_auth
      then audit_invocation world client invocation authorization_denied
          (invocation_audit_capability invocation) (truthy impersonated)
        >> raise (tool_error authentication_needed)
      else authorize_call_audited invocation.entry auth arguments impersonated)
        s
