-- ===== src/Execution/Ready.antt =====
-- provider/execution.py: what was confirmed and what has run, from stage to stage of a call.
use ma_provider_mcp.Prelude.{
  ℕ, ◌+◌, ◌≡◌, sym, subst, ◌∙◌, inl, inr, Bool, true, false, Option, List, [], ◌∷◌, ◌++◌, Member,
  Member-append, Member-append_left, Member-append_right, is_empty, Result, if◌then◌else◌,
}
use ma_provider_mcp.Capability.{Capability}
use ma_provider_mcp.Execution.Invocation.{Invocation}
use ma_provider_mcp.Execution.Evidence.{
  Reason, capability, confirmation_capability, confirmation_evidence,
}
use ma_provider_mcp.Execution.Live.{World, Fails}
use ma_provider_mcp.Execution.Finalized.{Final}
use ma_provider_mcp.Execution.Actions.{
  pure, ◌>>◌, catch, Ends, returns, raises, Ends-and_then, Ends-or_handle,
}
use ma_provider_mcp.Execution.Session.{
  confirmation_requested, confirmation_accepted, audit_invocation, Answer, accepted, declined,
  unsupported, failed, Client, Session, Act,
}
use ma_provider_mcp.Execution.Pipeline.{
  answered, confirmation_prompt, confirm_capability, confirm_, after_refusal,
}
use ma_provider_mcp.Execution.Quiet.{Quiet-emit_audit, Same, Quiet, Refuses}
use ma_provider_mcp.Execution.Stages.{Refuses-after_refusal}
use ma_provider_mcp.Execution.Among.{empty_list}

module _ {Token User Args Value : Type 0} (world : World Token User Args)
    (client : Client Token User Args Value) where
  -- Every one of the reasons was named by a prompt that the client accepted.
  pub record Accepts (s : Session Token User Args) (rs : List Reason) : Type 0 where
    pub each : (r : Reason) → Member r rs → Member r s.accepted

  -- A run that was allowed: of an invocation that was final, all of whose evidence was accepted, and
  -- with no capability handed over as confirmed that was not.
  pub record Allowed (s : Session Token User Args) (impersonating : Bool)
      (invocation : Invocation Token User Args) (confirmed : List Capability) : Type 0 where
    pub time : ℕ
    pub caller : Option (Token × User)
    pub previous : Option User
    pub final : Final world time caller previous invocation
    pub evidence : Accepts s (confirmation_evidence invocation impersonating)
    pub handed : (c : Capability) → Member c confirmed → Member (capability c) s.accepted

  -- At most one run, and that one allowed.
  pub data Safe (s : Session Token User Args) (impersonating : Bool) : Type 0 where
    idle : s.executed ≡ [] → Safe s impersonating
    ran :
        (invocation : Invocation Token User Args) (confirmed : List Capability)
        → s.executed ≡ (invocation, confirmed) ∷ []
        → Allowed s impersonating invocation confirmed
        → Safe s impersonating

  -- Nothing has run, and these reasons are accepted.
  pub record Ready (rs : List Reason) (s : Session Token User Args) : Type 0 where
    pub none_ran : s.executed ≡ []
    pub accepts : Accepts s rs

  Accepts-Same :
      (s t : Session Token User Args) (rs : List Reason) → Same s t → Accepts s rs → Accepts t rs
  Accepts-Same s t rs q a = record {
    each = λ r m. subst (λ l. Member r l) (sym q.accepted) (a.each r m);
  }

  pub Ready-Same :
      (s t : Session Token User Args) (rs : List Reason) → Same s t → Ready rs s → Ready rs t
  Ready-Same s t rs q a = record {
    none_ran = q.executed ∙ a.none_ran;
    accepts = Accepts-Same s t rs q a.accepts;
  }

  pub Safe-Same : (s t : Session Token User Args) (i : Bool) → Same s t → Safe s i → Safe t i
  Safe-Same s t i q (idle e) = idle (q.executed ∙ e)
  Safe-Same s t i q (ran invocation confirmed e a) =
      ran invocation confirmed (q.executed ∙ e) (record {
        time = a.time;
        caller = a.caller;
        previous = a.previous;
        final = a.final;
        evidence = Accepts-Same s t _ q a.evidence;
        handed = λ c m. subst (λ l. Member (capability c) l) (sym q.accepted) (a.handed c m);
      })

  -- A quiet action in a chain.
  pub keeps_Ready :
      {A : Type 0} (m : Act Token User Args A) (i : Bool) (rs : List Reason)
      (s : Session Token User Args)
      → Quiet m
      → Ready rs s
      → Ends (λ a t. Ready rs t) (λ t. Safe t i) (m s)
  keeps_Ready {A} m i rs s q ready = from (m s) (q.at s)
    where
      from :
          (p : Result (Fails world) A × Session Token User Args)
          → Ends (λ a t. Same s t) (λ t. Same s t) p
          → Ends (λ a t. Ready rs t) (λ t. Safe t i) p
      from _ (returns a t e) = returns a t (Ready-Same s t rs e ready)
      from _ (raises e t same) = raises e t (idle (same.executed ∙ ready.none_ran))

  -- A refusal leaves nothing run.
  pub refused-Safe :
      {A : Type 0} {Q : A → Session Token User Args → Type 0} (m : Act Token User Args A) (i : Bool)
      (rs : List Reason) (s : Session Token User Args)
      → Refuses m
      → Ready rs s
      → Ends Q (λ t. Safe t i) (m s)
  refused-Safe {A} {Q} m i rs s q ready = from (m s) (q.at s)
    where
      from :
          (p : Result (Fails world) A × Session Token User Args)
          → Ends (λ a t. ⊥) (λ t. Same s t) p
          → Ends Q (λ t. Safe t i) p
      from _ (returns a t e) = absurd e
      from _ (raises e t same) = raises e t (idle (same.executed ∙ ready.none_ran))

  pub Ready-part :
      (rs qs : List Reason) (s : Session Token User Args)
      → ((r : Reason) → Member r qs → Member r rs)
      → Ready rs s
      → Ready qs s
  Ready-part rs qs s part ready = record {
    none_ran = ready.none_ran;
    accepts = record { each = λ r m. ready.accepts.each r (part r m) };
  }

  pub swapped : (rs qs : List Reason) (r : Reason) → Member r (qs ++ rs) → Member r (rs ++ qs)
  swapped rs qs r m = elim (Member-append r qs rs m) [
    | inl a ↦ Member-append_right r rs qs a
    | inr b ↦ Member-append_left r rs qs b
  ]

  module _ (i : Bool) (rs : List Reason) where
    grown :
        (s : Session Token User Args) (evidence : List Reason)
        → Ready rs s
        → (r : Reason) → Member r (evidence ++ rs)
        → Member r (s.accepted ++ evidence)
    grown s evidence ready r m = elim (Member-append r evidence rs m) [
      | inl a ↦ Member-append_right r s.accepted evidence a
      | inr b ↦ Member-append_left r s.accepted evidence (ready.accepts.each r b)
    ]

    answered-Ready :
        (answer : Answer) (evidence : List Reason) (reason : Reason) (s : Session Token User Args)
        → Ready rs s
        → Ends
            (λ a t. Ready (evidence ++ rs) t)
            (λ t. Ready rs t)
            (answered world client answer evidence reason s)
    answered-Ready accepted evidence reason s ready =
        returns tt _
          (record { none_ran = ready.none_ran; accepts = record { each = grown s evidence ready } })
    answered-Ready declined evidence reason s ready = raises _ s ready
    answered-Ready unsupported evidence reason s ready = raises _ s ready
    answered-Ready failed evidence reason s ready = raises _ s ready

    pub later :
        (s : Session Token User Args) (n : ℕ)
        → Ready rs s
        → Ready rs (record s { time = s.time + n })
    later s n ready = record {
      none_ran = ready.none_ran;
      accepts = record { each = ready.accepts.each };
    }

    prompt-Ready :
        (invocation : Invocation Token User Args) (evidence : List Reason) (reason : Reason)
        (s : Session Token User Args)
        → Ready rs s
        → Ends
            (λ a t. Ready (evidence ++ rs) t)
            (λ t. Safe t i)
            (catch
              (confirm_capability world client invocation.entry.name evidence reason)
              (after_refusal world client invocation reason i)
              s)
    prompt-Ready invocation evidence reason s ready =
        Ends-or_handle (after_refusal world client invocation reason i) _
          (answered-Ready
            (client.elicit s.time (confirmation_prompt invocation.entry.name evidence)) evidence
            reason (record s { time = s.time + 1 }) (later s 1 ready))
          (λ e t r.
            refused-Safe (after_refusal world client invocation reason i e) i rs t
              (Refuses-after_refusal world client invocation reason i e) r)

    prompted-Ready :
        (b : Bool) (invocation : Invocation Token User Args) (evidence : List Reason)
        (reason : Reason) (s : Session Token User Args)
        → (b ≡ true → evidence ≡ [])
        → Ready rs s
        → Ends
            (λ ev t. Ready (ev ++ rs) t)
            (λ t. Safe t i)
            ((if b
                then pure []
                else audit_invocation world client invocation confirmation_requested reason i
                  >> catch
                      (confirm_capability world client invocation.entry.name evidence reason)
                      (after_refusal world client invocation reason i)
                  >> audit_invocation world client invocation confirmation_accepted reason i
                  >> pure evidence)
              s)
    prompted-Ready true invocation evidence reason s h ready = returns [] s ready
    prompted-Ready false invocation evidence reason s h ready =
        let requested = audit_invocation world client invocation confirmation_requested reason i in
        let prompt =
          catch (confirm_capability world client invocation.entry.name evidence reason)
            (after_refusal world client invocation reason i) in
        let reported = audit_invocation world client invocation confirmation_accepted reason i in
        Ends-and_then (λ _. pure evidence) _
          (Ends-and_then (λ _. reported) _
            (Ends-and_then (λ _. prompt) (requested s)
              (keeps_Ready requested i rs s (Quiet-emit_audit world client _ _ _ _ _) ready)
              (λ a t r. prompt-Ready invocation evidence reason t r))
            (λ a t r.
              keeps_Ready reported i (evidence ++ rs) t (Quiet-emit_audit world client _ _ _ _ _)
                r))
          (λ a t r. returns evidence t r)

    pub confirm-Ready :
        (invocation : Invocation Token User Args) (s : Session Token User Args)
        → Ready rs s
        → Ends (λ ev t. Ready (ev ++ rs) t) (λ t. Safe t i) (confirm_ world client invocation i s)
    unfolding confirm_
    confirm-Ready invocation s ready =
        prompted-Ready (is_empty (confirmation_evidence invocation i)) invocation
          (confirmation_evidence invocation i) (confirmation_capability invocation) s
          (empty_list (confirmation_evidence invocation i)) ready
