-- ===== src/Execution/Runs.antt =====
-- provider/execution.py: what runs behind a finalization, it may run.
use ma_provider_mcp.Prelude.{
  ℕ, ◌+◌, ◌≡◌, refl, ap, String, Bool, true, false, Option, List, [], ◌∷◌, ◌++◌, Result, ok, err,
}
use ma_provider_mcp.Capability.{Capability}
use ma_provider_mcp.Execution.Invocation.{Invocation}
use ma_provider_mcp.Execution.Evidence.{
  Reason, capability, confirmed_capabilities, confirmation_evidence,
}
use ma_provider_mcp.Execution.Denied.{invocation_audit_capability}
use ma_provider_mcp.Execution.Live.{World, tool_error, Fails, confirmation_changed}
use ma_provider_mcp.Execution.Authorize.{truthy, finalize_invocation}
use ma_provider_mcp.Execution.Finalized.{Final, finalize_invocation-Final}
use ma_provider_mcp.Execution.Actions.{
  pure, raise, ◌>>=◌, ◌>>◌, catch, Ends, returns, raises, Ends-and_then, Ends-or_handle,
}
use ma_provider_mcp.Execution.Session.{
  authorization_denied, audit_invocation, is_subset, intersection, Client, Session, Act,
  audit_execution, execution_succeeded,
}
use ma_provider_mcp.Execution.Run.{
  after_sealing, after_run, execute, checking, run_once, reported, seal_call, run_sealed,
}
use ma_provider_mcp.Execution.Quiet.{
  Quiet-emit_audit, Same, Quiet, Quiet-await, Refuses, Refuses-behind,
}
use ma_provider_mcp.Execution.Stages.{
  Refuses-after_sealing, Quiet-audit_execution, Refuses-after_run,
}
use ma_provider_mcp.Execution.Among.{subset-Member, intersection-Member}
use ma_provider_mcp.Execution.Ready.{Safe, ran, Ready, Safe-Same, refused-Safe, later}

module _ {Token User Args Value : Type 0} (world : World Token User Args)
    (client : Client Token User Args Value) where
  -- A run behind its finalization.
  pub SealedCall :
      List Reason → Option User → ℕ → Invocation Token User Args → Session Token User Args → Type 0
  SealedCall rs previous time final t =
      Ready world client rs t
      × ((caller : Option (Token × User)) × Final world time caller previous final)

  -- A quiet action, and one that raises, behind a run.
  keeps_Safe :
      {A : Type 0} (m : Act Token User Args A) (i : Bool) (s : Session Token User Args)
      → Quiet m
      → Safe world client s i
      → Ends (λ a t. Safe world client t i) (λ t. Safe world client t i) (m s)
  keeps_Safe {A} m i s q safe = from (m s) (q.at s)
    where
      from :
          (p : Result (Fails world) A × Session Token User Args)
          → Ends (λ a t. Same s t) (λ t. Same s t) p
          → Ends (λ a t. Safe world client t i) (λ t. Safe world client t i) p
      from _ (returns a t e) = returns a t (Safe-Same world client s t i e safe)
      from _ (raises e t same) = raises e t (Safe-Same world client s t i same safe)

  Refuses-Safe :
      {A : Type 0} (m : Act Token User Args A) (i : Bool) (s : Session Token User Args)
      → Refuses m
      → Safe world client s i
      → Ends (λ a t. Safe world client t i) (λ t. Safe world client t i) (m s)
  Refuses-Safe {A} m i s q safe = from (m s) (q.at s)
    where
      from :
          (p : Result (Fails world) A × Session Token User Args)
          → Ends (λ a t. ⊥) (λ t. Same s t) p
          → Ends (λ a t. Safe world client t i) (λ t. Safe world client t i) p
      from _ (returns a t e) = absurd e
      from _ (raises e t same) = raises e t (Safe-Same world client s t i same safe)

  module _ (final : Invocation Token User Args) (i : Bool) (confirmed : List Capability) where
    execute-Safe :
        (s : Session Token User Args)
        → Safe world client (execute world client final confirmed s).1 i
        → Ends
            (λ a t. Safe world client t i)
            (λ t. Safe world client t i)
            (execute world client final confirmed s)
    execute-Safe s safe = by_result (client.run s.time final confirmed)
      where
        by_result :
            (r : Result (Fails world) Value)
            → Ends
                (λ a t. Safe world client t i)
                (λ t. Safe world client t i)
                (r, (execute world client final confirmed s).1)
        by_result (ok value) = returns value _ safe
        by_result (err e) = raises e _ safe

    reported-Safe :
        (value : Value) (s : Session Token User Args)
        → Safe world client s i
        → Ends
            (λ a t. Safe world client t i)
            (λ t. Safe world client t i)
            (reported world client final i value s)
    reported-Safe value s safe =
        Ends-and_then (λ _. pure {A = Invocation Token User Args × Value} (final, value))
          (audit_execution world client final execution_succeeded i s)
          (keeps_Safe (audit_execution world client final execution_succeeded i) i s
            (Quiet-audit_execution world client final execution_succeeded i) safe)
          (λ a t r. returns (final, value) t r)

    run_once-Safe :
        (s : Session Token User Args)
        → Safe world client (execute world client final confirmed s).1 i
        → Ends
            (λ a t. Safe world client t i)
            (λ t. Safe world client t i)
            ((catch (run_once world client final confirmed) (after_run world client final i)
                >>= reported world client final i)
              s)
    run_once-Safe s safe =
        Ends-and_then (reported world client final i) _
          (Ends-or_handle (after_run world client final i) _
            (Ends-and_then _ (execute world client final confirmed s) (execute-Safe s safe)
              (λ value t r. keeps_Safe (checking world client final value) i t (Quiet-await 1 _) r))
            (λ e t r.
              Refuses-Safe (after_run world client final i e) i t
                (Refuses-after_run world client final i e) r))
          (λ value t r. reported-Safe value t r)

  module _ (invocation : Invocation Token User Args) (rs : List Reason)
      (impersonated : Option String) where
    pub sealed-Ready :
        (s : Session Token User Args)
        → Ready world client rs s
        → Ends
            (SealedCall rs invocation.impersonated_user (s.time + 3))
            (λ t. Safe world client t (truthy impersonated))
            (seal_call world client invocation impersonated s)
    unfolding SealedCall
    sealed-Ready s ready =
        Ends-or_handle (after_sealing world client invocation (truthy impersonated)) _
          (by_result (finalize_invocation world s.time invocation impersonated) refl)
          (λ e t r.
            refused-Safe world client
              (after_sealing world client invocation (truthy impersonated) e) (truthy impersonated)
              rs t (Refuses-after_sealing world client invocation (truthy impersonated) e) r)
      where
        by_result :
            (r : Result (Fails world) (Invocation Token User Args))
            → finalize_invocation world s.time invocation impersonated ≡ r
            → Ends
                (λ final t.
                  Ready world client rs t
                  × ((caller : Option (Token × User)) × Final world
                        (s.time + 3)
                        caller
                        invocation.impersonated_user
                        final))
                (λ t. Ready world client rs t)
                (r, record s { time = s.time + 4 })
        by_result (ok final) e = returns final _ (
          later world client true rs s 4 ready,
          (let (caller, is_final, _) =
                finalize_invocation-Final world s.time invocation final impersonated e in
              (caller, is_final)),
        )
        by_result (err f) e = raises f _ (later world client true rs s 4 ready)

  module _ (invocation : Invocation Token User Args) (rs : List Reason)
      (impersonated : Option String) (time : ℕ) where
    executed-Safe :
        (final : Invocation Token User Args) (s : Session Token User Args)
        → SealedCall rs invocation.impersonated_user time final s
        → is_subset (confirmation_evidence final (truthy impersonated)) rs ≡ true
        → Safe world client
            (execute world client final (intersection (confirmed_capabilities final) rs) s).1
            (truthy impersonated)
    unfolding SealedCall
    executed-Safe final s (ready, (caller, is_final)) subset =
        ran final (intersection (confirmed_capabilities final) rs)
          (ap (λ l. l ++ (final, intersection (confirmed_capabilities final) rs) ∷ [])
            ready.none_ran)
          (record {
            time = time;
            caller = caller;
            previous = invocation.impersonated_user;
            final = is_final;
            evidence = record {
              each = λ r m.
                  ready.accepts.each r (
                    subset-Member (confirmation_evidence final (truthy impersonated)) rs subset r
                      m);
            };
            handed = λ c m.
                ready.accepts.each (capability c)
                  (intersection-Member (confirmed_capabilities final) rs c m);
          })

    pub run_sealed-Safe :
        (final : Invocation Token User Args) (s : Session Token User Args) (b : Bool)
        → SealedCall rs invocation.impersonated_user time final s
        → is_subset (confirmation_evidence final (truthy impersonated)) rs ≡ b
        → Ends
            (λ a t. Safe world client t (truthy impersonated))
            (λ t. Safe world client t (truthy impersonated))
            (run_sealed world client rs (truthy impersonated) final s)
    unfolding SealedCall
    run_sealed-Safe final s true h e = rw e (
        run_once-Safe final (truthy impersonated) (intersection (confirmed_capabilities final) rs) s
          (executed-Safe final s h e))
    run_sealed-Safe final s false h e =
        let refused =
          audit_invocation world client final authorization_denied
            (invocation_audit_capability final) (truthy impersonated) in
        rw e (
          refused-Safe world client (refused >> raise (tool_error confirmation_changed))
            (truthy impersonated) rs s
            (Refuses-behind refused _ (Quiet-emit_audit world client _ _ _ _ _)) h.0)
