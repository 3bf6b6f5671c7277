-- ===== src/Execution/Safety.antt =====
-- provider/execution.py: what a call runs, it may run.
use ma_provider_mcp.Prelude.{
  ◌+◌, ◌≡◌, refl, String, Bool, true, false, Option, List, [], ◌++◌, Member-append_left,
}
use ma_provider_mcp.Execution.Invocation.{DynamicEntry, Invocation}
use ma_provider_mcp.Execution.Evidence.{Reason, confirmation_evidence}
use ma_provider_mcp.Execution.Live.{World}
use ma_provider_mcp.Execution.Authorize.{truthy}
use ma_provider_mcp.Execution.Actions.{pure, ◌>>=◌, Ends, Ends-both, returns, Ends-and_then}
use ma_provider_mcp.Execution.Session.{is_subset, Client, Session}
use ma_provider_mcp.Execution.Pipeline.{confirm_, authorize_call_audited, reauthorize}
use ma_provider_mcp.Execution.Run.{
  run_sealed, execute_authorized, reauthorized, run_confirmed, confirm_and_run, confirm_again,
  call_parsed,
}
use ma_provider_mcp.Execution.Stages.{Quiet-authorize_call_audited, Quiet-reauthorize}
use ma_provider_mcp.Execution.Ready.{Safe, Ready, keeps_Ready, Ready-part, swapped, confirm-Ready}
use ma_provider_mcp.Execution.Runs.{sealed-Ready, run_sealed-Safe}

module _ {Token User Args Value : Type 0} (world : World Token User Args)
    (client : Client Token User Args Value) where
  module _ (invocation : Invocation Token User Args) (rs : List Reason)
      (impersonated : Option String) where
    execute_authorized-Safe :
        (s : Session Token User Args)
        → Ready world client rs s
        → Ends
            (λ a t. Safe world client t (truthy impersonated))
            (λ t. Safe world client t (truthy impersonated))
            (execute_authorized world client invocation rs impersonated s)
    unfolding execute_authorized
    execute_authorized-Safe s ready =
        Ends-and_then (run_sealed world client rs (truthy impersonated)) _
          (sealed-Ready world client invocation rs impersonated s ready)
          (λ final t r.
            run_sealed-Safe world client invocation rs impersonated (s.time + 3) final t _ r refl)

    more-Ready :
        (arguments : Args) (s : Session Token User Args) (more : List Reason)
        → Ready world client (more ++ rs) s
        → Ends
            (λ ready t. Ready world client ready.1 t)
            (λ t. Safe world client t (truthy impersonated))
            (reauthorized world client invocation rs arguments impersonated more s)
    more-Ready arguments s more ready =
        Ends-and_then
          (λ again. pure {A = Invocation Token User Args × List Reason} (again, rs ++ more)) _
          (keeps_Ready world client (reauthorize world client invocation arguments impersonated)
            (truthy impersonated) (rs ++ more) s
            (Quiet-reauthorize world client invocation arguments impersonated)
            (Ready-part world client (more ++ rs) (rs ++ more) s (swapped world client more rs)
              ready))
          (λ again t r. returns (again, rs ++ more) t r)

    again-Ready :
        (arguments : Args) (s : Session Token User Args) (b : Bool)
        → is_subset (confirmation_evidence invocation (truthy impersonated)) rs ≡ b
        → Ready world client rs s
        → Ends
            (λ ready t. Ready world client ready.1 t)
            (λ t. Safe world client t (truthy impersonated))
            (confirm_again world client invocation rs arguments impersonated s)
    unfolding confirm_again
    again-Ready arguments s true e ready = rw e (returns _ s ready)
    again-Ready arguments s false e ready = rw e (
        Ends-and_then (reauthorized world client invocation rs arguments impersonated) _
          (confirm-Ready world client (truthy impersonated) rs invocation s ready)
          (λ more t r. more-Ready arguments t more r))

  module _ (entry : DynamicEntry) (auth : Option (Token × User)) (arguments : Args)
      (impersonated : Option String) where
    confirmed-Safe :
        (invocation : Invocation Token User Args) (rs : List Reason) (s : Session Token User Args)
        → Ready world client rs s
        → Ends
            (λ a t. Safe world client t (truthy impersonated))
            (λ t. Safe world client t (truthy impersonated))
            ((reauthorize world client invocation arguments impersonated >>= λ again.
                run_confirmed world client again rs arguments impersonated)
              s)
    confirmed-Safe invocation rs s ready =
        Ends-and_then (λ again. run_confirmed world client again rs arguments impersonated) _
          (keeps_Ready world client (reauthorize world client invocation arguments impersonated)
            (truthy impersonated) rs s
            (Quiet-reauthorize world client invocation arguments impersonated) ready)
          (λ again t r.
            Ends-and_then (λ both. execute_authorized world client both.0 both.1 impersonated) _
              (again-Ready again rs impersonated arguments t _ refl r)
              (λ both u q. execute_authorized-Safe both.0 both.1 impersonated u q))

    confirm_and_run-Safe :
        (initial : Invocation Token User Args) (s : Session Token User Args)
        → Ready world client [] s
        → Ends
            (λ a t. Safe world client t (truthy impersonated))
            (λ t. Safe world client t (truthy impersonated))
            (confirm_and_run world client arguments impersonated initial s)
    confirm_and_run-Safe initial s ready =
        Ends-and_then _ (confirm_ world client initial (truthy impersonated) s)
          (confirm-Ready world client (truthy impersonated) [] initial s ready)
          (λ evidence t r. confirmed-Safe initial evidence t (
            Ready-part world client (evidence ++ []) evidence t
              (λ q m. Member-append_left q evidence [] m) r))

    call_parsed_ends :
        (s : Session Token User Args)
        → s.executed ≡ []
        → Ends
            (λ a t. Safe world client t (truthy impersonated))
            (λ t. Safe world client t (truthy impersonated))
            (call_parsed world client entry auth arguments impersonated s)
    unfolding call_parsed
    call_parsed_ends s fresh =
        Ends-and_then (confirm_and_run world client arguments impersonated) _
          (keeps_Ready world client
            (authorize_call_audited world client entry auth arguments impersonated)
            (truthy impersonated) [] s
            (Quiet-authorize_call_audited world client entry auth arguments impersonated)
            (record { none_ran = fresh; accepts = record { each = λ r m. absurd m } }))
          (λ initial t r. confirm_and_run-Safe initial t r)

    -- A call that starts where nothing has run yet ends, whether with a value or with a failure, with
    -- at most one run; and a run there is was of an invocation that had been made final, with all
    -- the evidence that it asks for named by prompts that were accepted, and the run was handed as
    -- confirmed only capabilities that such a prompt named.
    pub call_parsed-Safe :
        (s : Session Token User Args)
        → s.executed ≡ []
        → Safe world client
            (call_parsed world client entry auth arguments impersonated s).1
            (truthy impersonated)
    call_parsed-Safe s fresh =
        Ends-both (call_parsed world client entry auth arguments impersonated s)
          (call_parsed_ends s fresh)
