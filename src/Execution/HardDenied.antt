-- ===== src/Execution/HardDenied.antt =====
-- provider/execution.py: a call of a command that provider/command_policy.py denies
-- unconditionally.
use mathlib.Core.Bool.{true≢false}
use ma_provider_mcp.Prelude.{
  ℕ, ◌+◌, ◌≡◌, refl, sym, ap, ◌∙◌, String, true, Option, [], Result, ok, err, returned,
}
use ma_provider_mcp.Policy.Mode.{deny, same}
use ma_provider_mcp.Policy.Snapshot.{PolicySnapshot}
use ma_provider_mcp.CommandPolicy.Decision.{effective_mode}
use ma_provider_mcp.CommandPolicy.Exact.{command_is_hard_denied}
use ma_provider_mcp.CommandPolicy.Guards.{hard_denied-effective_mode}
use ma_provider_mcp.Execution.Invocation.{DynamicEntry, Invocation}
use ma_provider_mcp.Execution.Live.{
  World, Failure, tool_error, invocation_error, insufficient_permissions, authentication_error,
  timeout_error, other_error, Fails, request_policy, live_decision, reauthorize_entry,
}
use ma_provider_mcp.Execution.Authorize.{with_live, authorize_call}
use ma_provider_mcp.Execution.Checks.{chained, passed}
use ma_provider_mcp.Execution.Actions.{
  ◌>>=◌, catch, Ends, returns, raises, Ends-and_then, Ends-or_handle,
}
use ma_provider_mcp.Execution.Session.{Client, Session, Act}
use ma_provider_mcp.Execution.Pipeline.{await_, after_denial, authorize_call_audited}
use ma_provider_mcp.Execution.Run.{call_parsed, confirm_and_run}
use ma_provider_mcp.Execution.Quiet.{Same, Same-trans, Refuses, Refuses-raise}

module _ {Token User Args : Type 0} where
  refused_end :
      {A : Type 0} (s t : Session Token User Args)
      (r : Result (Failure (Invocation Token User Args)) A)
      → ((a : A) → r ≡ ok a → ⊥)
      → Same s t
      → Ends (λ a u. ⊥) (λ u. Same s u) (r, t)
  refused_end s t (ok a) never p = absurd (never a refl)
  refused_end s t (err e) never p = raises e t p

  Refuses-await :
      {A : Type 0} (n : ℕ) (answer : ℕ → Result (Failure (Invocation Token User Args)) A)
      → ((t : ℕ) (a : A) → answer t ≡ ok a → ⊥)
      → Refuses (await_ n answer)
  Refuses-await n answer never = record {
    at = λ s.
        refused_end s (record s { time = s.time + n }) (answer s.time) (never s.time)
          (record { executed = refl; accepted = refl });
  }

  refuses_from :
      {A : Type 0} (s t : Session Token User Args)
      (p : Result (Failure (Invocation Token User Args)) A × Session Token User Args)
      → Same s t
      → Ends (λ a u. ⊥) (λ u. Same t u) p
      → Ends (λ a u. ⊥) (λ u. Same s u) p
  refuses_from s t _ q (returns a u p) = absurd p
  refuses_from s t _ q (raises e u p) = raises e u (Same-trans s t u q p)

  Refuses-catch :
      {A : Type 0} (m : Act Token User Args A)
      (handler : Failure (Invocation Token User Args) → Act Token User Args A)
      → Refuses m
      → ((e : Failure (Invocation Token User Args)) → Refuses (handler e))
      → Refuses (catch m handler)
  Refuses-catch m handler qm qh = record {
    at = λ s.
        Ends-or_handle handler (m s) (qm.at s)
          (λ e t p. refuses_from s t (handler e t) p ((qh e).at t));
  }

  Refuses-bind :
      {A B : Type 0} (m : Act Token User Args A) (f : A → Act Token User Args B)
      → Refuses m
      → Refuses (m >>= f)
  Refuses-bind m f qm = record { at = λ s. Ends-and_then f (m s) (qm.at s) (λ a t p. absurd p) }

module _ {Token User Args : Type 0} (world : World Token User Args) (entry : DynamicEntry)
    (hard : command_is_hard_denied entry.command ≡ true) where
  -- An entry of an unconditional deny family is never authorized again.
  reauthorize_entry-never :
      (t : ℕ) (auth : Option (Token × User)) (policy : PolicySnapshot) (live : DynamicEntry)
      → reauthorize_entry world t entry auth policy ≡ ok live
      → ⊥
  unfolding reauthorize_entry
  reauthorize_entry-never t auth policy live h =
      let (checked, _) = chained _ _ live h in
      let (_, mode) = chained _ _ tt checked in
      let denied : effective_mode (live_decision world t entry) policy [] ≡ deny =
        hard_denied-effective_mode world.casefold entry.command _ _ policy [] hard in
      true≢false (sym (ap (λ m. same deny m) denied) ∙ passed _ _ mode)

  authorize_call-never :
      (t : ℕ) (auth : Option (Token × User)) (arguments : Args) (impersonated : Option String)
      (sealed : Invocation Token User Args)
      → authorize_call world t entry auth arguments impersonated ≡ ok sealed
      → ⊥
  unfolding authorize_call
  authorize_call-never t auth arguments impersonated sealed h =
      let (live, first, _) =
        returned (reauthorize_entry world t entry auth (request_policy world t auth))
          (with_live world t auth arguments impersonated) h in
      reauthorize_entry-never t auth (request_policy world t auth) live first

module _ {Token User Args Value : Type 0} (world : World Token User Args)
    (client : Client Token User Args Value) (entry : DynamicEntry) (auth : Option (Token × User))
    (impersonated : Option String) where
  Refuses-after_denial :
      (e : Fails world) → Refuses (after_denial world client entry auth impersonated e)
  Refuses-after_denial (tool_error message) = record {
    at = λ s. raises _ _ (record { executed = refl; accepted = refl });
  }
  Refuses-after_denial (invocation_error message invocation) = record {
    at = λ s. raises _ _ (record { executed = refl; accepted = refl });
  }
  Refuses-after_denial insufficient_permissions = record {
    at = λ s. raises _ _ (record { executed = refl; accepted = refl });
  }
  Refuses-after_denial authentication_error = Refuses-raise authentication_error
  Refuses-after_denial timeout_error = Refuses-raise timeout_error
  Refuses-after_denial other_error = Refuses-raise other_error

  -- A call of a command of an unconditional deny family raises in every session, whoever calls it
  -- and whatever the answers of Music Assistant and of the client, under every policy: it runs no
  -- handler, and no prompt is accepted.
  pub hard_denied-Refuses :
      (arguments : Args)
      → command_is_hard_denied entry.command ≡ true
      → Refuses (call_parsed world client entry auth arguments impersonated)
  unfolding call_parsed authorize_call_audited
  hard_denied-Refuses arguments hard =
      Refuses-bind (authorize_call_audited world client entry auth arguments impersonated)
        (confirm_and_run world client arguments impersonated)
        (Refuses-catch (await_ 3 (λ t. authorize_call world t entry auth arguments impersonated))
          (after_denial world client entry auth impersonated)
          (Refuses-await 3 (λ t. authorize_call world t entry auth arguments impersonated)
            (λ t a h. authorize_call-never world entry hard t auth arguments impersonated a h))
          Refuses-after_denial)
