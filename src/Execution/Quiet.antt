-- ===== src/Execution/Quiet.antt =====
-- provider/execution.py: the actions that neither run a handler nor add to what was confirmed.
use ma_provider_mcp.Prelude.{ℕ, ◌+◌, ◌≡◌, refl, ◌∙◌, String, Option, Result, ok, err}
use ma_provider_mcp.Policy.Mode.{PolicyMode}
use ma_provider_mcp.Execution.Invocation.{Invocation}
use ma_provider_mcp.Execution.Evidence.{Reason}
use ma_provider_mcp.Execution.Live.{World, Failure}
use ma_provider_mcp.Execution.Actions.{
  pure, raise, ◌>>=◌, ◌>>◌, catch, Ends, returns, raises, Ends-and_then, Ends-or_handle,
}
use ma_provider_mcp.Execution.Session.{Outcome, Client, Session, Act, emit_audit}
use ma_provider_mcp.Execution.Pipeline.{await_}

module _ {Token User Args : Type 0} where
  -- The runs and the confirmations are as before.
  pub record Same (s t : Session Token User Args) : Type 0 where
    pub executed : t.executed ≡ s.executed
    pub accepted : t.accepted ≡ s.accepted

  pub Same-refl : (s : Session Token User Args) → Same s s
  Same-refl s = record { executed = refl; accepted = refl }

  pub Same-trans : (s t u : Session Token User Args) → Same s t → Same t u → Same s u
  Same-trans s t u p q = record {
    executed = q.executed ∙ p.executed;
    accepted = q.accepted ∙ p.accepted;
  }

  pub record Quiet {A : Type 0} (m : Act Token User Args A) : Type 0 where
    pub at : (s : Session Token User Args) → Ends (λ a t. Same s t) (λ t. Same s t) (m s)

  module _ {A : Type 0} where
    pub Quiet-pure : (a : A) → Quiet (pure a)
    Quiet-pure a = record { at = λ s. returns a s (Same-refl s) }

    pub Quiet-raise : (e : Failure (Invocation Token User Args)) → Quiet (raise {A = A} e)
    Quiet-raise e = record { at = λ s. raises e s (Same-refl s) }

    quiet_end :
        (s t : Session Token User Args) (r : Result (Failure (Invocation Token User Args)) A)
        → Same s t
        → Ends (λ a u. Same s u) (λ u. Same s u) (r, t)
    quiet_end s t (ok a) p = returns a t p
    quiet_end s t (err e) p = raises e t p

    pub Quiet-await :
        (n : ℕ) (answer : ℕ → Result (Failure (Invocation Token User Args)) A)
        → Quiet (await_ n answer)
    Quiet-await n answer = record {
      at = λ s.
          quiet_end s (record s { time = s.time + n }) (answer s.time)
            (record { executed = refl; accepted = refl });
    }

    quiet_from :
        (s t : Session Token User Args)
        (p : Result (Failure (Invocation Token User Args)) A × Session Token User Args)
        → Same s t
        → Ends (λ a u. Same t u) (λ u. Same t u) p
        → Ends (λ a u. Same s u) (λ u. Same s u) p
    quiet_from s t _ q (returns a u p) = returns a u (Same-trans s t u q p)
    quiet_from s t _ q (raises e u p) = raises e u (Same-trans s t u q p)

    pub Quiet-catch :
        (m : Act Token User Args A)
        (handler : Failure (Invocation Token User Args) → Act Token User Args A)
        → Quiet m
        → ((e : Failure (Invocation Token User Args)) → Quiet (handler e))
        → Quiet (catch m handler)
    Quiet-catch m handler qm qh = record {
      at = λ s.
          Ends-or_handle handler (m s) (qm.at s)
            (λ e t p. quiet_from s t (handler e t) p ((qh e).at t));
    }

  pub Quiet-bind :
      {A B : Type 0} (m : Act Token User Args A) (f : A → Act Token User Args B)
      → Quiet m
      → ((a : A) → Quiet (f a))
      → Quiet (m >>= f)
  Quiet-bind m f qm qf = record {
    at = λ s. Ends-and_then f (m s) (qm.at s) (λ a t p. quiet_from s t (f a t) p ((qf a).at t));
  }

module _ {Token User Args : Type 0} where
  -- An action that raises, and is quiet.
  pub record Refuses {A : Type 0} (m : Act Token User Args A) : Type 0 where
    pub at : (s : Session Token User Args) → Ends (λ a t. ⊥) (λ t. Same s t) (m s)

  pub Refuses-raise :
      {A : Type 0} (e : Failure (Invocation Token User Args)) → Refuses (raise {A = A} e)
  Refuses-raise e = record { at = λ s. raises e s (Same-refl s) }

  pub Refuses-behind :
      {A : Type 0} (m : Act Token User Args (Unit {0})) (e : Failure (Invocation Token User Args))
      → Quiet m
      → Refuses (m >> raise {A = A} e)
  Refuses-behind {A} m e q = record {
    at = λ s. Ends-and_then (λ _. raise {A = A} e) (m s) (q.at s) (λ a t same. raises e t same);
  }

module _ {Token User Args Value : Type 0} (world : World Token User Args)
    (client : Client Token User Args Value) where
  pub Quiet-emit_audit :
      (auth : Option (Token × User)) (command : String) (reason : Reason) (mode : PolicyMode)
      (outcome : Outcome)
      → Quiet (emit_audit world client auth command reason mode outcome)
  Quiet-emit_audit auth command reason mode outcome = record {
    at = λ s. returns tt _ (record { executed = refl; accepted = refl });
  }

  -- An audit record, and a raise behind it.
  pub Quiet-audited_raise :
      {A : Type 0} (auth : Option (Token × User)) (command : String) (reason : Reason)
      (mode : PolicyMode) (outcome : Outcome) (e : Failure (Invocation Token User Args))
      → Quiet (emit_audit world client auth command reason mode outcome >> raise {A = A} e)
  Quiet-audited_raise {A} auth command reason mode outcome e =
      Quiet-bind (emit_audit world client auth command reason mode outcome) (λ _. raise {A = A} e)
        (Quiet-emit_audit auth command reason mode outcome) (λ _. Quiet-raise e)
