-- ===== src/Execution/Actions.antt =====
-- Methods that await, keep an audit log and may raise: an action takes the state and gives its
-- result or its error beside the new state. What was written before a raise stays written.
use ma_provider_mcp.Prelude.{Bool, true, false, Result, ok, err}

abbrev pub Action : Type 0 → Type 0 → Type 0 → Type 0
Action S E A = S → Result E A × S

module _ {S E A : Type 0} where
  abbrev pub pure : A → Action S E A
  pure a s = (ok a, s)

  abbrev pub raise : E → Action S E A
  raise e s = (err e, s)

abbrev pub raise_if : {S E : Type 0} → Bool → E → Action S E (Unit {0})
raise_if true e s = (err e, s)
raise_if false e s = (ok tt, s)

abbrev pub modify : {S E : Type 0} → (S → S) → Action S E (Unit {0})
modify f s = (ok tt, f s)

-- what a bind does behind its first part
abbrev pub and_then : {S E A B : Type 0} → (A → Action S E B) → Result E A × S → Result E B × S
and_then f (ok a, s) = f a s
and_then f (err e, s) = (err e, s)

-- except: a handler that runs on the error, and raises one of its own
abbrev pub or_handle : {S E A : Type 0} → (E → Action S E A) → Result E A × S → Result E A × S
or_handle handler (ok a, s) = (ok a, s)
or_handle handler (err e, s) = handler e s

infixl 5 ◌>>=◌ ◌>>◌
abbrev pub ◌>>=◌ : {S E A B : Type 0} → Action S E A → (A → Action S E B) → Action S E B
◌>>=◌ m f s = and_then f (m s)

abbrev pub ◌>>◌ : {S E B : Type 0} → Action S E (Unit {0}) → Action S E B → Action S E B
m >> k = m >>= λ _. k

abbrev pub catch : {S E A : Type 0} → Action S E A → (E → Action S E A) → Action S E A
catch m handler s = or_handle handler (m s)

-- What holds behind an action: `Q` of the value and the state where it returns, `F` of the state
-- where it raises.
pub data Ends {S E A : Type 0} (Q : A → S → Type 0) (F : S → Type 0) : Result E A × S → Type 0 where
  returns : (a : A) (s : S) → Q a s → Ends Q F (ok a, s)
  raises : (e : E) (s : S) → F s → Ends Q F (err e, s)

module _ {S E A B : Type 0} {Q : A → S → Type 0} {F : S → Type 0} {R : B → S → Type 0} where
  pub Ends-and_then :
      (f : A → Action S E B) (p : Result E A × S)
      → Ends Q F p
      → ((a : A) (s : S) → Q a s → Ends R F (f a s))
      → Ends R F (and_then f p)
  Ends-and_then f _ (returns a s q) k = k a s q
  Ends-and_then f _ (raises e s h) k = raises e s h

module _ {S E A : Type 0} {Q : A → S → Type 0} {F G : S → Type 0} where
  pub Ends-or_handle :
      (handler : E → Action S E A) (p : Result E A × S)
      → Ends Q F p
      → ((e : E) (s : S) → F s → Ends Q G (handler e s))
      → Ends Q G (or_handle handler p)
  Ends-or_handle handler _ (returns a s q) k = returns a s q
  Ends-or_handle handler _ (raises e s h) k = k e s h

pub Ends-both :
    {S E A : Type 0} {F : S → Type 0} (p : Result E A × S) → Ends (λ a t. F t) F p → F p.1
Ends-both _ (returns a t f) = f
Ends-both _ (raises e t f) = f
