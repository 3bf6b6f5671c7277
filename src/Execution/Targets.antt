-- ===== src/Execution/Targets.antt =====
-- provider/execution.py: the caller and the target that `_final_authentication` reads.
use ma_provider_mcp.Prelude.{
  ℕ, ◌+◌, ◌≡◌, ◌≢◌, refl, sym, ap, subst, str_eq, eq_iff, Bool-cases, ◌>>=◌, ◌⊎◌, inl, inr, String,
  Bool, true, false, Option, none, some, Result, ok, err, returned, if◌then◌else◌,
}
use ma_provider_mcp.Execution.Live.{World, Fails}
use ma_provider_mcp.Execution.Authorize.{with_target, target_of, final_authentication}
use ma_provider_mcp.CommandPolicy.Scope.{Scope}
use ma_provider_mcp.Execution.Kept.{Target, nobody, somebody, named_text}
use ma_provider_mcp.Execution.Checks.{same_value}

module _ {Token User Args : Type 0} (world : World Token User Args) where
  -- The caller that a finalization reads anew, where authentication is required.
  abbrev pub Caller : ℕ → Option (Token × User) → Type 0
  Caller t auth =
      ((world.auth_required t ≡ true) × (world.authentication t ≡ ok auth))
      ⊎ ((world.auth_required t ≡ false) × (auth ≡ none))

  -- The target of a finalization: none without a caller.
  abbrev pub FinalTarget :
      ℕ → Option (Token × User) → Option Scope → Option String → Option User → Type 0
  FinalTarget t none scope impersonated user = user ≡ none
  FinalTarget t (some caller) scope impersonated user =
      Target world t (some caller) scope impersonated user

  chosen_user :
      (t : ℕ) (caller : Token × User) (scope : Option Scope) (text : String)
      (found : Option (Token × User) × Option User) (r : Result (Fails world) User)
      → text ≢ ""
      → world.resolve_user t (some caller) text scope ≡ r
      → (r >>= with_target world (some caller)) ≡ ok found
      → (found.0 ≡ some caller) × Target world t (some caller) scope (some text) found.1
  chosen_user t caller scope text found (err e) given q h = absurd cc
  chosen_user t caller scope text found (ok u) given q h =
      let same = same_value (some caller, some u) found h in
      (
        sym (ap (λ p. p.0) same),
        subst (λ x. Target world t (some caller) scope (some text) x) (ap (λ p. p.1) same)
            (somebody text u given q),
      )

  chosen_nobody :
      (t : ℕ) (caller : Token × User) (scope : Option Scope) (impersonated : Option String)
      (found : Option (Token × User) × Option User)
      → (impersonated ≡ none) ⊎ (impersonated ≡ some "")
      → Path
          (Result (Fails world) (Option (Token × User) × Option User))
          (ok (some caller, none))
          (ok found)
      → (found.0 ≡ some caller) × Target world t (some caller) scope impersonated found.1
  chosen_nobody t caller scope impersonated found without h =
      let same = same_value (some caller, none) found h in
      (
        sym (ap (λ p. p.0) same),
        subst (λ x. Target world t (some caller) scope impersonated x) (ap (λ p. p.1) same)
            (nobody impersonated without),
      )

  target_of-FinalTarget :
      (t : ℕ) (impersonated : Option String) (scope : Option Scope) (auth : Option (Token × User))
      (found : Option (Token × User) × Option User)
      → target_of world t impersonated scope auth ≡ ok found
      → (found.0 ≡ auth) × FinalTarget t auth scope impersonated found.1
  target_of-FinalTarget t impersonated scope none found h =
      let same = same_value (none, none) found h in
      (sym (ap (λ p. p.0) same), sym (ap (λ p. p.1) same))
  target_of-FinalTarget t none scope (some caller) found h =
      chosen_nobody t caller scope none found (inl refl) h
  target_of-FinalTarget t (some text) scope (some caller) found h =
      elim (Bool-cases (str_eq text "")) [
        | inl e ↦
            chosen_nobody t caller scope (some text) found
              (inr (ap (λ x. some x) ((eq_iff text "").0 e))) (rw e at h)
        | inr e ↦
            chosen_user t caller scope text found (world.resolve_user t (some caller) text scope)
              (named_text world text e) refl (rw e at h)
      ]

  called :
      (t : ℕ) (b : Bool) (auth : Option (Token × User))
      → world.auth_required t ≡ b
      → (if b then world.authentication t else ok none) ≡ ok auth
      → Caller t auth
  called t true auth e h = inl (e, h)
  called t false auth e h = inr (e, sym (same_value none auth h))

  -- A finalization reads its caller, and then its target.
  pub final_authentication-Target :
      (t : ℕ) (impersonated : Option String) (scope : Option Scope)
      (found : Option (Token × User) × Option User)
      → final_authentication world t impersonated scope ≡ ok found
      → Caller t found.0 × FinalTarget (t + 1) found.0 scope impersonated found.1
  unfolding final_authentication
  final_authentication-Target t impersonated scope found h =
      let (auth, read, rest) =
        returned (if world.auth_required t then world.authentication t else ok none)
          (target_of world (t + 1) impersonated scope) h in
      let (same, target) = target_of-FinalTarget (t + 1) impersonated scope auth found rest in
      (
        subst (λ a. Caller t a) (sym same) (called t (world.auth_required t) auth refl read),
        subst (λ a. FinalTarget (t + 1) a scope impersonated found.1) (sym same) target,
      )
