-- ===== src/Execution/Kept.antt =====
-- provider/execution.py: what an authorization keeps of a call, and the user that it impersonates.
use ma_provider_mcp.Prelude.{
  ℕ, ◌≡◌, refl, sym, ap, subst, ◌⊎◌, inl, inr, ◌≢◌, String, true, false, Option, none, some, ok,
  err, Bool-cases, str_eq, eq_iff, ◌>>=◌, Result,
}
use ma_provider_mcp.CommandPolicy.Scope.{Scope}
use ma_provider_mcp.Execution.Invocation.{DynamicEntry, Invocation}
use ma_provider_mcp.Execution.Live.{World, Fails, live_decision}
use ma_provider_mcp.Execution.Authorize.{with_entry, impersonate, decision_or}
use ma_provider_mcp.Execution.Checks.{Renewed, same_value}

module _ {Token User Args : Type 0} (world : World Token User Args) where
  -- The user that a request names: none without a text, and else the one that the text resolves to.
  pub data Target (t : ℕ) (auth : Option (Token × User)) (scope : Option Scope)
      : Option String → Option User → Type 0 where
    nobody :
        (impersonated : Option String)
        → (impersonated ≡ none) ⊎ (impersonated ≡ some "")
        → Target t auth scope impersonated none
    somebody :
        (text : String) (user : User)
        → text ≢ ""
        → world.resolve_user t auth text scope ≡ ok user
        → Target t auth scope (some text) (some user)

  pub named_text : (text : String) → str_eq text "" ≡ false → text ≢ ""
  named_text text e same = let z : true ≡ false = rw ((eq_iff text "").1 same) at e in absurd cc

  some_resolved :
      (t : ℕ) (auth : Option (Token × User)) (scope : Option Scope) (text : String)
      (user : Option User) (r : Result (Fails world) User)
      → text ≢ ""
      → world.resolve_user t auth text scope ≡ r
      → Path (Result (Fails world) (Option User)) (r >>= λ u. ok (some u)) (ok user)
      → Target t auth scope (some text) user
  some_resolved t auth scope text user (err e) given q h = absurd cc
  some_resolved t auth scope text user (ok u) given q h =
      subst (λ x. Target t auth scope (some text) x) (same_value (some u) user h)
        (somebody text u given q)

  pub impersonate-Target :
      (t : ℕ) (auth : Option (Token × User)) (impersonated : Option String) (scope : Option Scope)
      (user : Option User)
      → impersonate world t auth impersonated scope ≡ ok user
      → Target t auth scope impersonated user
  impersonate-Target t auth none scope user h =
      subst (λ x. Target t auth scope none x) (same_value none user h) (nobody none (inl refl))
  impersonate-Target t auth (some text) scope user h = elim (Bool-cases (str_eq text "")) [
    | inl e ↦
        subst (λ x. Target t auth scope (some text) x) (same_value none user (rw e at h))
          (nobody (some text) (inr (ap (λ x. some x) ((eq_iff text "").0 e))))
    | inr e ↦
        some_resolved t auth scope text user (world.resolve_user t auth text scope)
          (named_text text e) refl (rw e at h)
  ]

  -- One invocation has all that another one has, but the decision and the annotations of its entry.
  pub record Keeps (before after : Invocation Token User Args) : Type 0 where
    pub arguments : after.arguments ≡ before.arguments
    pub auth : after.auth ≡ before.auth
    pub impersonated_user : after.impersonated_user ≡ before.impersonated_user
    pub preflight : after.preflight ≡ before.preflight
    pub name : after.entry.name ≡ before.entry.name
    pub command : after.entry.command ≡ before.entry.command
    pub handler : after.entry.handler ≡ before.entry.handler

  pub Renewed-Keeps :
      (t : ℕ) (auth : Option (Token × User)) (before after : Invocation Token User Args)
      (live : DynamicEntry)
      → Renewed world t before.entry auth live
      → with_entry world before live ≡ after
      → Keeps before after
  Renewed-Keeps t auth before after live r same =
      subst (λ i. Keeps before i) same
        (record {
          arguments = refl;
          auth = refl;
          impersonated_user = refl;
          preflight = refl;
          name = sym (ap (λ e. e.name) r.renewed);
          command = sym (ap (λ e. e.command) r.renewed);
          handler = sym (ap (λ e. e.handler) r.renewed);
        })

  pub Renewed-handler :
      (t : ℕ) (auth : Option (Token × User)) (entry live : DynamicEntry)
      → Renewed world t entry auth live
      → live.handler ≡ entry.handler
  Renewed-handler t auth entry live r = sym (ap (λ e. e.handler) r.renewed)

  pub Renewed-decision :
      (t : ℕ) (auth : Option (Token × User)) (entry live : DynamicEntry)
      → Renewed world t entry auth live
      → decision_or world live ≡ live_decision world t entry
  Renewed-decision t auth entry live r = sym (ap (λ e. decision_or world e) r.renewed)
