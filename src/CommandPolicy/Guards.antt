-- ===== src/CommandPolicy/Guards.antt =====
-- provider/command_policy.py: every resolved decision is guarded.
use ma_provider_mcp.Prelude.{
  ◌≡◌, refl, inl, inr, String, Bool, true, not, ◌||◌, ◌&&◌, Option, none, some, List, [], ◌∷◌,
  arith, is_empty, Dict, lookup, Option-cases,
}
use ma_provider_mcp.Capability.{Capability}
use ma_provider_mcp.Policy.Mode.{deny}
use ma_provider_mcp.Policy.Snapshot.{PolicySnapshot}
use ma_provider_mcp.CommandPolicy.Decision.{
  Operation, CommandDecision, FamilyPolicy, CommandProfile, effective_mode,
}
use ma_provider_mcp.CommandPolicy.Exact.{command_is_hard_denied, exact_policies}
use ma_provider_mcp.CommandPolicy.Scope.{Scope, matching_family, scope_family}
use ma_provider_mcp.CommandPolicy.Resolve.{
  fallback_decision, family_decision, scope_fallback_policy, family_or_scope,
  resolve_command_policy,
}

-- A decision that asks for a capability, or lets nobody in.
abbrev pub is_guarded : CommandDecision → Bool
is_guarded d =
    d.hard_denied
    || not (is_empty d.required_capabilities)
    || not (is_empty d.alternative_capabilities)

abbrev all_guarded : Dict CommandDecision → Bool
all_guarded [] = true
all_guarded ((k, d) ∷ m) = is_guarded d && all_guarded m

guarded_entry :
    (m : Dict CommandDecision) (k : String) (d : CommandDecision)
    → all_guarded m ≡ true
    → lookup k m ≡ some d
    → is_guarded d ≡ true
guarded_entry [] k d a h = absurd (ground arith)
guarded_entry ((j, e) ∷ m) k d a h = ground (arith, guarded_entry m k d)

exact_guarded : all_guarded exact_policies ≡ true
unfolding exact_policies
exact_guarded = refl

fallback_guarded :
    (o : Operation) (c : Option Capability) (profile : Option CommandProfile)
    → is_guarded (fallback_decision o c profile) ≡ true
unfolding fallback_decision
fallback_guarded o none profile = refl
fallback_guarded o (some c) profile = refl

family_guarded :
    (command : String) (f : FamilyPolicy) (o : Operation) (profile : Option CommandProfile)
    → is_guarded (family_decision command f o profile) ≡ true
unfolding family_decision
family_guarded command f o profile = ground arith

module _ (casefold : String → String) (command : String) (scope : Scope)
    (profile : Option CommandProfile) where
  scope_fallback_guarded : is_guarded (scope_fallback_policy casefold command scope profile) ≡ true
  unfolding scope_fallback_policy
  scope_fallback_guarded = elim (Option-cases (scope_family casefold scope)) [
    | inl e ↦ rw (e, scope_fallback_policy)
    | inr (f, e) ↦ rw (e, scope_fallback_policy) (fallback_guarded _ _ profile)
  ]

  family_or_scope_guarded : is_guarded (family_or_scope casefold command scope profile) ≡ true
  unfolding family_or_scope
  family_or_scope_guarded = elim (Option-cases (matching_family command)) [
    | inl e ↦ rw (e, family_or_scope) scope_fallback_guarded
    | inr (f, e) ↦ rw (e, family_or_scope) (family_guarded command f _ profile)
  ]

  -- Whatever the command, its declared scope and its profile, the decision is hard-denied or asks
  -- for a required capability or for one of an any-of group: no command is left without a guard.
  pub resolve_command_policy-guarded :
      is_guarded (resolve_command_policy casefold command scope profile) ≡ true
  unfolding resolve_command_policy
  resolve_command_policy-guarded = elim (Option-cases (lookup command exact_policies)) [
    | inl e ↦ ground (arith, family_or_scope_guarded)
    | inr (d, e) ↦ ground (arith, guarded_entry exact_policies command d exact_guarded e)
  ]

  -- A command of an unconditional deny family, in the mode of a request.
  pub hard_denied-effective_mode :
      (policy : PolicySnapshot) (extra : List Capability)
      → command_is_hard_denied command ≡ true
      → effective_mode (resolve_command_policy casefold command scope profile) policy extra ≡ deny
  unfolding resolve_command_policy effective_mode
  hard_denied-effective_mode policy extra h = rw h
