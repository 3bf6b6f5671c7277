-- ===== src/CommandPolicy/Deletions.antt =====
-- provider/command_policy.py: what a destructive command of a family asks for.
use ma_provider_mcp.Prelude.{
  ◌≡◌, refl, subst, ◌⊎◌, inl, inr, String, true, false, Option, none, some, arith, Member, is_empty,
  lookup, Bool-cases, Option-cases,
}
use ma_provider_mcp.Capability.{Capability, system_admin}
use ma_provider_mcp.CommandPolicy.Decision.{write, delete, FamilyPolicy, CommandProfile}
use ma_provider_mcp.CommandPolicy.Exact.{command_is_hard_denied, exact_policies}
use ma_provider_mcp.CommandPolicy.Scope.{Scope, matching_family, is_destructive, operation}
use ma_provider_mcp.CommandPolicy.Resolve.{
  column_of, required_capabilities, family_decision, family_or_scope, resolve_command_policy,
  is_system,
}
use ma_provider_mcp.CommandPolicy.Columns.{column_of-Member, column_of-none, Lacks}

module _ (casefold : String → String) (command : String) (scope : Scope)
    (profile : Option CommandProfile) where
  -- The operation of a command with a destructive word, in a family that is not read-only.
  destructive_operation :
      (f : FamilyPolicy)
      → f.readonly ≡ false
      → is_destructive casefold command ≡ true
      → operation casefold command scope profile (some f) ≡ delete
  unfolding operation
  destructive_operation f r w = rw (r, w) refl

-- The family's delete column or, only where it has none, its write column.
abbrev pub DeletesWith : FamilyPolicy → Capability → Type 0
DeletesWith f c =
    Member (delete, c) f.capabilities ⊎ (Lacks f delete × Member (write, c) f.capabilities)

required-delete :
    (f : FamilyPolicy) (c : Capability)
    → Member c (required_capabilities f delete)
    → DeletesWith f c
unfolding required_capabilities
required-delete f c m = elim (Option-cases (column_of delete f.capabilities)) [
  | inl e ↦ elim (Option-cases (column_of write f.capabilities)) [
    | inl n ↦ absurd (ground arith)
    | inr (c', n) ↦ inr (
      λ d. column_of-none delete f.capabilities d e,
      column_of-Member write f.capabilities c (ground arith),
    )
  ]
  | inr (c', e) ↦ inl (column_of-Member delete f.capabilities c (ground arith))
]

-- A capability that may guard a destructive command of a family: of a command of the system, the
-- system administrator's.
abbrev pub GuardsDeletion : String → FamilyPolicy → Capability → Type 0
GuardsDeletion command f c = ((is_system command ≡ true) × (c ≡ system_admin)) ⊎ DeletesWith f c

family_decision-delete :
    (command : String) (f : FamilyPolicy) (profile : Option CommandProfile) (c : Capability)
    → Member c (family_decision command f delete profile).required_capabilities
    → Member c (required_capabilities f delete)
unfolding family_decision
family_decision-delete command f profile c m =
    elim (Bool-cases (is_empty (required_capabilities f delete))) [
      | inl e ↦ absurd (ground arith)
      | inr e ↦ rw e at m
    ]

module _ (casefold : String → String) (command : String) (scope : Scope)
    (profile : Option CommandProfile) where
  family_or_scope-delete :
      (f : FamilyPolicy) (c : Capability)
      → matching_family command ≡ some f
      → f.readonly ≡ false
      → is_destructive casefold command ≡ true
      → Member c (family_or_scope casefold command scope profile).required_capabilities
      → DeletesWith f c
  unfolding family_or_scope
  family_or_scope-delete f c e r w m =
      let o = destructive_operation casefold command scope profile f r w in
      required-delete f c (
        family_decision-delete command f profile c (
          subst (λ x. Member c (family_decision command f x profile).required_capabilities) o
            (rw (e, family_or_scope) at m)))

  -- Take a command with a destructive word, whose family is not read-only, and which has no exact
  -- policy. Whatever its declared scope and its profile say, each capability that it asks for is the
  -- family's delete column or, only where the family has none, its write column; or the system
  -- administrator's, where the command is one of the system.
  pub destructive-guards :
      (f : FamilyPolicy) (c : Capability)
      → lookup command exact_policies ≡ none
      → matching_family command ≡ some f
      → f.readonly ≡ false
      → is_destructive casefold command ≡ true
      → Member c (resolve_command_policy casefold command scope profile).required_capabilities
      → GuardsDeletion command f c
  unfolding resolve_command_policy
  destructive-guards f c n e r w m =
      let known = family_or_scope-delete f c e r w in
      elim (Bool-cases (command_is_hard_denied command)) [
        | inl h ↦ absurd (rw h at m)
        | inr h ↦ elim (Bool-cases (is_system command)) [
          | inl s ↦ inl (s, only_system (rw (h, n, s) at m))
          | inr s ↦ inr (known (rw (h, n, s) at m))
        ]
      ]
    where
      only_system : (c ≡ system_admin) ⊎ ⊥ → c ≡ system_admin
      only_system (inl q) = q
      only_system (inr q) = absurd q
