-- ===== src/CommandPolicy/Columns.antt =====
-- provider/command_policy.py: the column of a family or of a scope that guards a command.
use mathlib.Core.Bool.{true≢false}
use ma_provider_mcp.Prelude.{
  ◌≡◌, refl, sym, ap, ◌∙◌, subst, is_some, ◌⊎◌, inl, inr, String, true, false, Option, none, some,
  List, [], ◌∷◌, arith, Member, is_empty, Bool-cases, Option-cases,
}
use ma_provider_mcp.Capability.{Capability}
use ma_provider_mcp.CommandPolicy.Decision.{
  Operation, read, control, write, delete, system, CommandDecision, FamilyPolicy, CommandProfile,
}
use ma_provider_mcp.CommandPolicy.Scope.{Scope, first_column, scope_family, operation}
use ma_provider_mcp.CommandPolicy.Resolve.{
  same_operation, column_of, fallback_capability, scope_capability, fallback_decision,
  scope_fallback_policy,
}

same_operation-eq : (o p : Operation) → same_operation o p ≡ true → o ≡ p
same_operation-eq read p h = ground arith
same_operation-eq _ p h = ground arith

pair_path :
    {o p : Operation} {c c' : Capability}
    → o ≡ p
    → some c ≡ some c'
    → ◌≡◌ {A = Operation × Capability} (o, c) (p, c')
pair_path q r = ground arith

pub column_of-Member :
    (o : Operation) (columns : List (Operation × Capability)) (c : Capability)
    → column_of o columns ≡ some c
    → Member (o, c) columns
column_of-Member o [] c h = absurd (ground arith)
column_of-Member o ((p, c') ∷ columns) c h = elim (Bool-cases (same_operation p o)) [
  | inl e ↦ inl (pair_path (sym (same_operation-eq p o e)) (sym (rw e at h)))
  | inr e ↦ inr (column_of-Member o columns c (rw e at h))
]

pair_path-eq :
    {o p : Operation} {c c' : Capability} → ◌≡◌ {A = Operation × Capability} (o, c) (p, c') → o ≡ p
pair_path-eq q = ap (λ x. x.0) q

same_operation_refl : (o p : Operation) → o ≡ p → same_operation p o ≡ true
same_operation_refl read p h = ground arith
same_operation_refl _ p h = ground arith

pub column_of-none :
    (o : Operation) (columns : List (Operation × Capability)) (c : Capability)
    → column_of o columns ≡ none
    → Member (o, c) columns
    → ⊥
column_of-none o [] c h m = m
column_of-none o ((p, c') ∷ columns) c h m = elim (Bool-cases (same_operation p o)) [
  | inl e ↦ let z : some c' ≡ none = rw e at h in absurd cc
  | inr e ↦ elim m [
    | inl q ↦ true≢false (sym (same_operation_refl o p (pair_path-eq q)) ∙ e)
    | inr n ↦ column_of-none o columns c (rw e at h) n
  ]
]

-- No column of the family is the operation's own.
abbrev pub Lacks : FamilyPolicy → Operation → Type 0
Lacks f o = (c : Capability) → Member (o, c) f.capabilities → ⊥

-- The column that guards a fallback: the operation's own, and where there is none the first of the
-- family, which is a read column only for a read.
abbrev pub GuardingColumn : FamilyPolicy → Operation → Capability → Type 0
GuardingColumn f o c =
    Member (o, c) f.capabilities
    ⊎ (Lacks f o × ((p : Operation) × (first_column f ≡ some (p, c)) × (p ≡ read → o ≡ read)))

scope_capability_lem :
    (o p : Operation) (c' c : Capability)
    → scope_capability o (some (p, c')) ≡ some c
    → (c' ≡ c) × (p ≡ read → o ≡ read)
scope_capability_lem read p c' c h = (ground arith, λ _. refl)
scope_capability_lem _ read c' c h = absurd (ground arith)
scope_capability_lem _ _ c' c h = (ground arith, λ q. ground arith)

first_column_guards :
    (o : Operation) (f : FamilyPolicy) (c : Capability)
    → column_of o f.capabilities ≡ none
    → scope_capability o (first_column f) ≡ some c
    → GuardingColumn f o c
first_column_guards o f c lacks h = go (first_column f) refl h
  where
    go :
        (x : Option (Operation × Capability))
        → first_column f ≡ x
        → scope_capability o x ≡ some c
        → GuardingColumn f o c
    go none e q = absurd (ground arith)
    go (some (p, c')) e q =
        let (same_c, no_read) = scope_capability_lem o p c' c q in
        inr (
          λ d. column_of-none o f.capabilities d lacks,
          (p, subst (λ x. first_column f ≡ some (p, x)) same_c e, no_read),
        )

fallback_capability-GuardingColumn :
    (o : Operation) (f : FamilyPolicy) (c : Capability)
    → fallback_capability o f ≡ some c
    → GuardingColumn f o c
unfolding fallback_capability
fallback_capability-GuardingColumn o f c h = elim (Option-cases (column_of o f.capabilities)) [
  | inl e ↦ first_column_guards o f c e (rw e at h)
  | inr (c', e) ↦ inl (column_of-Member o f.capabilities c (ground arith))
]

-- Where the operation has a column, or the first column is no read column, the fallback asks for one.
fallback_capability-own :
    (o : Operation) (f : FamilyPolicy) (c : Capability)
    → Member (o, c) f.capabilities
    → is_some (fallback_capability o f) ≡ true
unfolding fallback_capability
fallback_capability-own o f c m = elim (Option-cases (column_of o f.capabilities)) [
  | inl e ↦ absurd (column_of-none o f.capabilities c e m)
  | inr (c', e) ↦ rw e
]

scope_capability-given :
    (o p : Operation) (c : Capability)
    → (p ≡ read → o ≡ read)
    → is_some (scope_capability o (some (p, c))) ≡ true
scope_capability-given read read c h = refl
scope_capability-given read control c h = refl
scope_capability-given read write c h = refl
scope_capability-given read delete c h = refl
scope_capability-given read system c h = refl
scope_capability-given control read c h = let z = h refl in absurd cc
scope_capability-given control control c h = refl
scope_capability-given control write c h = refl
scope_capability-given control delete c h = refl
scope_capability-given control system c h = refl
scope_capability-given write read c h = let z = h refl in absurd cc
scope_capability-given write control c h = refl
scope_capability-given write write c h = refl
scope_capability-given write delete c h = refl
scope_capability-given write system c h = refl
scope_capability-given delete read c h = let z = h refl in absurd cc
scope_capability-given delete control c h = refl
scope_capability-given delete write c h = refl
scope_capability-given delete delete c h = refl
scope_capability-given delete system c h = refl
scope_capability-given system read c h = let z = h refl in absurd cc
scope_capability-given system control c h = refl
scope_capability-given system write c h = refl
scope_capability-given system delete c h = refl
scope_capability-given system system c h = refl

fallback_capability-first :
    (o p : Operation) (f : FamilyPolicy) (c : Capability)
    → first_column f ≡ some (p, c)
    → (p ≡ read → o ≡ read)
    → is_some (fallback_capability o f) ≡ true
unfolding fallback_capability
fallback_capability-first o p f c e h = elim (Option-cases (column_of o f.capabilities)) [
  | inl n ↦ rw (n, e) (scope_capability-given o p c h)
  | inr (c', n) ↦ rw n
]

fallback_capability-reached :
    (o : Operation) (f : FamilyPolicy) (c : Capability)
    → GuardingColumn f o c
    → is_some (fallback_capability o f) ≡ true
fallback_capability-reached o f c (inl m) = fallback_capability-own o f c m
fallback_capability-reached o f c (inr (_, (p, e, h))) = fallback_capability-first o p f c e h

-- What a fallback decision owes to the scope that it was made from.
pub record Falls (f : FamilyPolicy) (o : Operation) (d : CommandDecision) : Type 0 where
  pub guards : (c : Capability) → Member c d.required_capabilities → GuardingColumn f o c
  pub reaches : (c : Capability) → GuardingColumn f o c → is_empty d.required_capabilities ≡ false
  pub closed : is_empty d.required_capabilities ≡ d.hard_denied

fallback_decision-Falls :
    (f : FamilyPolicy) (o : Operation) (profile : Option CommandProfile)
    → Falls f o (fallback_decision o (fallback_capability o f) profile)
fallback_decision-Falls f o profile = go (fallback_capability o f) refl
  where
    go :
        (x : Option Capability)
        → fallback_capability o f ≡ x
        → Falls f o (fallback_decision o x profile)
    go none e =
        unfold fallback_decision in
        record {
          guards = λ c m. absurd m;
          reaches =
              λ c g. absurd (true≢false (sym (fallback_capability-reached o f c g) ∙ ap is_some e));
          closed = refl;
        }
    go (some c) e =
        unfold fallback_decision in
        record {
          guards = λ c' m. elim m [
            | inl q ↦ fallback_capability-GuardingColumn o f c' (rw q e)
            | inr n ↦ absurd n
          ];
          reaches = λ c' g. refl;
          closed = refl;
        }

module _ (casefold : String → String) (command : String) (scope : Scope)
    (profile : Option CommandProfile) where
  -- A command that falls back to its scope is hard-denied where the scope has no family. Where it has
  -- one, each capability asked for is the family's column for the command's operation or, only where
  -- the family has none, the family's first column, and a read column then only for a read; where
  -- such a column exists it asks for some capability, and it is hard-denied exactly when it asks
  -- for none.
  pub scope_fallback-guards :
      (scope_family casefold scope ≡ none
        → (scope_fallback_policy casefold command scope profile).hard_denied ≡ true)
      × ((f : FamilyPolicy)
          → scope_family casefold scope ≡ some f
          → Falls f
              (operation casefold command scope profile (some f))
              (scope_fallback_policy casefold command scope profile))
  unfolding scope_fallback_policy
  scope_fallback-guards = (
    λ e. rw (e, scope_fallback_policy) refl,
    λ f e. rw (e, scope_fallback_policy) (fallback_decision-Falls f _ profile),
  )
