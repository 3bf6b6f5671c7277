-- ===== src/Execution/Denied.antt =====
-- provider/execution.py: the capability that an audit record or a refusal names.
use Prim.Native.String.{compare}
use Prim.Native.Nat.{Ordering}
use ma_provider_mcp.Prelude.{
  ◌≡◌, sym, subst, inl, inr, not, ◌&&◌, Option, none, some, List, [], ◌∷◌, all, all_at, is_empty,
  Member, Bool-cases, and_split, if◌then◌else◌,
}
use ma_provider_mcp.Capability.{Capability, value}
use ma_provider_mcp.Policy.Mode.{PolicyMode, deny, same, same_iff}
use ma_provider_mcp.Policy.Snapshot.{PolicySnapshot}
use ma_provider_mcp.CommandPolicy.Decision.{CommandDecision, CommandPreflight}
use ma_provider_mcp.Execution.Invocation.{Invocation}
use ma_provider_mcp.Execution.Evidence.{
  Reason, capability, unknown, insert_sorted, sorted, first_with, has_mode, required_of,
  denied_capability, or_capability, first_capability,
}

abbrev head_reason : List Capability → Reason → Reason
head_reason [] other = other
head_reason (c ∷ cs) other = capability c

-- the least by (denied, text): the first that is not denied, or the first
abbrev least_alternative : PolicySnapshot → List Capability → List Capability → Reason
least_alternative policy [] all_sorted = head_reason all_sorted unknown
least_alternative policy (c ∷ cs) all_sorted =
    let rest = least_alternative policy cs all_sorted in
    if same deny (policy.modes c) then rest else capability c

unfoldable pub decision_audit_capability : CommandDecision → PolicySnapshot → Reason
decision_audit_capability d policy =
    let alternatives = sorted d.alternative_capabilities in
    head_reason (sorted d.required_capabilities)
      (least_alternative policy alternatives alternatives)

abbrev reason_of : Option Capability → Reason → Reason
reason_of none other = other
reason_of (some c) other = capability c

unfoldable pub invocation_audit_capability :
    {Token User Args : Type 0} → Invocation Token User Args → Reason
invocation_audit_capability invocation = elim invocation.entry.decision [
  | none ↦ unknown
  | some d ↦ reason_of (denied_capability d invocation.preflight invocation.policy) (
      head_reason (sorted (required_of d invocation))
        (decision_audit_capability d invocation.policy))
]

placed :
    (o : Ordering) (a c d : Capability) (rest ds : List Capability)
    → Member a (elim o [ Ordering.gt ↦ d ∷ rest | _ ↦ c ∷ d ∷ ds ])
    → (Member a rest → Member a (c ∷ ds))
    → Member a (c ∷ d ∷ ds)
placed Ordering.lt a c d rest ds m move = m
placed Ordering.eq a c d rest ds m move = m
placed Ordering.gt a c d rest ds (inl e) move = inr (inl e)
placed Ordering.gt a c d rest ds (inr m) move = elim (move m) [
  | inl e ↦ inl e
  | inr k ↦ inr (inr k)
]

insert_sorted-Member :
    (a c : Capability) (cs : List Capability) → Member a (insert_sorted c cs) → Member a (c ∷ cs)
insert_sorted-Member a c [] m = m
insert_sorted-Member a c (d ∷ ds) m =
    placed (compare (value c) (value d)) a c d (insert_sorted c ds) ds m
      (insert_sorted-Member a c ds)

sorted-Member : (a : Capability) (cs : List Capability) → Member a (sorted cs) → Member a cs
unfolding sorted
sorted-Member a [] m = m
sorted-Member a (c ∷ cs) m = elim (insert_sorted-Member a c (sorted cs) m) [
  | inl e ↦ inl e
  | inr k ↦ inr (sorted-Member a cs k)
]

some-injective : (c d : Capability) → Path (Option Capability) (some c) (some d) → c ≡ d
some-injective c d h = cc

first_with_mode :
    (mode : PolicyMode) (policy : PolicySnapshot) (cs : List Capability) (c : Capability)
    → first_with mode policy cs ≡ some c
    → policy.modes c ≡ mode
unfolding first_with
first_with_mode mode policy [] c h = absurd cc
first_with_mode mode policy (d ∷ ds) c h = elim (Bool-cases (same mode (policy.modes d))) [
  | inl e ↦
      let q : some d ≡ some c = rw e at h in
      subst (λ t. policy.modes t ≡ mode) (some-injective d c q)
        (sym ((same_iff mode (policy.modes d)).0 e))
  | inr e ↦ first_with_mode mode policy ds c (rw e at h)
]

first-Member : (cs : List Capability) (c : Capability) → first_capability cs ≡ some c → Member c cs
first-Member [] c h = absurd cc
first-Member (d ∷ cs) c h = inl (sym (some-injective d c h))

first_denied :
    (policy : PolicySnapshot) (cs : List Capability) (c : Capability)
    → (if not (is_empty cs) && all (has_mode deny policy) cs
        then first_capability (sorted cs)
        else none)
      ≡ some c
    → policy.modes c ≡ deny
first_denied policy cs c h =
    elim (Bool-cases (not (is_empty cs) && all (has_mode deny policy) cs)) [
      | inl e ↦
          let q : first_capability (sorted cs) ≡ some c = rw e at h in
          sym (
            (same_iff deny (policy.modes c)).0 (
              all_at (has_mode deny policy) cs (and_split (not (is_empty cs)) _ e).1
                (sorted-Member c cs (first-Member (sorted cs) c q))))
      | inr e ↦ absurd (let q : none ≡ some c = rw e at h in absurd cc)
    ]

or_denied :
    (policy : PolicySnapshot) (o p : Option Capability) (c : Capability)
    → ((a : Capability) → o ≡ some a → policy.modes a ≡ deny)
    → ((a : Capability) → p ≡ some a → policy.modes a ≡ deny)
    → or_capability o p ≡ some c
    → policy.modes c ≡ deny
or_denied policy none p c f g h = g c h
or_denied policy (some a) p c f g h = f c h

-- The capability that a refusal names is one that the policy denies, whether a request adds it, its
-- command requires it, or it stands in an any-of group.
pub denied_capability-denies :
    (d : CommandDecision) (preflight : CommandPreflight) (policy : PolicySnapshot) (c : Capability)
    → denied_capability d preflight policy ≡ some c
    → policy.modes c ≡ deny
unfolding denied_capability
denied_capability-denies d preflight policy c h =
    or_denied policy (first_with deny policy (sorted preflight.additional_required)) _ c
      (first_with_mode deny policy (sorted preflight.additional_required))
      (λ a.
        or_denied policy (first_with deny policy (sorted d.required_capabilities)) _ a
          (first_with_mode deny policy (sorted d.required_capabilities))
          (first_denied policy d.alternative_capabilities))
      h
