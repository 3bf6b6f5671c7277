-- ===== src/Execution/Reasons.antt =====
-- provider/execution.py: what a confirmation prompt names.
use mathlib.Core.Bool.{and-false, true≢false}
use ma_provider_mcp.Prelude.{
  ◌≡◌, ◌≢◌, refl, sym, ap, ◌∙◌, ◌⊎◌, ◌↔◌, inl, inr, Bool, true, false, some, List, [], ◌∷◌, ◌++◌,
  map, is_empty, Member, Member-append, Member-append_left, Member-append_right, Bool-cases,
  if◌then◌else◌, is_empty-append,
}
use ma_provider_mcp.Capability.{Capability}
use ma_provider_mcp.Policy.Mode.{PolicyMode, allow, confirm, same}
use ma_provider_mcp.CommandPolicy.Decision.{CommandDecision}
use ma_provider_mcp.Execution.Invocation.{Invocation}
use ma_provider_mcp.Execution.Evidence.{
  or_reason, prompted, Reason, capability, impersonation, unknown, decision_mode, invocation_mode,
  decision_confirmed, confirmed_capabilities, confirmation_evidence,
}
use ma_provider_mcp.Execution.Confirming.{
  mode_of, test_of, confirming, confirming_nonempty, NeedsConfirmation, confirming_sound,
  confirming_complete,
}

or_reason_nonempty : (rs : List Reason) (r : Reason) → is_empty rs ≡ false → or_reason rs r ≡ rs
or_reason_nonempty [] r h = absurd (true≢false h)
or_reason_nonempty (q ∷ rs) r h = refl

or_reason_some : (rs : List Reason) (r : Reason) → or_reason rs r ≢ []
or_reason_some [] r e = cc
or_reason_some (q ∷ rs) r e = cc

prompted_confirm :
    (impersonating : Bool) (m : PolicyMode)
    → prompted impersonating m ≡ confirm
    → (impersonating ≡ true) ⊎ (m ≡ confirm)
prompted_confirm true m h = inl refl
prompted_confirm false m h = inr h

is_empty-reasons : (cs : List Capability) → is_empty (map capability cs) ≡ is_empty cs
is_empty-reasons [] = refl
is_empty-reasons (c ∷ cs) = refl

own_reason : Bool → List Reason
own_reason impersonating = if impersonating then impersonation ∷ [] else []

capability-injective : (c e : Capability) → capability c ≡ capability e → c ≡ e
capability-injective c e h = cc

reasons-Member :
    (c : Capability) (cs : List Capability)
    → Member (capability c) (map capability cs)
    → Member c cs
reasons-Member c [] m = absurd m
reasons-Member c (e ∷ cs) (inl q) = inl (capability-injective c e q)
reasons-Member c (e ∷ cs) (inr m) = inr (reasons-Member c cs m)

Member-reasons :
    (c : Capability) (cs : List Capability)
    → Member c cs
    → Member (capability c) (map capability cs)
Member-reasons c [] m = absurd m
Member-reasons c (e ∷ cs) (inl q) = inl (ap capability q)
Member-reasons c (e ∷ cs) (inr m) = inr (Member-reasons c cs m)

-- What stands in a list of capabilities and the impersonation.
capability_listed :
    (c : Capability) (cs : List Capability) (impersonating : Bool)
    → Member (capability c) (map capability cs ++ own_reason impersonating)
    → Member c cs
unfolding own_reason
capability_listed c cs true m = elim (Member-append (capability c) (map capability cs) _ m) [
  | inl l ↦ reasons-Member c cs l
  | inr r ↦ absurd (elim r [ inl q ↦ cc | inr k ↦ k ])
]
capability_listed c cs false m = elim (Member-append (capability c) (map capability cs) _ m) [
  | inl l ↦ reasons-Member c cs l
  | inr r ↦ absurd r
]

other_listed :
    (r : Reason) (cs : List Capability) (impersonating : Bool)
    → ((c : Capability) → r ≢ capability c)
    → Member r (map capability cs ++ own_reason impersonating)
    → (r ≡ impersonation) × (impersonating ≡ true)
unfolding own_reason
other_listed r (c ∷ cs) impersonating n (inl e) = absurd (n c e)
other_listed r (c ∷ cs) impersonating n (inr m) = other_listed r cs impersonating n m
other_listed r [] true n (inl e) = (e, refl)
other_listed r [] true n (inr m) = absurd m
other_listed r [] false n m = absurd m

module _ {Token User Args : Type 0} (invocation : Invocation Token User Args) (impersonating : Bool)
    (d : CommandDecision) (h : invocation.entry.decision ≡ some d) where
  confirms : List Capability
  confirms = confirming d invocation.policy invocation.preflight.additional_required

  -- What the prompt lists, in the mode confirm.
  listed : List Reason
  listed = map capability confirms ++ own_reason impersonating

  listed_nonempty : invocation_mode invocation impersonating ≡ confirm → is_empty listed ≡ false
  unfolding listed confirms own_reason invocation_mode decision_mode
  listed_nonempty c = elim (prompted_confirm impersonating _ (rw (h, invocation_mode) at c)) [
    | inl e ↦
        rw (is_empty-append (map capability confirms) (own_reason impersonating), e) (and-false _)
    | inr e ↦ rw (
      is_empty-append (map capability confirms) (own_reason impersonating),
      is_empty-reasons confirms,
      confirming_nonempty d invocation.policy invocation.preflight.additional_required e,
    )
  ]

  evidence-listed :
      invocation_mode invocation impersonating ≡ confirm
      → confirmation_evidence invocation impersonating ≡ listed
  unfolding listed confirms own_reason confirmation_evidence confirmed_capabilities
      decision_confirmed
  evidence-listed c =
      rw (c, h, confirmed_capabilities) (or_reason_nonempty listed _ (listed_nonempty c))

  -- Where the mode of the invocation is confirm, its prompt names exactly what needs one: a
  -- capability if and only if its mode is confirm and the request needs it, or it stands in an
  -- any-of group of which none is allowed; the impersonation if and only if there is one; and never
  -- the reason `unknown`.
  pub confirmation_evidence-exact :
      invocation_mode invocation impersonating ≡ confirm
      → ((c : Capability)
          → Member (capability c) (confirmation_evidence invocation impersonating)
            ↔ NeedsConfirmation invocation.policy d invocation.preflight.additional_required c)
        × (Member impersonation (confirmation_evidence invocation impersonating)
            ↔ (impersonating ≡ true))
        × ¬ Member unknown (confirmation_evidence invocation impersonating)
  unfolding listed confirms own_reason
  confirmation_evidence-exact m = rw (evidence-listed m) (
    λ c. (
      λ k. confirming_sound d invocation.policy _ c (capability_listed c confirms impersonating k),
      λ n.
          Member-append_left (capability c) (map capability confirms) _
            (Member-reasons c confirms (confirming_complete d invocation.policy _ c n)),
    ),
    (
      λ k. (other_listed impersonation confirms impersonating (λ c e. cc) k).1,
      λ e. Member-append_right impersonation (map capability confirms) _ (rw e (inl refl)),
    ),
    λ k. let e = (other_listed unknown confirms impersonating (λ c q. cc) k).0 in cc,
  )

-- A prompt is due exactly where the mode is not allow: the evidence that the caller has to confirm
-- is empty if and only if the invocation may run with no prompt.
pub confirmation_evidence-empty :
    {Token User Args : Type 0} (invocation : Invocation Token User Args) (impersonating : Bool)
    → (confirmation_evidence invocation impersonating ≡ [])
      ↔ (invocation_mode invocation impersonating ≡ allow)
unfolding confirmation_evidence
confirmation_evidence-empty invocation impersonating =
    elim (Bool-cases (same allow (invocation_mode invocation impersonating))) [
      | inl e ↦ (λ z. mode_of allow _ e, λ m. rw e)
      | inr e ↦ (
        λ z. absurd (or_reason_some _ _ (rw e at z)),
        λ m. absurd (true≢false (sym (test_of allow _ m) ∙ e)),
      )
    ]
