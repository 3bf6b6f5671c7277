-- ===== src/Execution/Confirming.antt =====
-- provider/execution.py: the capabilities that need a confirmation.
use mathlib.Core.Bool.{and-false, true≢false}
use ma_provider_mcp.Prelude.{
  ◌≡◌, ◌≢◌, refl, sym, ◌∙◌, ◌⊎◌, inl, inr, Bool, true, false, ◌||◌, List, [], ◌∷◌, ◌++◌, map, arith,
  any, filter, is_empty, Member, Member-append, Member-append_left, Member-append_right,
  filter-Member, Member-filter, any_witness, any-map, any_of_Member, Bool-cases, or_split,
  if◌then◌else◌, is_empty-append,
}
use ma_provider_mcp.Capability.{Capability}
use ma_provider_mcp.Policy.Mode.{PolicyMode, allow, confirm, same, same_iff, combine_policy_modes}
use ma_provider_mcp.Policy.Snapshot.{PolicySnapshot}
use ma_provider_mcp.CommandPolicy.Decision.{
  CommandDecision, alternative_mode, decision_modes, effective_mode,
}
use ma_provider_mcp.Execution.Evidence.{has_mode, open_alternatives}

-- the mode as a test
pub mode_of : (m n : PolicyMode) → same m n ≡ true → n ≡ m
mode_of m n h = sym ((same_iff m n).0 h)

pub test_of : (m n : PolicyMode) → n ≡ m → same m n ≡ true
test_of m n h = (same_iff m n).1 (sym h)

-- confirm, of a combination, needs a confirm in the list
any-append {ℓ} :
    {A : Type ℓ} (p : A → Bool) (xs ys : List A) → any p (xs ++ ys) ≡ (any p xs || any p ys)
any-append p [] ys = refl
any-append p (x ∷ xs) ys = ground (arith, any-append p xs ys)

combine-confirm :
    (ms : List PolicyMode) → combine_policy_modes ms ≡ confirm → any (same confirm) ms ≡ true
unfolding combine_policy_modes
combine-confirm ms h = ground arith

confirm_modes :
    (d : CommandDecision) (policy : PolicySnapshot) (extra : List Capability)
    → effective_mode d policy extra ≡ confirm
    → any (same confirm) (decision_modes d policy extra) ≡ true
unfolding effective_mode decision_modes
confirm_modes d policy extra h = elim (Bool-cases d.hard_denied) [
  | inl e ↦ absurd (ground arith)
  | inr e ↦ combine-confirm (decision_modes d policy extra) (rw e at h)
]

-- The confirm-mode capabilities among those that a request needs.
abbrev pub confirming : CommandDecision → PolicySnapshot → List Capability → List Capability
confirming d policy extra =
    filter (has_mode confirm policy) (d.required_capabilities ++ extra)
    ++ filter (has_mode confirm policy) (open_alternatives d policy)

nonempty_of_any :
    (p : Capability → Bool) (cs : List Capability)
    → any p cs ≡ true
    → is_empty (filter p cs) ≡ false
nonempty_of_any p [] h = ground arith
nonempty_of_any p (c ∷ cs) h = ground (arith, nonempty_of_any p cs)

group_confirm :
    (policy : PolicySnapshot) (cs : List Capability)
    → any (same confirm) (if is_empty cs then [] else alternative_mode (map policy.modes cs) ∷ [])
      ≡ true
    → (any (has_mode allow policy) cs ≡ false) × (any (has_mode confirm policy) cs ≡ true)
unfolding alternative_mode
group_confirm policy cs h =
    ground (arith, any-map (same allow) policy.modes cs, any-map (same confirm) policy.modes cs)

open_of_closed :
    (d : CommandDecision) (policy : PolicySnapshot)
    → any (has_mode allow policy) d.alternative_capabilities ≡ false
    → open_alternatives d policy ≡ d.alternative_capabilities
open_of_closed d policy h = rw h

pub confirming_nonempty :
    (d : CommandDecision) (policy : PolicySnapshot) (extra : List Capability)
    → effective_mode d policy extra ≡ confirm
    → is_empty (confirming d policy extra) ≡ false
unfolding decision_modes
confirming_nonempty d policy extra h =
    let needs = d.required_capabilities ++ extra in
    let alternatives = d.alternative_capabilities in
    let p = has_mode confirm policy in
    let split_empty = is_empty-append (filter p needs) (filter p (open_alternatives d policy)) in
    elim (or_split (any (same confirm) (map policy.modes needs)) _ (
      sym (any-append (same confirm) (map policy.modes needs) _)
      ∙ confirm_modes d policy extra h)) [
        | inl a ↦ rw (
          split_empty,
          nonempty_of_any p needs (sym (any-map (same confirm) policy.modes needs) ∙ a),
        )
        | inr b ↦
            let (closed, asked) = group_confirm policy alternatives b in
            rw (split_empty, open_of_closed d policy closed, nonempty_of_any p alternatives asked)
              (and-false _)
      ]

-- A capability that a prompt has to name: its mode is confirm, and the request needs it, or it is
-- one of an any-of group of which none is allowed.
pub record NeedsConfirmation (policy : PolicySnapshot) (d : CommandDecision)
    (extra : List Capability) (c : Capability) : Type 0 where
  pub mode : policy.modes c ≡ confirm
  pub asked :
      Member c (d.required_capabilities ++ extra)
      ⊎ (Member c d.alternative_capabilities
          × ((a : Capability) → Member a d.alternative_capabilities → policy.modes a ≢ allow))

module _ (d : CommandDecision) (policy : PolicySnapshot) where
  open_sound :
      (c : Capability)
      → Member c (open_alternatives d policy)
      → Member c d.alternative_capabilities
        × ((a : Capability) → Member a d.alternative_capabilities → policy.modes a ≢ allow)
  open_sound c m = elim (Bool-cases (any (has_mode allow policy) d.alternative_capabilities)) [
    | inl e ↦ absurd (rw e at m)
    | inr e ↦ (
      rw e at m,
      λ a k q. true≢false (
          sym
            (any_of_Member (has_mode allow policy) d.alternative_capabilities k (test_of allow _ q))
          ∙ e),
    )
  ]

  open_complete :
      (c : Capability)
      → Member c d.alternative_capabilities
      → ((a : Capability) → Member a d.alternative_capabilities → policy.modes a ≢ allow)
      → Member c (open_alternatives d policy)
  open_complete c m closed =
      elim (Bool-cases (any (has_mode allow policy) d.alternative_capabilities)) [
        | inl e ↦
            let (a, k, q) = any_witness (has_mode allow policy) d.alternative_capabilities e in
            absurd (closed a k (mode_of allow (policy.modes a) q))
        | inr e ↦ rw e m
      ]

  module _ (extra : List Capability) (c : Capability) where
    pub confirming_sound : Member c (confirming d policy extra) → NeedsConfirmation policy d extra c
    confirming_sound m =
        elim (Member-append c (filter (has_mode confirm policy) (d.required_capabilities ++ extra))
          _ m) [
            | inl l ↦
                let (k, q) = filter-Member c _ (d.required_capabilities ++ extra) l in
                record { mode = mode_of confirm (policy.modes c) q; asked = inl k }
            | inr r ↦
                let (k, q) = filter-Member c _ (open_alternatives d policy) r in
                record { mode = mode_of confirm (policy.modes c) q; asked = inr (open_sound c k) }
          ]

    pub confirming_complete :
        NeedsConfirmation policy d extra c → Member c (confirming d policy extra)
    confirming_complete n =
        let needs = filter (has_mode confirm policy) (d.required_capabilities ++ extra) in
        let opened = filter (has_mode confirm policy) (open_alternatives d policy) in
        elim n.asked [
          | inl k ↦
              Member-append_left c needs opened
                (Member-filter c _ (d.required_capabilities ++ extra) k (test_of confirm _ n.mode))
          | inr (k, closed) ↦ Member-append_right c needs opened (
              Member-filter c _ (open_alternatives d policy) (open_complete c k closed)
                (test_of confirm _ n.mode))
        ]
