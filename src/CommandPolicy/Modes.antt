-- ===== src/CommandPolicy/Modes.antt =====
-- provider/command_policy.py: what `CommandDecision.effective_mode` grants.
use mathlib.Core.Bool.{or-true}
use mathlib.Core.List.{append_assoc, map-append}
use ma_provider_mcp.Prelude.{
  ◌≤◌, ◌≡◌, refl, sym, ap, ap₂, ◌∙◌, ◌≢◌, ◌↔◌, ◌⊎◌, inl, inr, Bool, true, false, not, ◌&&◌, ◌||◌,
  List, [], ◌∷◌, ◌++◌, map, arith, any, all, is_empty, Member, Member-append, Member-append_left,
  Member-append_right, any_witness, any_of_Member, all_at, all_of, all-map, any-map, all-append,
  is_empty-append, Bool-cases, and_split, or_split, if◌then◌else◌,
}
use ma_provider_mcp.Capability.{Capability}
use ma_provider_mcp.Policy.Mode.{
  PolicyMode, allow, same, same_iff, rank, combine-allow_test, combine_superset-le,
}
use ma_provider_mcp.Policy.Snapshot.{PolicySnapshot}
use ma_provider_mcp.CommandPolicy.Decision.{
  CommandDecision, alternative_mode, decision_modes, effective_mode,
}

-- The capabilities that a request needs, all of them, and whether it needs one at all.
abbrev pub needed : CommandDecision → List Capability → List Capability
needed d extra = d.required_capabilities ++ extra

abbrev pub allows : PolicySnapshot → Capability → Bool
allows policy c = same allow (policy.modes c)

-- The conditions under which a request runs with no prompt.
abbrev pub granted : CommandDecision → PolicySnapshot → List Capability → Bool
granted d policy extra =
    not d.hard_denied
    && (not (is_empty (needed d extra)) || not (is_empty d.alternative_capabilities))
    && all (allows policy) (needed d extra)
    && (is_empty d.alternative_capabilities || any (allows policy) d.alternative_capabilities)

alternative_allow : (ms : List PolicyMode) → same allow (alternative_mode ms) ≡ any (same allow) ms
unfolding alternative_mode
alternative_allow ms = ground arith

is_empty-map :
    (f : Capability → PolicyMode) (cs : List Capability) → is_empty (map f cs) ≡ is_empty cs
is_empty-map f [] = refl
is_empty-map f (c ∷ cs) = refl

group : PolicySnapshot → List Capability → List PolicyMode
group policy alternatives =
    if is_empty alternatives then [] else alternative_mode (map policy.modes alternatives) ∷ []

is_empty-group :
    (policy : PolicySnapshot) (cs : List Capability) → is_empty (group policy cs) ≡ is_empty cs
unfolding group
is_empty-group policy cs = ground arith

all-group :
    (policy : PolicySnapshot) (cs : List Capability)
    → all (same allow) (group policy cs) ≡ (is_empty cs || any (allows policy) cs)
unfolding group
all-group policy [] = refl
all-group policy (c ∷ cs) = ground (
  arith,
  alternative_allow (map policy.modes (c ∷ cs)),
  any-map (same allow) policy.modes (c ∷ cs),
)

module _ (d : CommandDecision) (policy : PolicySnapshot) (extra : List Capability) where
  is_empty-decision_modes :
      is_empty (decision_modes d policy extra)
      ≡ (is_empty (needed d extra) && is_empty d.alternative_capabilities)
  unfolding decision_modes group
  is_empty-decision_modes =
      is_empty-append (map policy.modes (needed d extra)) (group policy d.alternative_capabilities)
      ∙ ap₂ ◌&&◌ (is_empty-map policy.modes (needed d extra))
          (is_empty-group policy d.alternative_capabilities)

  all-decision_modes : all (same allow) (decision_modes d policy extra) ≡ (
      all (allows policy) (needed d extra)
      && (is_empty d.alternative_capabilities || any (allows policy) d.alternative_capabilities))
  unfolding decision_modes group
  all-decision_modes =
      all-append (same allow) (map policy.modes (needed d extra))
        (group policy d.alternative_capabilities)
      ∙ ap₂ ◌&&◌ (all-map (same allow) policy.modes (needed d extra))
          (all-group policy d.alternative_capabilities)

  effective-granted : same allow (effective_mode d policy extra) ≡ granted d policy extra
  unfolding effective_mode
  effective-granted = ground (
    arith,
    combine-allow_test (decision_modes d policy extra),
    is_empty-decision_modes,
    all-decision_modes,
  )

  -- A request may run with no prompt.
  pub record IsGranted : Type 0 where
    pub open_command : d.hard_denied ≡ false
    pub asked : (needed d extra ≢ []) ⊎ (d.alternative_capabilities ≢ [])
    pub all_allowed : (c : Capability) → Member c (needed d extra) → policy.modes c ≡ allow
    pub one_allowed :
        d.alternative_capabilities ≢ []
        → (c : Capability) × Member c d.alternative_capabilities × (policy.modes c ≡ allow)

nonempty : (cs : List Capability) → not (is_empty cs) ≡ true → cs ≢ []
nonempty [] h e = cc
nonempty (c ∷ cs) h e = cc

is_empty_of_ne : (cs : List Capability) → cs ≢ [] → is_empty cs ≡ false
is_empty_of_ne [] h = absurd (h refl)
is_empty_of_ne (c ∷ cs) h = refl

allowed :
    (policy : PolicySnapshot) (c : Capability) → allows policy c ≡ true → policy.modes c ≡ allow
allowed policy c h = sym ((same_iff allow (policy.modes c)).0 h)

allows_of :
    (policy : PolicySnapshot) (c : Capability) → policy.modes c ≡ allow → allows policy c ≡ true
allows_of policy c h = rw h

asked_nonempty :
    (cs ds : List Capability)
    → (not (is_empty cs) || not (is_empty ds)) ≡ true
    → (cs ≢ []) ⊎ (ds ≢ [])
asked_nonempty cs ds h = elim (or_split (not (is_empty cs)) (not (is_empty ds)) h) [
  | inl a ↦ inl (nonempty cs a)
  | inr b ↦ inr (nonempty ds b)
]

nonempty_asked :
    (cs ds : List Capability)
    → (cs ≢ []) ⊎ (ds ≢ [])
    → (not (is_empty cs) || not (is_empty ds)) ≡ true
nonempty_asked cs ds (inl a) = rw (is_empty_of_ne cs a)
nonempty_asked cs ds (inr b) = rw (is_empty_of_ne ds b) (or-true _)

alternative_witness :
    (policy : PolicySnapshot) (cs : List Capability)
    → (is_empty cs || any (allows policy) cs) ≡ true
    → cs ≢ []
    → (c : Capability) × Member c cs × (policy.modes c ≡ allow)
alternative_witness policy [] h n = absurd (n refl)
alternative_witness policy (c ∷ cs) h n =
    let (a, m, e) = any_witness (allows policy) (c ∷ cs) h in (a, m, allowed policy a e)

alternative_test :
    (policy : PolicySnapshot) (cs : List Capability)
    → (cs ≢ [] → (c : Capability) × Member c cs × (policy.modes c ≡ allow))
    → (is_empty cs || any (allows policy) cs) ≡ true
alternative_test policy [] h = refl
alternative_test policy (c ∷ cs) h =
    let (a, m, e) = h (nonempty (c ∷ cs) refl) in
    any_of_Member (allows policy) (c ∷ cs) m (allows_of policy a e)

module _ (d : CommandDecision) (policy : PolicySnapshot) (extra : List Capability) where
  granted-IsGranted : granted d policy extra ≡ true → IsGranted d policy extra
  granted-IsGranted h =
      let alternatives = d.alternative_capabilities in
      let (h3, one) = and_split _ (is_empty alternatives || any (allows policy) alternatives) h in
      let (h2, every) = and_split _ (all (allows policy) (needed d extra)) h3 in
      let (free, some_asked) = and_split (not d.hard_denied) _ h2 in
      record {
        open_command = ground arith;
        asked = asked_nonempty (needed d extra) alternatives some_asked;
        all_allowed = λ c m. allowed policy c (all_at (allows policy) (needed d extra) every m);
        one_allowed = alternative_witness policy alternatives one;
      }

  IsGranted-granted : IsGranted d policy extra → granted d policy extra ≡ true
  IsGranted-granted g = rw (
    g.open_command,
    nonempty_asked (needed d extra) d.alternative_capabilities g.asked,
    all_of (allows policy) (needed d extra) (λ c m. allows_of policy c (g.all_allowed c m)),
    alternative_test policy d.alternative_capabilities g.one_allowed,
  )

  -- A request may run with no prompt exactly when its command is not hard-denied, it asks for some
  -- capability, every required and request-derived capability is allowed, and of a non-empty any-of
  -- group at least one is allowed.
  pub effective_allow_iff : (effective_mode d policy extra ≡ allow) ↔ IsGranted d policy extra
  effective_allow_iff = (
    λ e. granted-IsGranted (sym (effective-granted d policy extra) ∙ ap (same allow) e),
    λ g. sym (
        (same_iff allow (effective_mode d policy extra)).0
          (effective-granted d policy extra ∙ IsGranted-granted g)),
  )

modes_of_more :
    (policy : PolicySnapshot) (d : CommandDecision) (extra more : List Capability) (m : PolicyMode)
    → Member m (decision_modes d policy extra)
    → Member m (decision_modes d policy (extra ++ more))
unfolding decision_modes group
modes_of_more policy d extra more m h =
    let f = policy.modes in
    let rest = group policy d.alternative_capabilities in
    let split_modes : map f (needed d (extra ++ more)) ≡ map f (needed d extra) ++ map f more =
      ap (map f) (sym (append_assoc d.required_capabilities extra more))
      ∙ map-append f (needed d extra) more in
    elim (Member-append m (map f (needed d extra)) rest h) [
      | inl l ↦
          Member-append_left m (map f (needed d (extra ++ more))) rest
            (rw split_modes (Member-append_left m (map f (needed d extra)) (map f more) l))
      | inr r ↦ Member-append_right m (map f (needed d (extra ++ more))) rest r
    ]

decision_modes_asked :
    (d : CommandDecision) (policy : PolicySnapshot) (extra : List Capability)
    → (needed d extra ≢ []) ⊎ (d.alternative_capabilities ≢ [])
    → is_empty (decision_modes d policy extra) ≡ false
decision_modes_asked d policy extra asked = ground (
  arith,
  is_empty-decision_modes d policy extra,
  nonempty_asked (needed d extra) d.alternative_capabilities asked,
)

-- Capabilities that a request adds to a decision which already asks for one never widen it: the
-- mode permits no more with them than without.
pub effective_extra-le :
    (d : CommandDecision) (policy : PolicySnapshot) (extra more : List Capability)
    → (needed d extra ≢ []) ⊎ (d.alternative_capabilities ≢ [])
    → rank (effective_mode d policy (extra ++ more)) ≤ rank (effective_mode d policy extra)
unfolding effective_mode decision_modes
effective_extra-le d policy extra more asked = elim (Bool-cases d.hard_denied) [
  | inl e ↦ rw e (omega arith)
  | inr e ↦ rw e (
      combine_superset-le (decision_modes d policy extra) (decision_modes d policy (extra ++ more))
        (decision_modes_asked d policy extra asked) (modes_of_more policy d extra more))
]
