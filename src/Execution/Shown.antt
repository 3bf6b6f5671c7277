-- ===== src/Execution/Shown.antt =====
-- provider/execution.py: `_catalog_mode`, what the catalog shows against what an invocation asks.
use mathlib.Core.Bool.{true≢false}
use ma_provider_mcp.Prelude.{
  ◌≡◌, ◌≢◌, refl, ap, ◌∙◌, inl, inr, Bool, true, false, ◌||◌, ◌&&◌, some, List, [], ◌∷◌, ◌++◌,
  arith, any, map, is_empty, Member, Member-append, Bool-cases, if◌then◌else◌,
}
use ma_provider_mcp.Capability.{Capability}
use ma_provider_mcp.Policy.Mode.{PolicyMode, deny, allow, confirm, same, combine_policy_modes}
use ma_provider_mcp.Policy.Snapshot.{PolicySnapshot}
use ma_provider_mcp.CommandPolicy.Decision.{CommandDecision, decision_modes, effective_mode}
use ma_provider_mcp.CommandPolicy.Modes.{effective_allow_iff}
use ma_provider_mcp.Execution.Invocation.{DynamicEntry, Invocation}
use ma_provider_mcp.Execution.Evidence.{
  prompted, decision_mode, invocation_mode, shown_as_confirm, catalog_mode,
}
use ma_provider_mcp.Execution.Confirming.{
  test_of, confirming, confirming_nonempty, confirming_sound,
}

shown_allow :
    (m : PolicyMode) (shown : Bool)
    → (if same allow m && shown then confirm else m) ≡ allow
    → (m ≡ allow) × (shown ≡ false)
shown_allow m shown h = ground arith

-- An entry that is shown with allow: its decision grants it, and nothing shows a confirm.
catalog_allow :
    (entry : DynamicEntry) (d : CommandDecision) (policy : PolicySnapshot)
    → entry.decision ≡ some d
    → catalog_mode entry policy ≡ allow
    → (effective_mode d policy [] ≡ allow) × (shown_as_confirm entry d policy ≡ false)
unfolding catalog_mode
catalog_allow entry d policy h c = shown_allow _ _ (rw (h, catalog_mode) at c)

first_of_nonempty : (cs : List Capability) → is_empty cs ≡ false → (c : Capability) × Member c cs
first_of_nonempty [] h = absurd (true≢false h)
first_of_nonempty (c ∷ cs) h = (c, inl refl)

Member-append_nil : (c : Capability) (cs : List Capability) → Member c cs → Member c (cs ++ [])
Member-append_nil c [] m = m
Member-append_nil c (x ∷ cs) (inl e) = inl e
Member-append_nil c (x ∷ cs) (inr m) = inr (Member-append_nil c cs m)

occupied : (c : Capability) (cs : List Capability) → Member c cs → cs ≢ []
occupied c [] m e = m
occupied c (x ∷ cs) m e = cc

allow_not_confirm : (m : PolicyMode) → m ≡ allow → m ≢ confirm
allow_not_confirm m a b = cc

any_inserted :
    (p : PolicyMode → Bool) (f : Capability → PolicyMode) (cs : List Capability) (c : Capability)
    (g : List PolicyMode)
    → any p (map f (cs ++ c ∷ []) ++ g) ≡ (p (f c) || any p (map f (cs ++ []) ++ g))
any_inserted p f [] c g = refl
any_inserted p f (x ∷ cs) c g = ground (arith, any_inserted p f cs c g)

inserted_nonempty :
    (f : Capability → PolicyMode) (cs : List Capability) (c : Capability) (g : List PolicyMode)
    → is_empty (map f (cs ++ c ∷ []) ++ g) ≡ false
inserted_nonempty f [] c g = refl
inserted_nonempty f (x ∷ cs) c g = refl

combine_inserted :
    (ms ns : List PolicyMode)
    → ((p : PolicyMode → Bool) → any p ns ≡ (p confirm || any p ms))
    → is_empty ns ≡ false
    → combine_policy_modes ms ≡ allow
    → combine_policy_modes ns ≡ confirm
unfolding combine_policy_modes
combine_inserted ms ns q n a = ground (arith, q (same deny), q (same confirm))

extra_confirm :
    (d : CommandDecision) (policy : PolicySnapshot) (c : Capability)
    → effective_mode d policy [] ≡ allow
    → policy.modes c ≡ confirm
    → effective_mode d policy (c ∷ []) ≡ confirm
unfolding effective_mode decision_modes
extra_confirm d policy c a m = elim (Bool-cases d.hard_denied) [
  | inl e ↦ (let z : deny ≡ allow = rw e at a in absurd cc)
  | inr e ↦ rw e (
      combine_inserted (decision_modes d policy []) _
        (λ p.
          any_inserted p policy.modes d.required_capabilities c _
          ∙ ap (λ t. p t || any p (decision_modes d policy [])) m)
        (inserted_nonempty policy.modes d.required_capabilities c _) (rw e at a))
]

module _ (entry : DynamicEntry) (d : CommandDecision) (policy : PolicySnapshot) where
  impersonation_shown : shown_as_confirm entry d policy ≡ false → entry.allow_impersonation ≢ true
  unfolding shown_as_confirm
  impersonation_shown s e = ground arith

  secret_not_confirm :
      (c : Capability)
      → shown_as_confirm entry d policy ≡ false
      → d.secret_capability ≡ some c
      → policy.modes c ≢ confirm
  unfolding shown_as_confirm
  secret_not_confirm c s e m = ground (arith, rw e at s, test_of confirm (policy.modes c) m)

  -- No capability of a request asks for a prompt where the catalog shows none.
  extra_not_confirm :
      (extra : List Capability)
      → effective_mode d policy [] ≡ allow
      → shown_as_confirm entry d policy ≡ false
      → ((c : Capability) → Member c extra → d.secret_capability ≡ some c)
      → effective_mode d policy extra ≢ confirm
  extra_not_confirm extra a s only e =
      let g = (effective_allow_iff d policy []).0 a in
      let (c, k) =
        first_of_nonempty (confirming d policy extra) (confirming_nonempty d policy extra e) in
      let n = confirming_sound d policy extra c k in
      elim n.asked [
        | inl asked ↦ elim (Member-append c d.required_capabilities extra asked) [
          | inl r ↦
              allow_not_confirm _ (g.all_allowed c (Member-append_nil c d.required_capabilities r))
                n.mode
          | inr x ↦ secret_not_confirm c s (only c x) n.mode
        ]
        | inr (alternative, closed) ↦
            let (b, member, q) = g.one_allowed (occupied c _ alternative) in closed b member q
      ]

module _ {Token User Args : Type 0} (invocation : Invocation Token User Args) (d : CommandDecision)
    (h : invocation.entry.decision ≡ some d) where
  -- The docstring's promise, with its conditions: where the catalog shows allow, an invocation of
  -- the entry under the same policy needs no prompt, if it impersonates only where the entry allows
  -- it and its preflight asks for no capability but the decision's secret one.
  pub catalog_mode-conservative :
      (impersonating : Bool)
      → catalog_mode invocation.entry invocation.policy ≡ allow
      → (impersonating ≡ true → invocation.entry.allow_impersonation ≡ true)
      → ((c : Capability)
          → Member c invocation.preflight.additional_required
          → d.secret_capability ≡ some c)
      → invocation_mode invocation impersonating ≢ confirm
  unfolding invocation_mode decision_mode
  catalog_mode-conservative impersonating shown only_entry only_secret c =
      let (a, s) = catalog_allow invocation.entry d invocation.policy h shown in
      let m : prompted impersonating
            (effective_mode d invocation.policy invocation.preflight.additional_required)
          ≡ confirm =
        rw (h, invocation_mode) at c in
      elim (Bool-cases impersonating) [
        | inl e ↦ impersonation_shown invocation.entry d invocation.policy s (only_entry e)
        | inr e ↦
            extra_not_confirm invocation.entry d invocation.policy
              invocation.preflight.additional_required a s only_secret (rw e at m)
      ]

  pub catalog_mode-misses :
      (c : Capability)
      → catalog_mode invocation.entry invocation.policy ≡ allow
      → invocation.preflight.additional_required ≡ c ∷ []
      → invocation.policy.modes c ≡ confirm
      → invocation_mode invocation false ≡ confirm
  unfolding invocation_mode decision_mode
  catalog_mode-misses c shown e m =
      let (a, s) = catalog_allow invocation.entry d invocation.policy h shown in
      rw (h, invocation_mode, e) (extra_confirm d invocation.policy c a m)
