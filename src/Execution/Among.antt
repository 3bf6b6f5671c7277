-- ===== src/Execution/Among.antt =====
-- provider/execution.py: the tests on sets of reasons, as memberships.
use mathlib.Core.Bool.{decide, true≢false}
use ma_provider_mcp.Prelude.{
  ◌≡◌, refl, sym, subst, ap, true, List, [], ◌∷◌, Member, filter-Member, all_at, any_witness,
  is_empty,
}
use ma_provider_mcp.Capability.{Capability, Capability-discrete}
use ma_provider_mcp.Execution.Evidence.{Reason, capability, impersonation, unknown}
use ma_provider_mcp.Execution.Session.{same_reason, is_among, is_subset, intersection}

decided {ℓ} : {A : Type ℓ} (d : Dec A) → decide d ≡ true → A
unfolding decide
decided (yes a) h = a
decided (no n) h = absurd (true≢false (sym h))

same_reason_sound : (r q : Reason) → same_reason r q ≡ true → r ≡ q
same_reason_sound (capability c) (capability d) h =
    ap capability (decided (Capability-discrete c d) h)
same_reason_sound (capability c) impersonation h = absurd cc
same_reason_sound (capability c) unknown h = absurd cc
same_reason_sound impersonation (capability d) h = absurd cc
same_reason_sound impersonation impersonation h = refl
same_reason_sound impersonation unknown h = absurd cc
same_reason_sound unknown (capability d) h = absurd cc
same_reason_sound unknown impersonation h = absurd cc
same_reason_sound unknown unknown h = refl

pub empty_list : {A : Type 0} (xs : List A) → is_empty xs ≡ true → xs ≡ []
empty_list [] h = refl
empty_list (x ∷ xs) h = absurd cc

among : (rs : List Reason) (r : Reason) → is_among rs r ≡ true → Member r rs
among rs r h =
    let (q, m, e) = any_witness (same_reason r) rs h in
    subst (λ t. Member t rs) (sym (same_reason_sound r q e)) m

pub subset-Member :
    (rs qs : List Reason) → is_subset rs qs ≡ true → (r : Reason) → Member r rs → Member r qs
unfolding is_subset
subset-Member rs qs h r m = among qs r (all_at (is_among qs) rs h m)

pub intersection-Member :
    (cs : List Capability) (rs : List Reason) (c : Capability)
    → Member c (intersection cs rs)
    → Member (capability c) rs
unfolding intersection
intersection-Member cs rs c m =
    among rs (capability c) (filter-Member c (λ d. is_among rs (capability d)) cs m).1
