-- ===== src/Policy/Mode.antt =====
-- provider/policy.py: `PolicyMode`, `PolicyProfile` and `combine_policy_modes`.
use mathlib.Core.Bool.{true≢false}
use ma_provider_mcp.Prelude.{
  ℕ, ◌≤◌, ◌≡◌, refl, sym, subst, ◌≢◌, ◌⊎◌, ◌↔◌, inl, inr, Bool, true, false, ◌||◌, List, [], ◌∷◌,
  arith, any, is_empty, Member, if◌then◌else◌, all, not, ◌&&◌,
}

pub data PolicyMode : Type 0 where
  deny allow confirm : PolicyMode

pub data PolicyProfile : Type 0 where
  safe_queries home_control interactive_admin trusted custom : PolicyProfile

-- mode is other
abbrev pub same : PolicyMode → PolicyMode → Bool
same deny deny = true
same allow allow = true
same confirm confirm = true
same _ _ = false

-- `tuple(PolicyMode(mode) for mode in modes)` is `modes`: its items are modes already.
unfoldable pub combine_policy_modes : List PolicyMode → PolicyMode
combine_policy_modes modes =
    if is_empty modes || any (same deny) modes
    then deny
    else if any (same confirm) modes
    then confirm
    else allow

-- How much a mode permits.
abbrev pub rank : PolicyMode → ℕ
rank deny = 0
rank confirm = 1
rank allow = 2

combine-cons :
    (m n : PolicyMode) (ms : List PolicyMode)
    → (combine_policy_modes (m ∷ n ∷ ms) ≡ m)
      ⊎ (combine_policy_modes (m ∷ n ∷ ms) ≡ combine_policy_modes (n ∷ ms))
unfolding combine_policy_modes
combine-cons deny n ms = inl refl
combine-cons _ n ms = ground arith

combine-cons-le :
    (m n : PolicyMode) (ms : List PolicyMode)
    → (rank (combine_policy_modes (m ∷ n ∷ ms)) ≤ rank m)
      × (rank (combine_policy_modes (m ∷ n ∷ ms)) ≤ rank (combine_policy_modes (n ∷ ms)))
unfolding combine_policy_modes
combine-cons-le deny n ms = (omega arith, omega arith)
combine-cons-le _ n ms = ground arith

combine-singleton : (m : PolicyMode) → combine_policy_modes (m ∷ []) ≡ m
unfolding combine_policy_modes
combine-singleton deny = refl
combine-singleton _ = refl

combine-le :
    (ms : List PolicyMode) (m : PolicyMode) → Member m ms → rank (combine_policy_modes ms) ≤ rank m
combine-le [] m h = absurd h
combine-le (x ∷ []) m (inl e) = rw (combine-singleton x, e) (omega arith)
combine-le (x ∷ []) m (inr h) = absurd h
combine-le (x ∷ y ∷ ms) m (inl e) = rw e (combine-cons-le x y ms).0
combine-le (x ∷ y ∷ ms) m (inr h) = omega (arith, combine-le (y ∷ ms) m h, combine-cons-le x y ms)

combine-Member :
    (m : PolicyMode) (ms : List PolicyMode) → Member (combine_policy_modes (m ∷ ms)) (m ∷ ms)
combine-Member m [] = inl (combine-singleton m)
combine-Member m (n ∷ ms) = elim (combine-cons m n ms) [
  | inl e ↦ inl e
  | inr e ↦ subst (λ t. Member t (m ∷ n ∷ ms)) (sym e) (inr (combine-Member n ms))
]

-- With at least one mode, the combination is one of the modes and permits no more than each of
-- them, so it is the strictest; with no mode it is deny.
pub combine_strictest :
    (combine_policy_modes [] ≡ deny)
    × ((m : PolicyMode) (ms : List PolicyMode)
        → Member (combine_policy_modes (m ∷ ms)) (m ∷ ms)
          × ((n : PolicyMode) → Member n (m ∷ ms) → rank (combine_policy_modes (m ∷ ms)) ≤ rank n))
unfolding combine_policy_modes
combine_strictest = (refl, λ m ms. (combine-Member m ms, combine-le (m ∷ ms)))

pub rank-injective : (m n : PolicyMode) → rank m ≡ rank n → m ≡ n
rank-injective m n h = ground arith

pub same_iff : (m n : PolicyMode) → (same m n ≡ true) ↔ (m ≡ n)
same_iff deny n = ground arith
same_iff _ n = ground arith

-- allow needs a mode, and each of them allow
pub combine-allow :
    (ms : List PolicyMode) (n : PolicyMode)
    → combine_policy_modes ms ≡ allow
    → Member n ms
    → n ≡ allow
combine-allow ms n e m = rank-injective n allow (ground (arith, combine-le ms n m))

pub combine_not_allow_nil : combine_policy_modes [] ≢ allow
unfolding combine_policy_modes
combine_not_allow_nil = λ e. cc

all_allow :
    (ms : List PolicyMode) → all (same allow) ms ≡ not (any (same deny) ms || any (same confirm) ms)
all_allow [] = refl
all_allow (deny ∷ ms) = refl
all_allow (m ∷ ms) = ground (arith, all_allow ms)

-- allow, as a test on the list
pub combine-allow_test :
    (ms : List PolicyMode)
    → same allow (combine_policy_modes ms) ≡ (not (is_empty ms) && all (same allow) ms)
unfolding combine_policy_modes
combine-allow_test ms = ground (arith, all_allow ms)

-- More modes permit no more.
pub combine_superset-le :
    (ms ns : List PolicyMode)
    → is_empty ms ≡ false
    → ((m : PolicyMode) → Member m ms → Member m ns)
    → rank (combine_policy_modes ns) ≤ rank (combine_policy_modes ms)
combine_superset-le [] ns e h = absurd (true≢false e)
combine_superset-le (m ∷ ms) ns e h = combine-le ns _ (h _ (combine-Member m ms))
