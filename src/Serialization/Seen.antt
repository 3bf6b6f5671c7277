-- ===== src/Serialization/Seen.antt =====
-- provider/dynamic_serialization.py: how many objects are not active yet.
use ma_provider_mcp.Prelude.{
  ℕ, zero, suc, ◌+◌, ◌≤◌, ◌<◌, ◌==◌, ◌≡◌, refl, sym, subst, ◌⊎◌, inl, inr, true, false, Option,
  none, some, List, [], ◌∷◌, length, Bool-cases, if◌then◌else◌, arith,
}
use mathlib.Core.Option
use ma_provider_mcp.Serialization.Native.{Shape, opaque, is_active, shape_at, given}

-- A computation that has an answer.
abbrev pub Found : {A : Type 0} → Option A → Type 0
Found {A} o = (a : A) × (o ≡ some a)

pub Found-map : {A B : Type 0} (f : A → B) (o : Option A) → Found o → Found (Option.map f o)
Found-map f none (a, h) = absurd cc
Found-map f (some b) (a, h) = (f b, refl)

pub given-some :
    {A B : Type 0} (o : Option A) (step : A → Option B) (b : B)
    → given o step ≡ some b
    → (a : A) × (o ≡ some a) × (step a ≡ some b)
given-some none step b h = absurd cc
given-some (some a) step b h = (a, refl, h)

pub map-some :
    {A B : Type 0} (f : A → B) (o : Option A) (b : B)
    → Option.map f o ≡ some b
    → (a : A) × (o ≡ some a) × (f a ≡ b)
map-some f none b h = absurd cc
map-some f (some a) b h = (a, refl, cc)

abbrev pub unseen : ℕ → List ℕ → ℕ
unseen zero active = 0
unseen (suc k) active = (if is_active k active then 0 else 1) + unseen k active

unseen_le : (k i : ℕ) (active : List ℕ) → unseen k (i ∷ active) ≤ unseen k active
unseen_le zero i active = omega arith
unseen_le (suc k) i active = ground (arith, unseen_le k i active)

same_number : (k i : ℕ) → (k == i) ≡ true → k ≡ i
same_number k i h = ground arith

other_number : (k i : ℕ) → (k == i) ≡ false → i < suc k → i < k
other_number k i h l = ground arith

pub unseen_lt :
    (k i : ℕ) (active : List ℕ)
    → i < k
    → is_active i active ≡ false
    → unseen k (i ∷ active) < unseen k active
unseen_lt zero i active h e = absurd (omega arith)
unseen_lt (suc k) i active h e = elim (Bool-cases (k == i)) [
  | inl q ↦
      let counted = subst (λ j. is_active j active ≡ false) (sym (same_number k i q)) e in
      rw q (rw counted (omega (arith, unseen_le k i active)))
  | inr q ↦ let less = unseen_lt k i active (other_number k i q h) e in rw q (omega (arith, less))
]

pub in_range :
    {Number : Type 0} (ss : List (Shape Number)) (i : ℕ)
    → (i < length ss) ⊎ (shape_at ss i ≡ opaque)
in_range [] i = inr refl
in_range (s ∷ ss) zero = inl (omega arith)
in_range (s ∷ ss) (suc i) = elim (in_range ss i) [ inl h ↦ inl (omega arith) | inr e ↦ inr e ]
