-- ===== src/Prelude/Lists.antt =====
-- Python's `any`, `all`, `len` and set tests over lists, with their meaning as predicates.
use Prim.Native.Nat.{ℕ, suc, ◌+◌}
use mathlib.Core.Path.{◌≡◌, refl}
use mathlib.Core.Logic.{◌⊎◌, inl, inr}
use mathlib.Core.Bool.{Bool, true, false, ◌&&◌, ◌||◌, false≢true, or-true}
use ma_provider_mcp.Prelude.Tests.{Bool-cases, and_split, if◌then◌else◌}
use mathlib.Core.List.{List, [], ◌∷◌, ◌++◌, map}
use native.Mathlib.Omega.{arith}

module _ {ℓ} {A : Type ℓ} where
  abbrev pub length : List A → ℕ
  length [] = 0
  length (x ∷ xs) = suc (length xs)

  abbrev pub is_empty : List A → Bool
  is_empty [] = true
  is_empty (x ∷ xs) = false

  abbrev pub any : (A → Bool) → List A → Bool
  any p [] = false
  any p (x ∷ xs) = p x || any p xs

  abbrev pub all : (A → Bool) → List A → Bool
  all p [] = true
  all p (x ∷ xs) = p x && all p xs

  -- A comprehension with an `if` clause.
  abbrev pub filter : (A → Bool) → List A → List A
  filter p [] = []
  filter p (x ∷ xs) = let rest = filter p xs in if p x then x ∷ rest else rest

  pub length-append : (xs ys : List A) → length (xs ++ ys) ≡ length xs + length ys
  length-append [] ys = omega arith
  length-append (x ∷ xs) ys = omega (arith, length-append xs ys)

-- Membership by recursion, which computes to sums that the tactics read.
module _ {A : Type 0} where
  abbrev pub Member : A → List A → Type 0
  Member a [] = ⊥
  Member a (x ∷ xs) = (a ≡ x) ⊎ Member a xs

  pub any_witness :
      (p : A → Bool) (xs : List A) → any p xs ≡ true → (a : A) × Member a xs × (p a ≡ true)
  any_witness p [] h = absurd (false≢true h)
  any_witness p (x ∷ xs) h = elim (Bool-cases (p x)) [
    | inl e ↦ (x, inl refl, e)
    | inr e ↦ let (a, m, q) = any_witness p xs (rw e at h) in (a, inr m, q)
  ]

  pub any_of_Member :
      (p : A → Bool) (xs : List A) {a : A} → Member a xs → p a ≡ true → any p xs ≡ true
  any_of_Member p [] m h = absurd m
  any_of_Member p (x ∷ xs) (inl e) h = ground arith
  any_of_Member p (x ∷ xs) (inr m) h = rw (any_of_Member p xs m h) (or-true (p x))

  pub all_at : (p : A → Bool) (xs : List A) {a : A} → all p xs ≡ true → Member a xs → p a ≡ true
  all_at p [] h m = absurd m
  all_at p (x ∷ xs) h (inl e) = ground arith
  all_at p (x ∷ xs) h (inr m) = all_at p xs (and_split (p x) (all p xs) h).1 m

  pub all_of : (p : A → Bool) (xs : List A) → ((a : A) → Member a xs → p a ≡ true) → all p xs ≡ true
  all_of p [] h = refl
  all_of p (x ∷ xs) h = rw (h x (inl refl)) (all_of p xs (λ a m. h a (inr m)))

  pub Member-append_left : (a : A) (xs ys : List A) → Member a xs → Member a (xs ++ ys)
  Member-append_left a [] ys m = absurd m
  Member-append_left a (x ∷ xs) ys (inl e) = inl e
  Member-append_left a (x ∷ xs) ys (inr m) = inr (Member-append_left a xs ys m)

  pub Member-append_right : (a : A) (xs ys : List A) → Member a ys → Member a (xs ++ ys)
  Member-append_right a [] ys m = m
  Member-append_right a (x ∷ xs) ys m = inr (Member-append_right a xs ys m)

  pub Member-append : (a : A) (xs ys : List A) → Member a (xs ++ ys) → Member a xs ⊎ Member a ys
  Member-append a [] ys m = inr m
  Member-append a (x ∷ xs) ys (inl e) = inl (inl e)
  Member-append a (x ∷ xs) ys (inr m) = elim (Member-append a xs ys m) [
    | inl l ↦ inl (inr l)
    | inr r ↦ inr r
  ]

  pub filter-Member :
      (a : A) (p : A → Bool) (xs : List A) → Member a (filter p xs) → Member a xs × (p a ≡ true)
  filter-Member a p [] m = absurd m
  filter-Member a p (x ∷ xs) m = ground (arith, filter-Member a p xs)

  pub Member-filter :
      (a : A) (p : A → Bool) (xs : List A) → Member a xs → p a ≡ true → Member a (filter p xs)
  Member-filter a p [] m h = m
  Member-filter a p (x ∷ xs) (inl e) h = ground arith
  Member-filter a p (x ∷ xs) (inr m) h = ground (arith, Member-filter a p xs m h)

module _ {A B : Type 0} where
  pub all-map : (p : B → Bool) (f : A → B) (xs : List A) → all p (map f xs) ≡ all (λ x. p (f x)) xs
  all-map p f [] = refl
  all-map p f (x ∷ xs) = rw (all-map p f xs)

  pub any-map : (p : B → Bool) (f : A → B) (xs : List A) → any p (map f xs) ≡ any (λ x. p (f x)) xs
  any-map p f [] = refl
  any-map p f (x ∷ xs) = rw (any-map p f xs)

pub all-append {ℓ} :
    {A : Type ℓ} (p : A → Bool) (xs ys : List A) → all p (xs ++ ys) ≡ (all p xs && all p ys)
all-append p [] ys = refl
all-append p (x ∷ xs) ys = ground (arith, all-append p xs ys)

pub is_empty-append {ℓ} :
    {A : Type ℓ} (xs ys : List A) → is_empty (xs ++ ys) ≡ (is_empty xs && is_empty ys)
is_empty-append [] ys = refl
is_empty-append (x ∷ xs) ys = refl
