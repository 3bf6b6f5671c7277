-- ===== src/Serialization/Kept.antt =====
-- provider/dynamic_serialization.py: the texts, keys and lists that a bound leaves as they are.
use ma_provider_mcp.Prelude.{
  ℕ, zero, suc, ◌≤◌, ◌==◌, ◌≡◌, refl, ap, ap₂, ◌∙◌, Bool, true, false, not, ◌||◌, Option, some,
  List, [], ◌∷◌, map, length, any, ltb, and_split, Bool-cases, inl, inr, arith,
}
use mathlib.Core.Bool.{true≢false}
use ma_provider_mcp.Serialization.Json.{
  Text, Json, take, same_text, at_most, insert_by, sort_by, replaced, bounded_string,
}
use ma_provider_mcp.Serialization.Native.{Python}
use ma_provider_mcp.Serialization.Bounded.{BoundedJson, new_key}

pub same_text_sound : (s t : Text) → same_text s t ≡ true → s ≡ t
same_text_sound [] [] h = refl
same_text_sound [] (d ∷ t) h = absurd cc
same_text_sound (c ∷ s) [] h = absurd cc
same_text_sound (c ∷ s) (d ∷ t) h =
    let (first, rest) = and_split (c == d) (same_text s t) h in
    let same : c ≡ d = ground arith in ap₂ (λ x xs. x ∷ xs) same (same_text_sound s t rest)

holds_of_not : (b : Bool) → not b ≡ false → b ≡ true
holds_of_not b h = ground arith

pub neither : (a b : Bool) → (a || b) ≡ false → (a ≡ false) × (b ≡ false)
neither a b h = ground arith

pub bounded_string-same :
    (s : Text) (limit : ℕ)
    → (bounded_string s (some limit)).1 ≡ false
    → (bounded_string s (some limit)).0 ≡ s
unfolding bounded_string
bounded_string-same s limit h = elim (Bool-cases (ltb limit (length s))) [
  | inl e ↦ absurd (true≢false (rw e at h))
  | inr e ↦ rw e (same_text_sound (map replaced s) s (holds_of_not _ (rw e at h)))
]

pub some_value : {A : Type 0} (a b : A) → Path (Option A) (some a) (some b) → a ≡ b
some_value a b h = cc

module _ {A : Type 0} where
  pub take-all : (n : ℕ) (xs : List A) → length xs ≤ n → take n xs ≡ xs
  take-all n [] h = refl
  take-all zero (x ∷ xs) h = absurd (omega arith)
  take-all (suc n) (x ∷ xs) h = ap (λ ys. x ∷ ys) (take-all n xs (omega arith))

  module _ (key : A → Text) where
    length-insert : (x : A) (xs : List A) → length (insert_by key x xs) ≡ suc (length xs)
    length-insert x [] = refl
    length-insert x (y ∷ ys) = ground (arith, length-insert x ys)

    pub length-sort : (xs : List A) → length (sort_by key xs) ≡ length xs
    length-sort [] = refl
    length-sort (x ∷ xs) = length-insert x (sort_by key xs) ∙ ap suc (length-sort xs)

    any-insert :
        (p : A → Bool) (x : A) (xs : List A) → any p (insert_by key x xs) ≡ (p x || any p xs)
    any-insert p x [] = refl
    any-insert p x (y ∷ ys) = ground (arith, any-insert p x ys)

    pub any-sort : (p : A → Bool) (xs : List A) → any p (sort_by key xs) ≡ any p xs
    any-sort p [] = refl
    any-sort p (x ∷ xs) = any-insert p x (sort_by key xs) ∙ ap (λ b. p x || b) (any-sort p xs)

module _ {A B : Type 0} (f : A → B) (key : B → Text) where
  map-insert :
      (x : A) (xs : List A)
      → map f (insert_by (λ a. key (f a)) x xs) ≡ insert_by key (f x) (map f xs)
  map-insert x [] = refl
  map-insert x (y ∷ ys) = elim (Bool-cases (at_most (key (f x)) (key (f y)))) [
    | inl e ↦ rw e refl
    | inr e ↦ rw e (ap (λ zs. f y ∷ zs) (map-insert x ys))
  ]

  pub map-sort : (xs : List A) → map f (sort_by (λ a. key (f a)) xs) ≡ sort_by key (map f xs)
  map-sort [] = refl
  map-sort (x ∷ xs) =
      map-insert x (sort_by (λ a. key (f a)) xs) ∙ ap (insert_by key (f x)) (map-sort xs)

pub new_key-same :
    {Number : Type 0} (python : Python Number) (key : Text × Bool)
    (result : List (Text × Json Number))
    → key.1 ≡ false
    → new_key python key result ≡ key.0
new_key-same python (key, true) result h = absurd cc
new_key-same python (key, false) result h = refl

abbrev pub is_cut : {Number : Type 0} → BoundedJson Number → Bool
is_cut b = b.truncated
