-- ===== src/Serialization/Keys.antt =====
-- provider/dynamic_serialization.py: the loop of `_bounded_mapping` that looks for a free suffix.
use ma_provider_mcp.Prelude.{
  ℕ, zero, suc, ◌+◌, ◌≤◌, ◌<◌, ◌≡◌, refl, sym, ap, subst, ◌∙◌, true, false, List, [], ◌∷◌, ◌++◌,
  length, if◌then◌else◌, Bool-cases, inl, inr, arith,
}
use mathlib.Core.Bool.{true≢false}
use ma_provider_mcp.Serialization.Json.{Text, Json, has, same_text}
use ma_provider_mcp.Serialization.Native.{Python}
use ma_provider_mcp.Serialization.Bounded.{suffixed, free_key, new_key}
use ma_provider_mcp.Serialization.Kept.{same_text_sound}

same_text-append : (k s t : Text) → same_text (k ++ s) (k ++ t) ≡ same_text s t
same_text-append [] s t = refl
same_text-append (c ∷ k) s t = ground (arith, same_text-append k s t)

module _ {Number : Type 0} where
  abbrev erase : Text → List (Text × Json Number) → List (Text × Json Number)
  erase k [] = []
  erase k ((l, j) ∷ fs) = let rest = erase k fs in if same_text l k then fs else (l, j) ∷ rest

  length-erase :
      (k : Text) (fs : List (Text × Json Number))
      → has k fs ≡ true
      → suc (length (erase k fs)) ≡ length fs
  length-erase k [] h = absurd cc
  length-erase k ((l, j) ∷ fs) h = ground (arith, length-erase k fs)

  has-erase :
      (k m : Text) (fs : List (Text × Json Number))
      → same_text k m ≡ false
      → has m fs ≡ true
      → has m (erase k fs) ≡ true
  has-erase k m [] other h = h
  has-erase k m ((l, j) ∷ fs) other h = elim (Bool-cases (same_text l k)) [
    | inl e ↦
        let differs = ap (λ t. same_text t m) (same_text_sound l k e) ∙ other in
        rw e (rw differs at h)
    | inr e ↦ rw e (ground (arith, has-erase k m fs other))
  ]

  -- So many different keys are in no shorter dictionary.
  pigeon :
      (n : ℕ) (key : ℕ → Text) (fs : List (Text × Json Number))
      → ((i j : ℕ) → i < j → same_text (key i) (key j) ≡ false)
      → ((i : ℕ) → i ≤ n → has (key i) fs ≡ true)
      → n < length fs
  pigeon n key [] distinct found = absurd (true≢false (sym (found 0 (omega arith))))
  pigeon zero key (f ∷ fs) distinct found = omega arith
  pigeon (suc n) key (f ∷ fs) distinct found =
      let shorter = length-erase (key 0) (f ∷ fs) (found 0 (omega arith)) in
      let rest =
        pigeon n (λ i. key (suc i)) (erase (key 0) (f ∷ fs))
          (λ i j l. distinct (suc i) (suc j) (omega arith))
          (λ i l.
            has-erase (key 0) (key (suc i)) (f ∷ fs) (distinct 0 (suc i) (omega arith))
              (found (suc i) (omega arith))) in
      omega (arith, shorter, rest)

  module _ (python : Python Number) where
    taken :
        (n : ℕ) (key : Text) (s : ℕ) (result : List (Text × Json Number))
        → has (free_key python n key s result) result ≡ true
        → (i : ℕ) → i ≤ n
        → has (suffixed python key (s + i)) result ≡ true
    taken zero key s result h i l =
        let same : s ≡ s + i = omega arith in
        subst (λ m. has (suffixed python key m) result ≡ true) same h
    taken (suc n) key s result h i l = elim (Bool-cases (has (suffixed python key s) result)) [
      | inl e ↦ by_count e (λ m k. taken n key (s + 1) result (rw (e, free_key) at h) m k) i l
      | inr e ↦ absurd (true≢false (sym (rw (e, free_key) at h) ∙ e))
    ]
      where
        by_count :
            has (suffixed python key s) result ≡ true
            → ((m : ℕ) → m ≤ n → has (suffixed python key ((s + 1) + m)) result ≡ true)
            → (m : ℕ) → m ≤ suc n
            → has (suffixed python key (s + m)) result ≡ true
        by_count e others zero k =
            let same : s ≡ s + 0 = omega arith in
            subst (λ m. has (suffixed python key m) result ≡ true) same e
        by_count e others (suc m) k =
            let same : (s + 1) + m ≡ s + suc m = omega arith in
            subst (λ x. has (suffixed python key x) result ≡ true) same (others m (omega arith))

    suffixed-differ :
        (key : Text) (i j : ℕ)
        → ((i j : ℕ) → python.decimal i ≡ python.decimal j → i ≡ j)
        → i < j
        → same_text (suffixed python key i) (suffixed python key j) ≡ false
    suffixed-differ key i j injective l =
        elim (Bool-cases (same_text (suffixed python key i) (suffixed python key j))) [
          | inl e ↦
              let texts =
                sym (same_text-append key (35 ∷ python.decimal i) (35 ∷ python.decimal j)) ∙ e in
              let same =
                injective i j (same_text_sound (python.decimal i) (python.decimal j) texts) in
              absurd (omega (arith, same))
          | inr e ↦ e
        ]

    -- The loop for a free suffix ends within as many rounds as the mapping has keys, and one more:
    -- where the texts of different counts are different, a key that was cut or had a character
    -- replaced is entered under a key that is not in the mapping yet.
    pub new_key-free :
        (key : Text) (result : List (Text × Json Number))
        → ((i j : ℕ) → python.decimal i ≡ python.decimal j → i ≡ j)
        → has (new_key python (key, true) result) result ≡ false
    new_key-free key result injective = elim (Bool-cases (has key result)) [
      | inr e ↦ rw e e
      | inl e ↦
          rw e (elim (Bool-cases (has (free_key python (length result) key 2 result) result)) [
            | inr free ↦ free
            | inl used ↦
                let more =
                  pigeon (length result) (λ i. suffixed python key (2 + i)) result
                    (λ i j l. suffixed-differ key (2 + i) (2 + j) injective (omega arith))
                    (λ i l. taken (length result) key 2 result used i l) in
                absurd (omega (arith, more))
          ])
    ]
