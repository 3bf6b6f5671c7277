-- ===== src/CommandPolicy/Longest.antt =====
-- provider/command_policy.py: `_matching_family` selects a longest matching prefix.
use mathlib.Core.Bool.{true≢false}
use ma_provider_mcp.Prelude.{
  ◌≤◌, ◌≡◌, sym, subst, ◌∙◌, ◌⊎◌, inl, inr, String, true, false, none, some, List, [], ◌∷◌, arith,
  Member, str_len, ltb, Bool-cases, Option-cases,
}
use ma_provider_mcp.CommandPolicy.Decision.{FamilyPolicy}
use ma_provider_mcp.CommandPolicy.Families.{family_policies}
use ma_provider_mcp.CommandPolicy.Scope.{matches, longest_match, matching_family}

-- A family of the table that matches, with a prefix no shorter than that of any other match.
pub record IsLongest (command : String) (families : List FamilyPolicy) (f : FamilyPolicy)
    : Type 0 where
  pub member : Member f families
  pub matching : matches command f ≡ true
  pub longest :
      (g : FamilyPolicy)
      → Member g families
      → matches command g ≡ true
      → str_len g.prefix ≤ str_len f.prefix

no_match :
    (command : String) (fs : List FamilyPolicy)
    → longest_match command fs ≡ none
    → (g : FamilyPolicy) → Member g fs
    → matches command g ≡ false
unfolding longest_match
no_match command [] h g m = absurd m
no_match command (f ∷ fs) h g (inl e) = ground arith
no_match command (f ∷ fs) h g (inr m) = no_match command fs (ground arith) g m

-- The step of the search: the first family is passed by, or it is compared with the rest's best.
step_cases :
    (command : String) (g : FamilyPolicy) (fs : List FamilyPolicy) (f : FamilyPolicy)
    → longest_match command (g ∷ fs) ≡ some f
    → ((longest_match command fs ≡ some f)
        × ((matches command g ≡ true) → str_len g.prefix ≤ str_len f.prefix))
      ⊎ ((matches command g ≡ true)
          × (f ≡ g)
          × ((k : FamilyPolicy)
              → longest_match command fs ≡ some k
              → str_len k.prefix ≤ str_len g.prefix))
unfolding longest_match
step_cases command g fs f h = elim (Bool-cases (matches command g)) [
  | inl e ↦ elim (Option-cases (longest_match command fs)) [
    | inl n ↦ inr (e, ground arith, λ k s. absurd (ground arith))
    | inr (k, s) ↦ elim (Bool-cases (ltb (str_len g.prefix) (str_len k.prefix))) [
      | inl l ↦ inl (ground arith, λ _. ground arith)
      | inr l ↦ inr (e, ground arith, λ k' s'. ground arith)
    ]
  ]
  | inr e ↦ inl (ground arith, λ t. absurd (ground arith))
]

-- a first family that beats the rest's best beats them all
first_longest :
    (command : String) (g : FamilyPolicy) (fs : List FamilyPolicy)
    → ((k : FamilyPolicy) → longest_match command fs ≡ some k → str_len k.prefix ≤ str_len g.prefix)
    → ((f : FamilyPolicy) → longest_match command fs ≡ some f → IsLongest command fs f)
    → (k : FamilyPolicy) → Member k (g ∷ fs)
    → matches command k ≡ true
    → str_len k.prefix ≤ str_len g.prefix
first_longest command g fs le best k (inl q) u = rw q (omega arith)
first_longest command g fs le best k (inr n) u = elim (Option-cases (longest_match command fs)) [
  | inl e ↦ absurd (true≢false (sym u ∙ no_match command fs e k n))
  | inr (k', e) ↦ omega (arith, (best k' e).longest k n u, le k' e)
]

longest_match-IsLongest :
    (command : String) (fs : List FamilyPolicy) (f : FamilyPolicy)
    → longest_match command fs ≡ some f
    → IsLongest command fs f
longest_match-IsLongest command [] f h = absurd (unfold longest_match in ground arith)
longest_match-IsLongest command (g ∷ fs) f h = elim (step_cases command g fs f h) [
  | inl (s, le) ↦
      let r = longest_match-IsLongest command fs f s in
      record {
        member = inr r.member;
        matching = r.matching;
        longest = λ k m t. elim m [
          | inl q ↦
              subst (λ x. str_len x.prefix ≤ str_len f.prefix) (sym q)
                (le (subst (λ x. matches command x ≡ true) q t))
          | inr n ↦ r.longest k n t
        ];
      }
  | inr (t, e, le) ↦ record {
    member = inl e;
    matching = rw e t;
    longest = λ k m u.
        subst (λ x. str_len k.prefix ≤ str_len x.prefix) (sym e)
          (first_longest command g fs le (longest_match-IsLongest command fs) k m u);
  }
]

-- The family of a command is one of the table that matches, and no family that matches has a longer
-- prefix; there is none exactly when no family matches.
pub matching_family-IsLongest :
    (command : String)
    → ((f : FamilyPolicy) → matching_family command ≡ some f → IsLongest command family_policies f)
      × (matching_family command ≡ none
          → (g : FamilyPolicy) → Member g family_policies
          → matches command g ≡ false)
unfolding matching_family
matching_family-IsLongest command =
    (longest_match-IsLongest command family_policies, no_match command family_policies)
