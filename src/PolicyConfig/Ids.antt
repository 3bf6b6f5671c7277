-- ===== src/PolicyConfig/Ids.antt =====
-- provider/policy_config.py: no token id of a resolver is empty.
use ma_provider_mcp.Prelude.{
  ◌≡◌, refl, inl, inr, String, Bool, false, ◌||◌, List, [], ◌∷◌, ◌++◌, map, any, filter, contains,
  str_eq, Bool-cases, arith,
}
use ma_provider_mcp.PolicyConfig.Stored.{Store}
use ma_provider_mcp.PolicyConfig.Build.{
  values_of, given_text, unique, manual_token_ids, add_sorted, sorted_set, all_token_ids,
}

-- No token id is empty.
abbrev pub blank : String → Bool
blank s = str_eq s ""

neither : (a b : Bool) → (a || b) ≡ false → (a ≡ false) × (b ≡ false)
neither a b h = ground arith

any_append_blank :
    (ss ts : List String)
    → any blank ss ≡ false
    → any blank ts ≡ false
    → any blank (ss ++ ts) ≡ false
any_append_blank [] ts g h = h
any_append_blank (s ∷ ss) ts g h = ground (arith, any_append_blank ss ts)

unique-blank : (seen ss : List String) → any blank ss ≡ false → any blank (unique seen ss) ≡ false
unique-blank seen [] h = refl
unique-blank seen (s ∷ ss) h =
    let (g, rest) = neither (blank s) (any blank ss) h in
    elim (Bool-cases (contains seen s)) [
      | inl e ↦ rw e (unique-blank seen ss rest)
      | inr e ↦ rw e (rw g (unique-blank (s ∷ seen) ss rest))
    ]

add_sorted-blank :
    (s : String) (ts : List String)
    → blank s ≡ false
    → any blank ts ≡ false
    → any blank (add_sorted s ts) ≡ false
add_sorted-blank s [] g h = rw g refl
add_sorted-blank s (t ∷ ts) g h = ground (arith, add_sorted-blank s ts)

sorted_set-blank : (ss : List String) → any blank ss ≡ false → any blank (sorted_set ss) ≡ false
sorted_set-blank [] h = refl
sorted_set-blank (s ∷ ss) h =
    let (g, rest) = neither (blank s) (any blank ss) h in
    add_sorted-blank s (sorted_set ss) g (sorted_set-blank ss rest)

filter-blank : (ss : List String) → any blank (filter given_text ss) ≡ false
filter-blank [] = refl
filter-blank (s ∷ ss) = ground (arith, filter-blank ss)

module _ (digest : String → String) (store : Store) where
  module _ (strip : String → String) (active : List String) where
    pub all_token_ids-blank : any blank (all_token_ids digest strip store active) ≡ false
    unfolding manual_token_ids
    all_token_ids-blank =
        let texts = map strip (values_of (store.get_value "policy_manual_token_ids")) in
        let manual = unique [] (filter given_text texts) in
        sorted_set-blank (manual ++ filter given_text active) (
          any_append_blank manual (filter given_text active)
            (unique-blank [] (filter given_text texts) (filter-blank texts)) (filter-blank active))
