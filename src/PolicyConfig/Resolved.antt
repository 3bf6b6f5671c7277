-- ===== src/PolicyConfig/Resolved.antt =====
-- provider/policy_config.py: a resolver is always built, and grants what is stored.
use mathlib.Core.Bool.{true≢false}
use ma_provider_mcp.Prelude.{
  ◌≡◌, refl, sym, ap, subst, ◌∙◌, ◌⊎◌, inl, inr, String, Bool, true, false, Option, none, some,
  List, [], ◌∷◌, any, str_eq, eq_iff, lookup, keys, Dict, Result, ok, err, Option-cases, Bool-cases,
  if◌then◌else◌, ◌>>=◌,
}
use ma_provider_mcp.Capability.{Capability, kind, value}
use ma_provider_mcp.Policy.Mode.{PolicyMode, deny, PolicyProfile, safe_queries, custom}
use ma_provider_mcp.Policy.Snapshot.{
  PolicyError, default_inherits, empty_token_id, inherit_snapshot, PolicySnapshot, policy_snapshot,
}
use ma_provider_mcp.Policy.Profiles.{grant, policy_snapshot-grant}
use ma_provider_mcp.Policy.Resolver.{
  PolicySelection, PolicyResolver, selection_snapshot, override_snapshot, compile_overrides,
  resolver_init, resolve,
}
use ma_provider_mcp.Policy.Resolution.{Resolves, resolver_init-Resolves}
use ma_provider_mcp.PolicyConfig.Stored.{
  text, Store, profile_text, mode_text, policy_value, policy_mode_key, selector_key, stored_mode,
}
use ma_provider_mcp.PolicyConfig.Build.{parse_overrides, all_token_ids, build_policy_resolver}
use ma_provider_mcp.PolicyConfig.Closed.{
  Parsed, inherits, named, customized, parse_selection-Parsed, parse_mode-reads, custom_snapshot,
}
use ma_provider_mcp.PolicyConfig.Ids.{blank, all_token_ids-blank}

module _ (digest : String → String) (store : Store) where
  -- Why a capability has a mode: safe queries grant it; or the stored selector is the name of a
  -- profile that grants it; or it is the custom policy's, and the stored mode is the mode's text,
  -- where the mode is not deny.
  pub data Granted (token_id : Option String) (c : Capability) (m : PolicyMode) : Type 0 where
    safely : m ≡ grant safe_queries (kind c) → Granted token_id c m
    by_name :
        (p : PolicyProfile)
        → policy_value store (selector_key digest token_id) ≡ text (profile_text p)
        → m ≡ grant p (kind c)
        → Granted token_id c m
    by_mode :
        policy_value store (selector_key digest token_id) ≡ text (profile_text custom)
        → (m ≡ deny)
          ⊎ (policy_value store (policy_mode_key digest (value c) token_id) ≡ text (mode_text m))
        → Granted token_id c m

  -- A selection that inherits, or has a snapshot.
  abbrev Usable : Option String → Bool → PolicySelection → Type 0
  Usable token_id allow_inherit s =
      ((s.choice ≡ none) × (allow_inherit ≡ true))
      ⊎ ((snap : PolicySnapshot) × (selection_snapshot s ≡ ok snap)
          × (s.choice ≡ some snap.profile)
          × ((c : Capability) → Granted token_id c (snap.modes c)))

  named-Granted :
      (token_id : Option String) (p : PolicyProfile) (c : Capability)
      → (p ≡ safe_queries)
        ⊎ (policy_value store (selector_key digest token_id) ≡ text (profile_text p))
      → Granted token_id c (grant p (kind c))
  named-Granted token_id p c (inl e) = safely (ap (λ q. grant q (kind c)) e)
  named-Granted token_id p c (inr e) = by_name p e refl

  Parsed-Usable :
      (token_id : Option String) (allow_inherit : Bool) (s : PolicySelection)
      → Parsed digest store token_id allow_inherit s
      → Usable token_id allow_inherit s
  unfolding selection_snapshot
  Parsed-Usable token_id allow_inherit s (inherits e same) = inl (ap (λ x. x.choice) same, e)
  Parsed-Usable token_id allow_inherit s (named p n e same) =
      subst (λ x. Usable token_id allow_inherit x) (sym same)
        (inr (_, policy_snapshot-grant p n, refl, λ c. named-Granted token_id p c e))
  Parsed-Usable token_id allow_inherit s (customized e same) =
      subst (λ x. Usable token_id allow_inherit x) (sym same)
        (inr (
          _,
          custom_snapshot (stored_mode digest store token_id),
          refl,
          λ c. by_mode e (parse_mode-reads _),
        ))

  abbrev AllParsed : Dict PolicySelection → Type 0
  AllParsed [] = Unit
  AllParsed ((t, s) ∷ o) = Parsed digest store (some t) true s × AllParsed o

  parse_overrides-AllParsed :
      (ids : List String)
      → (o : Dict PolicySelection) × (parse_overrides digest store ids ≡ ok o)
        × AllParsed o
        × (keys o ≡ ids)
  parse_overrides-AllParsed [] = ([], refl, tt, refl)
  parse_overrides-AllParsed (t ∷ ts) =
      let (s, first, parsed) = parse_selection-Parsed digest store (some t) true in
      let (o, rest, others, names) = parse_overrides-AllParsed ts in
      (
        (t, s) ∷ o,
        rw (first, parse_overrides) (rw rest refl),
        (parsed, others),
        ap (λ ks. t ∷ ks) names,
      )

  overridden :
      (o : Option PolicyProfile) (r : Result PolicyError PolicySnapshot) (p : PolicyProfile)
      (snap : PolicySnapshot)
      → o ≡ some p
      → r ≡ ok snap
      → ◌≡◌ {A = Result PolicyError (Option PolicySnapshot)}
          (elim o [ none ↦ ok none | some profile ↦ do snapshot ← r; ok (some snapshot) ])
          (ok (some snap))
  overridden o r p snap e made = rw e (rw made refl)

  override_snapshot-ok :
      (t : String) (s : PolicySelection)
      → Usable (some t) true s
      → (x : Option PolicySnapshot) × (override_snapshot s ≡ ok x)
  unfolding override_snapshot
  override_snapshot-ok t s (inl (e, i)) = (none, rw e refl)
  override_snapshot-ok t s (inr (snap, made, e, g)) =
      (some snap, overridden s.choice (selection_snapshot s) snap.profile snap e made)

  compile_overrides-ok :
      (o : Dict PolicySelection)
      → AllParsed o
      → (compiled : Dict (Option PolicySnapshot)) × (compile_overrides o ≡ ok compiled)
        × (keys compiled ≡ keys o)
  unfolding compile_overrides
  compile_overrides-ok [] h = ([], refl, refl)
  compile_overrides-ok ((t, s) ∷ o) (parsed, others) =
      let (x, made) = override_snapshot-ok t s (Parsed-Usable (some t) true s parsed) in
      let (compiled, rest, names) = compile_overrides-ok o others in
      ((t, x) ∷ compiled, rw made (rw rest refl), ap (λ ks. t ∷ ks) names)

  found-Parsed :
      (o : Dict PolicySelection) (t : String) (s : PolicySelection)
      → AllParsed o
      → lookup t o ≡ some s
      → Parsed digest store (some t) true s
  found-Parsed [] t s h e = absurd cc
  found-Parsed ((j, x) ∷ o) t s (parsed, others) e = elim (Bool-cases (str_eq j t)) [
    | inl q ↦
        let same : x ≡ s = same_selection x s (rw q at e) in
        subst (λ k. Parsed digest store (some k) true s) ((eq_iff j t).0 q)
          (subst (λ y. Parsed digest store (some j) true y) same parsed)
    | inr q ↦ found-Parsed o t s others (rw q at e)
  ]
    where
      same_selection :
          (a b : PolicySelection) → Path (Option PolicySelection) (some a) (some b) → a ≡ b
      same_selection a b h = cc

  abbrev resolver_of :
      PolicySelection
      → Dict PolicySelection
      → PolicySnapshot
      → Dict (Option PolicySnapshot)
      → PolicyResolver
  resolver_of d o snap compiled = record {
    default = d;
    overrides = o;
    default_snapshot = snap;
    override_snapshots = compiled;
  }

  compiled_resolver :
      (d : PolicySelection) (o : Dict PolicySelection) (compiled : Dict (Option PolicySnapshot))
      (snap : PolicySnapshot) (p : PolicyProfile) (choice : Option PolicyProfile)
      (first : Result PolicyError PolicySnapshot)
      (second : Result PolicyError (Dict (Option PolicySnapshot)))
      → choice ≡ some p
      → first ≡ ok snap
      → second ≡ ok compiled
      → any blank (keys compiled) ≡ false
      → ◌≡◌ {A = Result PolicyError PolicyResolver}
          (elim choice [
            | none ↦ err default_inherits
            | some profile ↦ do
              snapshot ← first
              compiled_all ← second
              if any (λ token_id. str_eq token_id "") (keys compiled_all)
                  then err empty_token_id
                  else ok (resolver_of d o snapshot compiled_all)
          ])
          (ok (resolver_of d o snap compiled))
  compiled_resolver d o compiled snap p choice first second e made rest filled =
      rw e (rw made (rw rest (rw filled refl)))

  built_resolver :
      (d : PolicySelection) (o : Dict PolicySelection) (compiled : Dict (Option PolicySnapshot))
      (snap : PolicySnapshot) (p : PolicyProfile)
      → d.choice ≡ some p
      → selection_snapshot d ≡ ok snap
      → compile_overrides o ≡ ok compiled
      → any blank (keys compiled) ≡ false
      → resolver_init d o ≡ ok (resolver_of d o snap compiled)
  unfolding resolver_init
  built_resolver d o compiled snap p e made rest filled =
      compiled_resolver d o compiled snap p d.choice (selection_snapshot d) (compile_overrides o) e
        made rest filled

  same_snapshot :
      (a b : PolicySnapshot) → Path (Result PolicyError PolicySnapshot) (ok a) (ok b) → a ≡ b
  same_snapshot a b h = cc

  chosen_snapshot :
      (s : PolicySelection) (p : PolicyProfile)
      → s.choice ≡ some p
      → selection_snapshot s ≡ policy_snapshot p s.custom_modes
  unfolding selection_snapshot
  chosen_snapshot s p e = by_choice s.choice e
    where
      by_choice :
          (o : Option PolicyProfile)
          → o ≡ some p
          → ◌≡◌ {A = Result PolicyError PolicySnapshot}
              (elim o [
                | none ↦ err inherit_snapshot
                | some profile ↦ policy_snapshot profile s.custom_modes
              ])
              (policy_snapshot p s.custom_modes)
      by_choice o h = rw h refl

  -- The snapshot that a token resolves to, by its own selection or the default's.
  token-Granted :
      (d : PolicySelection) (o : Dict PolicySelection) (r : PolicyResolver) (t : String)
      → Resolves d o r
      → AllParsed o
      → ((c : Capability) → Granted (some t) c ((resolve r (some t)).modes c))
        ⊎ (resolve r (some t) ≡ resolve r none)
  token-Granted d o r t w h = elim (Option-cases (lookup t o)) [
    | inl e ↦ inr (w.at_unknown t e)
    | inr (s, e) ↦ elim (Parsed-Usable (some t) true s (found-Parsed o t s h e)) [
      | inl (no_choice, i) ↦ inr (w.at_inherit t s e no_choice)
      | inr (snap, made, choice, g) ↦
          let same : snap ≡ resolve r (some t) = same_snapshot _ _ (
            sym made
            ∙ chosen_snapshot s snap.profile choice
            ∙ w.at_override t s snap.profile e choice) in
          inl (λ c. subst (λ x. Granted (some t) c (x.modes c)) same (g c))
    ]
  ]

  module _ (strip : String → String) (active : List String) where
    -- From whatever is stored, well formed or not, a resolver is built. Its default snapshot grants
    -- a capability no other mode than safe queries do, or the profile that the stored selector
    -- names, or, where it names the custom policy, deny or the mode whose text is stored; and a
    -- token has the default snapshot, or one for which the same holds of its own stored values.
    pub build_policy_resolver-Granted :
        (r : PolicyResolver) × (build_policy_resolver digest strip store active ≡ ok r)
        × ((c : Capability) → Granted none c ((resolve r none).modes c))
        × ((t : String)
            → ((c : Capability) → Granted (some t) c ((resolve r (some t)).modes c))
              ⊎ (resolve r (some t) ≡ resolve r none))
    unfolding build_policy_resolver
    build_policy_resolver-Granted =
        let (d, first, parsed) = parse_selection-Parsed digest store none false in
        let (o, second, others, names) =
          parse_overrides-AllParsed (all_token_ids digest strip store active) in
        let (compiled, rest, kept) = compile_overrides-ok o others in
        let filled =
          ap (any blank) (kept ∙ names) ∙ all_token_ids-blank digest store strip active in
        elim (Parsed-Usable none false d parsed) [
          | inl (e, i) ↦ absurd (true≢false (sym i))
          | inr (snap, made, choice, g) ↦
              let built = built_resolver d o compiled snap snap.profile choice made rest filled in
              let w = resolver_init-Resolves d o (resolver_of d o snap compiled) built in
              let same : snap ≡ resolve (resolver_of d o snap compiled) none =
                same_snapshot _ _ (sym made ∙ w.at_default) in
              (
                resolver_of d o snap compiled,
                rw first (rw second built),
                λ c. subst (λ x. Granted none c (x.modes c)) same (g c),
                λ t. token-Granted d o (resolver_of d o snap compiled) t w others,
              )
        ]
