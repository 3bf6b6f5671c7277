-- ===== src/Policy/Resolution.antt =====
-- provider/policy.py: which policy a compiled resolver gives to a request.
use ma_provider_mcp.Prelude.{
  ◌≡◌, refl, sym, ◌≢◌, ◌↔◌, inl, inr, String, true, false, Option, none, some, [], ◌∷◌, arith,
  str_eq, eq_iff, eq_refl, Dict, lookup, keys, any, ok, returned, Distinct, contains, Bool-cases,
}
use ma_provider_mcp.Capability.{Capability}
use ma_provider_mcp.Policy.Mode.{deny, same, same_iff, PolicyProfile}
use ma_provider_mcp.Policy.Snapshot.{PolicySnapshot, policy_snapshot}
use ma_provider_mcp.Policy.Resolver.{
  PolicySelection, PolicyResolver, selection_snapshot, override_snapshot, compile_overrides,
  resolver_init, resolve, or_default, exposes, any_allows,
}

compiled_entry :
    (k t : String) (s : PolicySelection) (o : Dict PolicySelection)
    (c : Dict (Option PolicySnapshot))
    → compile_overrides ((k, s) ∷ o) ≡ ok c
    → (x : Option PolicySnapshot) × (rest : Dict (Option PolicySnapshot)) × (override_snapshot s
        ≡ ok x)
      × (compile_overrides o ≡ ok rest)
      × (c ≡ (k, x) ∷ rest)
unfolding compile_overrides
compiled_entry k t s o c h =
    let (x, p, q) = returned (override_snapshot s) _ h in
    let (rest, p', q') = returned (compile_overrides o) _ q in (x, rest, p, p', cc)

-- A compiled dictionary has the keys of the selections, each with its own snapshot.
compiled_missing :
    (t : String) (o : Dict PolicySelection) (c : Dict (Option PolicySnapshot))
    → compile_overrides o ≡ ok c
    → lookup t o ≡ none
    → lookup t c ≡ none
compiled_missing t [] c h e = unfold compile_overrides in ground arith
compiled_missing t ((k, s) ∷ o) c h e =
    let (x, rest, p, p', q) = compiled_entry k t s o c h in
    rw q (ground (arith, compiled_missing t o rest p'))

compiled_found :
    (t : String) (o : Dict PolicySelection) (c : Dict (Option PolicySnapshot)) (s : PolicySelection)
    → compile_overrides o ≡ ok c
    → lookup t o ≡ some s
    → (x : Option PolicySnapshot) × (lookup t c ≡ some x) × (override_snapshot s ≡ ok x)
compiled_found t [] c s h e = absurd (ground arith)
compiled_found t ((k, s') ∷ o) c s h e =
    let (x, rest, p, p', q) = compiled_entry k t s' o c h in
    elim (Bool-cases (str_eq k t)) [
      | inl b ↦ (x, rw (q, b), ground arith)
      | inr b ↦ let (x', l, r) = compiled_found t o rest s p' (rw b at e) in (x', rw (q, b) l, r)
    ]

-- What `resolve` owes to the selections that a resolver was built from.
pub record Resolves (default : PolicySelection) (overrides : Dict PolicySelection)
    (r : PolicyResolver) : Type 0 where
  pub at_default : selection_snapshot default ≡ ok (resolve r none)
  pub at_unknown : (t : String) → lookup t overrides ≡ none → resolve r (some t) ≡ resolve r none
  pub at_inherit :
      (t : String) (s : PolicySelection)
      → lookup t overrides ≡ some s
      → s.choice ≡ none
      → resolve r (some t) ≡ resolve r none
  pub at_override :
      (t : String) (s : PolicySelection) (p : PolicyProfile)
      → lookup t overrides ≡ some s
      → s.choice ≡ some p
      → policy_snapshot p s.custom_modes ≡ ok (resolve r (some t))

-- what a resolver that was built holds
built :
    (d : PolicySelection) (o : Dict PolicySelection) (r : PolicyResolver)
    → resolver_init d o ≡ ok r
    → (selection_snapshot d ≡ ok r.default_snapshot)
      × (compile_overrides o ≡ ok r.override_snapshots)
unfolding resolver_init
built d o r h = ground arith

override_snapshot_inherit :
    (s : PolicySelection) (x : Option PolicySnapshot)
    → override_snapshot s ≡ ok x
    → s.choice ≡ none
    → x ≡ none
unfolding override_snapshot
override_snapshot_inherit s x h e = ground arith

override_snapshot_choice :
    (s : PolicySelection) (x : Option PolicySnapshot) (p : PolicyProfile)
    → override_snapshot s ≡ ok x
    → s.choice ≡ some p
    → (y : PolicySnapshot) × (x ≡ some y) × (policy_snapshot p s.custom_modes ≡ ok y)
unfolding override_snapshot selection_snapshot
override_snapshot_choice s x p h e =
    let (y, q, r) = returned (policy_snapshot p s.custom_modes) (λ y. ok (some y)) (rw e at h) in
    (y, cc, q)

-- A resolver that was built gives the default selection's policy to a request with no token id, to
-- a token id with no override and to one that inherits; to a token id whose override names a
-- profile it gives the policy of that selection.
pub resolver_init-Resolves :
    (d : PolicySelection) (o : Dict PolicySelection) (r : PolicyResolver)
    → resolver_init d o ≡ ok r
    → Resolves d o r
unfolding resolve
resolver_init-Resolves d o r h =
    let (p, q) = built d o r h in
    record {
      at_default = p;
      at_unknown = λ t e. rw (compiled_missing t o r.override_snapshots q e);
      at_inherit = λ t s l e.
          let (x, found, made) = compiled_found t o r.override_snapshots s q l in
          rw (found, override_snapshot_inherit s x made e);
      at_override = λ t s p' l e.
          let (x, found, made) = compiled_found t o r.override_snapshots s q l in
          let (y, g, m) = override_snapshot_choice s x p' made e in rw (found, g) m;
    }

not_deny_of_exposes :
    (c : Capability) (x : Option PolicySnapshot) (d : PolicySnapshot)
    → exposes c x ≡ true
    → (or_default (some x) d).modes c ≢ deny
not_deny_of_exposes c none d h = cc
not_deny_of_exposes c (some s) d h = λ e. ground arith

lookup_absent :
    (t : String) (m : Dict (Option PolicySnapshot))
    → contains (keys m) t ≡ false
    → lookup t m ≡ none
lookup_absent t [] h = refl
lookup_absent t ((j, x) ∷ m) h = ground (arith, lookup_absent t m)

-- an entry that exposes a capability is found by its key
exposing_entry :
    (c : Capability) (m : Dict (Option PolicySnapshot))
    → Distinct (keys m)
    → any (λ entry. exposes c entry.1) m ≡ true
    → (t : String) × (x : Option PolicySnapshot) × (lookup t m ≡ some x) × (exposes c x ≡ true)
exposing_entry c [] u h = absurd (ground arith)
exposing_entry c ((j, x) ∷ m) u h = elim (Bool-cases (exposes c x)) [
  | inl e ↦ (j, x, rw (eq_refl j), e)
  | inr e ↦
      let (t, y, l, q) = exposing_entry c m u.1 (rw e at h) in
      (t, y, ground (arith, eq_iff j t, lookup_absent t m), q)
]

entry_exposes :
    (c : Capability) (t : String) (m : Dict (Option PolicySnapshot)) (x : Option PolicySnapshot)
    → lookup t m ≡ some x
    → exposes c x ≡ true
    → any (λ entry. exposes c entry.1) m ≡ true
entry_exposes c t [] x h e = absurd (ground arith)
entry_exposes c t ((j, y) ∷ m) x h e = ground (arith, entry_exposes c t m x)

exposed_mode : (c : Capability) (s : PolicySnapshot) → exposes c (some s) ≡ true → s.modes c ≢ deny
exposed_mode c s h e = ground arith

mode_exposed : (c : Capability) (s : PolicySnapshot) → s.modes c ≢ deny → exposes c (some s) ≡ true
mode_exposed c s h = elim (Bool-cases (same deny (s.modes c))) [
  | inl e ↦ absurd (h (sym ((same_iff deny (s.modes c)).0 e)))
  | inr e ↦ rw e
]

some_allows :
    (r : PolicyResolver) (c : Capability)
    → Distinct (keys r.override_snapshots)
    → any_allows r c ≡ true
    → (t : Option String) × ((resolve r t).modes c ≢ deny)
unfolding any_allows
some_allows r c u h = elim (Bool-cases (exposes c (some r.default_snapshot))) [
  | inl e ↦ (none, exposed_mode c r.default_snapshot e)
  | inr e ↦
      let (t, x, l, q) = exposing_entry c r.override_snapshots u (rw e at h) in
      (some t, rw l (not_deny_of_exposes c x r.default_snapshot q))
]

pub allows_any :
    (r : PolicyResolver) (c : Capability) (t : Option String)
    → (resolve r t).modes c ≢ deny
    → any_allows r c ≡ true
unfolding any_allows
allows_any r c none h = rw (mode_exposed c r.default_snapshot h)
allows_any r c (some t) h = allows_entry (lookup t r.override_snapshots) refl
  where
    allows_entry :
        (o : Option (Option PolicySnapshot))
        → lookup t r.override_snapshots ≡ o
        → any_allows r c ≡ true
    allows_entry none e = rw (mode_exposed c r.default_snapshot (rw e at h))
    allows_entry (some none) e = rw (mode_exposed c r.default_snapshot (rw e at h))
    allows_entry (some (some s)) e =
        ground
          (arith, entry_exposes c t r.override_snapshots (some s) e (mode_exposed c s (rw e at h)))

-- `any_allows` is true exactly when some request, with a token id or without, resolves to a policy
-- that does not deny the capability, given that the compiled dictionary holds a key once.
pub any_allows_iff :
    (r : PolicyResolver) (c : Capability)
    → Distinct (keys r.override_snapshots)
    → (any_allows r c ≡ true) ↔ ((t : Option String) × ((resolve r t).modes c ≢ deny))
any_allows_iff r c u = (some_allows r c u, λ h. allows_any r c h.0 h.1)
