-- ===== src/TokenIdentity/Closed.antt =====
-- provider/token_identity.py: the bound of the registry, what a binding keeps, and the policy of a
-- bearer.
use ma_provider_mcp.Prelude.{
  ℕ, ◌+◌, ◌≤◌, ◌≡◌, subst, ◌∙◌, ◌⊎◌, inl, inr, String, false, none, some, [], ◌∷◌, arith, length,
  str_eq, Dict, lookup, length-append, Option-cases, ok,
}
use ma_provider_mcp.Capability.{Capability, kind}
use ma_provider_mcp.Policy.Mode.{safe_queries}
use ma_provider_mcp.Policy.Profiles.{grant, policy_snapshot-grant}
use ma_provider_mcp.Policy.Resolver.{PolicyResolver, resolve}
use ma_provider_mcp.TokenIdentity.Registry.{
  TokenIdentity, Registry, registry_init, record_resolution_failure, erase, put_last, evict, bind,
  discard, find_identity, AuthenticatedPolicyResolver, authenticated_init, replace, resolve_bearer,
}
use ma_provider_mcp.TokenIdentity.Recency.{
  IsDict, length-erase-le, erase-found, length-evict-le, evict-last, lookup-erase_self,
  IsDict-erase, lookup-evict, IsDict-evict, IsDict-append, lookup-append_other, lookup-erase_other,
}

-- A registry as its constructor leaves it and its operations keep it: each key once, and no more
-- entries than its positive capacity.
pub record IsValid (r : Registry) : Type 0 where
  pub positive : 1 ≤ r.capacity
  pub keyed : IsDict r.entries
  pub bounded : length r.entries ≤ r.capacity

init_positive :
    (capacity : ℕ) (r : Registry)
    → registry_init capacity ≡ some r
    → (1 ≤ r.capacity) × (r.entries ≡ [])
unfolding registry_init
init_positive capacity r h = ground arith

init-IsValid : (capacity : ℕ) (r : Registry) → registry_init capacity ≡ some r → IsValid r
init-IsValid capacity r h =
    let (p, e) = init_positive capacity r h in
    record { positive = p; keyed = rw e tt; bounded = rw e (omega arith) }

module _ (k : String) (i : TokenIdentity) (m : Dict TokenIdentity) (d : IsDict m) where
  put_last-IsDict : IsDict (put_last k i m)
  put_last-IsDict = IsDict-append k i (erase k m) (lookup-erase_self k m d) (IsDict-erase k m d)

  length-put_last-le : length (put_last k i m) ≤ length m + 1
  length-put_last-le = omega (arith, length-append (erase k m) ((k, i) ∷ []), length-erase-le k m)

  lookup-put_last : (j : String) → str_eq k j ≡ false → lookup j (put_last k i m) ≡ lookup j m
  lookup-put_last j h = lookup-append_other j k i (erase k m) h ∙ lookup-erase_other j k m h

module _ (fingerprint : String → String) (b : String) (r : Registry) where
  pub bind_fields :
      (i : TokenIdentity)
      → ((bind fingerprint b i r).entries ≡ evict r.capacity (put_last (fingerprint b) i r.entries))
        × ((bind fingerprint b i r).capacity ≡ r.capacity)
  unfolding bind
  bind_fields i = ground arith

  pub discard_fields :
      ((discard fingerprint b r).entries ≡ erase (fingerprint b) r.entries)
      × ((discard fingerprint b r).capacity ≡ r.capacity)
  unfolding discard
  discard_fields = ground arith

  bind-IsValid : (i : TokenIdentity) → IsValid r → IsValid (bind fingerprint b i r)
  bind-IsValid i v =
      let (e, c) = bind_fields i in
      record {
        positive = rw c v.positive;
        keyed =
            rw e (IsDict-evict r.capacity _ (put_last-IsDict (fingerprint b) i r.entries v.keyed));
        bounded = rw (e, c) (length-evict-le r.capacity _);
      }

  discard-IsValid : IsValid r → IsValid (discard fingerprint b r)
  discard-IsValid v =
      let (e, c) = discard_fields in
      record {
        positive = rw c v.positive;
        keyed = rw e (IsDict-erase (fingerprint b) r.entries v.keyed);
        bounded = rw (e, c) (omega (arith, length-erase-le (fingerprint b) r.entries, v.bounded));
      }

  find_identity-IsValid : IsValid r → IsValid (find_identity fingerprint b r).1
  unfolding find_identity
  find_identity-IsValid v = elim (Option-cases (lookup (fingerprint b) r.entries)) [
    | inl e ↦ rw e v
    | inr (i, e) ↦ rw e (record {
      positive = v.positive;
      keyed = put_last-IsDict (fingerprint b) i r.entries v.keyed;
      bounded = omega (
        arith,
        v.bounded,
        length-append (erase (fingerprint b) r.entries) ((fingerprint b, i) ∷ []),
        erase-found (fingerprint b) r.entries i e,
      );
    })
  ]

-- The registries that a run of the operations reaches.
pub data Reached (fingerprint : String → String) : Registry → Type 0 where
  started : (capacity : ℕ) (r : Registry) → registry_init capacity ≡ some r → Reached fingerprint r
  bound :
      (b : String) (i : TokenIdentity) (r : Registry)
      → Reached fingerprint r
      → Reached fingerprint (bind fingerprint b i r)
  discarded :
      (b : String) (r : Registry)
      → Reached fingerprint r
      → Reached fingerprint (discard fingerprint b r)
  looked_up :
      (b : String) (r : Registry)
      → Reached fingerprint r
      → Reached fingerprint (find_identity fingerprint b r).1
  failed :
      (r : Registry) → Reached fingerprint r → Reached fingerprint (record_resolution_failure r)

failure-IsValid : (r : Registry) → IsValid r → IsValid (record_resolution_failure r)
unfolding record_resolution_failure
failure-IsValid r v = record { positive = v.positive; keyed = v.keyed; bounded = v.bounded }

module _ (fingerprint : String → String) where
  -- Every registry that the operations reach from the constructor holds each fingerprint once and at
  -- most as many entries as its capacity, which is at least one.
  pub Reached-IsValid : (r : Registry) → Reached fingerprint r → IsValid r
  Reached-IsValid _ (started capacity r h) = init-IsValid capacity r h
  Reached-IsValid _ (bound b i r p) = bind-IsValid fingerprint b r i (Reached-IsValid r p)
  Reached-IsValid _ (discarded b r p) = discard-IsValid fingerprint b r (Reached-IsValid r p)
  Reached-IsValid _ (looked_up b r p) = find_identity-IsValid fingerprint b r (Reached-IsValid r p)
  Reached-IsValid _ (failed r p) = failure-IsValid r (Reached-IsValid r p)

module _ (fingerprint : String → String) (b : String) (i : TokenIdentity) (r : Registry)
    (reached : Reached fingerprint r) where
  valid : IsValid r
  valid = Reached-IsValid fingerprint r reached

  lookup-bind_self : lookup (fingerprint b) (bind fingerprint b i r).entries ≡ some i
  lookup-bind_self = rw (bind_fields fingerprint b r i).0 (
      evict-last r.capacity (fingerprint b) i (erase (fingerprint b) r.entries) valid.positive
        (lookup-erase_self (fingerprint b) r.entries valid.keyed))

  -- After a binding the bearer has the new identity, whatever else is evicted, and every other
  -- fingerprint has the identity that it had, or none.
  pub lookup-bind :
      (k : String)
      → str_eq (fingerprint b) k ≡ false
      → (lookup (fingerprint b) (bind fingerprint b i r).entries ≡ some i)
        × ((lookup k (bind fingerprint b i r).entries ≡ none)
            ⊎ (lookup k (bind fingerprint b i r).entries ≡ lookup k r.entries))
  lookup-bind k other = (
    lookup-bind_self,
    rw (bind_fields fingerprint b r i).0 (
        subst
          (λ found.
            (lookup k (evict r.capacity (put_last (fingerprint b) i r.entries)) ≡ none)
            ⊎ (lookup k (evict r.capacity (put_last (fingerprint b) i r.entries)) ≡ found))
          (lookup-put_last (fingerprint b) i r.entries valid.keyed k other)
          (lookup-evict r.capacity k (put_last (fingerprint b) i r.entries)
            (put_last-IsDict (fingerprint b) i r.entries valid.keyed))),
  )

  -- A policy resolver can always be made, with any policies. Whatever policies replace its own, a
  -- bearer that was just bound has the one of its token, and a bearer that was just discarded has
  -- the modes of safe queries for every capability.
  pub resolve_bearer-closed :
      (first policies : PolicyResolver)
      → (a : AuthenticatedPolicyResolver) × (authenticated_init first ≡ ok a)
        × ((resolve_bearer fingerprint (replace policies a) b (bind fingerprint b i r)).0
            ≡ resolve policies i.token_id)
        × ((c : Capability)
            → (resolve_bearer fingerprint (replace policies a) b (discard fingerprint b r)).0.modes
                c
              ≡ grant safe_queries (kind c))
  unfolding resolve_bearer find_identity authenticated_init replace
  resolve_bearer-closed first policies = (
    record {
      policies = first;
      lookup_failure = record { profile = safe_queries; modes = λ c. grant safe_queries (kind c) };
    },
    rw (policy_snapshot-grant safe_queries (λ e. cc)),
    rw lookup-bind_self,
    λ c. rw (
      (discard_fields fingerprint b r).0,
      lookup-erase_self (fingerprint b) r.entries valid.keyed,
    ),
  )
