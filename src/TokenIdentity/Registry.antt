-- ===== src/TokenIdentity/Registry.antt =====
-- provider/token_identity.py: `TokenIdentityRegistry` and `AuthenticatedPolicyResolver`. The ordered
-- dictionary is a list, the oldest entry first. The fingerprint of a bearer is SHA-256, a parameter.
-- `changes` counts the calls of `on_change`.
use ma_provider_mcp.Prelude.{
  ℕ, ◌+◌, String, Bool, true, false, not, ◌||◌, ◌&&◌, Option, none, some, [], ◌∷◌, ◌++◌, length,
  ltb, str_eq, Dict, lookup, is_some, if◌then◌else◌, Result, ok, ◌>>=◌,
}
use ma_provider_mcp.Policy.Mode.{safe_queries}
use ma_provider_mcp.Policy.Snapshot.{PolicySnapshot, PolicyError, policy_snapshot}
use ma_provider_mcp.Policy.Resolver.{PolicyResolver, resolve}

pub record TokenIdentity : Type 0 where
  pub user_id : String
  pub token_id : Option String

pub record Registry : Type 0 where
  pub capacity : ℕ
  pub entries : Dict TokenIdentity
  pub resolution_failures : ℕ
  pub changes : ℕ

-- None where the constructor raises
unfoldable pub registry_init : ℕ → Option Registry
registry_init capacity =
    if ltb capacity 1
    then none
    else some (record { capacity = capacity; entries = []; resolution_failures = 0; changes = 0 })

unfoldable pub record_resolution_failure : Registry → Registry
record_resolution_failure r = record r { resolution_failures = r.resolution_failures + 1 }

abbrev same_id : Option String → Option String → Bool
same_id none none = true
same_id (some a) (some b) = str_eq a b
same_id _ _ = false

abbrev pub same_identity : Option TokenIdentity → TokenIdentity → Bool
same_identity none i = false
same_identity (some j) i = str_eq j.user_id i.user_id && same_id j.token_id i.token_id

-- entries.pop(key, None)
abbrev pub erase : String → Dict TokenIdentity → Dict TokenIdentity
erase k [] = []
erase k ((j, i) ∷ m) = let rest = erase k m in if str_eq j k then m else (j, i) ∷ rest

-- entries[key] = identity, and move_to_end
abbrev pub put_last : String → TokenIdentity → Dict TokenIdentity → Dict TokenIdentity
put_last k i m = erase k m ++ (k, i) ∷ []

-- while len(entries) > capacity: popitem(last=False)
unfoldable pub evict : ℕ → Dict TokenIdentity → Dict TokenIdentity
evict capacity [] = []
evict capacity (e ∷ m) =
    let rest = evict capacity m in if ltb capacity (length (e ∷ m)) then rest else e ∷ m

abbrev pub call_if : Bool → Registry → Registry
call_if true r = record r { changes = r.changes + 1 }
call_if false r = r

-- `AuthenticatedPolicyResolver`; the registry that it refers to is passed beside it.
pub record AuthenticatedPolicyResolver : Type 0 where
  pub policies : PolicyResolver
  pub lookup_failure : PolicySnapshot

-- `__init__`, which expands the profile for failed lookups
unfoldable pub authenticated_init : PolicyResolver → Result PolicyError AuthenticatedPolicyResolver
authenticated_init policies = policy_snapshot safe_queries [] >>= λ lookup_failure.
    ok (record { policies = policies; lookup_failure = lookup_failure })

unfoldable pub replace : PolicyResolver → AuthenticatedPolicyResolver → AuthenticatedPolicyResolver
replace policies a = record a { policies = policies }

module _ (fingerprint : String → String) where
  unfoldable pub bind : String → TokenIdentity → Registry → Registry
  bind bearer_token identity r =
      let k = fingerprint bearer_token in
      let changed = not (same_identity (lookup k r.entries) identity) in
      let put = put_last k identity r.entries in
      call_if (changed || ltb r.capacity (length put)) (record r { entries = evict r.capacity put })

  unfoldable pub discard : String → Registry → Registry
  discard bearer_token r =
      call_if (is_some (lookup (fingerprint bearer_token) r.entries))
        (record r { entries = erase (fingerprint bearer_token) r.entries })

  abbrev refreshed : String → Option TokenIdentity → Dict TokenIdentity → Dict TokenIdentity
  refreshed k none m = m
  refreshed k (some i) m = put_last k i m

  unfoldable pub find_identity : String → Registry → Option TokenIdentity × Registry
  find_identity bearer_token r =
      let found = lookup (fingerprint bearer_token) r.entries in
      (found, record r { entries = refreshed (fingerprint bearer_token) found r.entries })

  -- `AuthenticatedPolicyResolver.resolve`
  abbrev policy_or : Option TokenIdentity → AuthenticatedPolicyResolver → PolicySnapshot
  policy_or none a = a.lookup_failure
  policy_or (some i) a = resolve a.policies i.token_id

  unfoldable pub resolve_bearer :
      AuthenticatedPolicyResolver → String → Registry → PolicySnapshot × Registry
  resolve_bearer a bearer_token r =
      let (found, after) = find_identity bearer_token r in (policy_or found a, after)
