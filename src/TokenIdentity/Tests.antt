-- ===== src/TokenIdentity/Tests.antt =====
-- The registry of bearers, after tests/test_token_identity.py, and its theorems at small registries.
use ma_provider_mcp.Prelude.{◌≡◌, refl, ◌⊎◌, String, none, some, [], ◌∷◌, lookup, ok}
use ma_provider_mcp.Capability.{Capability, kind}
use ma_provider_mcp.Policy.Mode.{safe_queries, trusted}
use ma_provider_mcp.Policy.Snapshot.{PolicySnapshot}
use ma_provider_mcp.Policy.Profiles.{grant}
use ma_provider_mcp.Policy.Resolver.{PolicyResolver, PolicySelection, resolve}
use ma_provider_mcp.TokenIdentity.Registry.{
  TokenIdentity, Registry, registry_init, evict, bind, discard, find_identity,
  AuthenticatedPolicyResolver, authenticated_init, replace, resolve_bearer,
}
use ma_provider_mcp.TokenIdentity.Closed.{
  IsValid, Reached, started, bound, looked_up, Reached-IsValid, lookup-bind, resolve_bearer-closed,
}
use ma_provider_mcp.TokenIdentity.Uses.{
  Later, Used, begun, used_bind, used_lookup, bind-evicts_oldest,
}

-- A fingerprint that tells the bearers below apart.
abbrev print : String → String
print bearer = bearer

abbrev first_token : TokenIdentity
first_token = record { user_id = "u1"; token_id = some "t1" }

abbrev second_token : TokenIdentity
second_token = record { user_id = "u2"; token_id = none }

abbrev fresh : Registry
fresh = record { capacity = 2; entries = []; resolution_failures = 0; changes = 0 }

abbrev filled : Registry
filled = record {
  capacity = 2;
  entries = ("b", second_token) ∷ ("a", first_token) ∷ [];
  resolution_failures = 0;
  changes = 2;
}

steps :
    (find_identity print "a" (bind print "b" second_token (bind print "a" first_token fresh))).1
    ≡ filled
unfolding bind evict find_identity
steps = refl

runs :
    (registry_init 0 ≡ none)
    × ((bind print "c" first_token filled).entries ≡ ("a", first_token) ∷ ("c", first_token) ∷ [])
    × ((bind print "c" first_token filled).changes ≡ 3)
    × ((discard print "a" filled).entries ≡ ("b", second_token) ∷ [])
unfolding registry_init bind evict discard
runs = (refl, refl, refl, refl)

fresh-Reached : Reached print fresh
unfolding registry_init
fresh-Reached = started 2 fresh refl

filled-Reached : Reached print filled
unfolding bind evict find_identity
filled-Reached =
    looked_up "a" (bind print "b" second_token (bind print "a" first_token fresh))
      (bound "b" second_token _ (bound "a" first_token fresh fresh-Reached))

Reached-IsValid_example : IsValid filled
Reached-IsValid_example = Reached-IsValid print filled filled-Reached

lookup-bind_example :
    (lookup "c" (bind print "c" first_token filled).entries ≡ some first_token)
    × ((lookup "a" (bind print "c" first_token filled).entries ≡ none)
        ⊎ (lookup "a" (bind print "c" first_token filled).entries ≡ some first_token))
lookup-bind_example = lookup-bind print "c" first_token filled filled-Reached "a" refl

filled-Used : Used print ("a" ∷ "b" ∷ "a" ∷ []) filled
unfolding registry_init bind evict find_identity
filled-Used =
    used_lookup "a" ("b" ∷ "a" ∷ [])
      (bind print "b" second_token (bind print "a" first_token fresh))
      (used_bind "b" second_token ("a" ∷ []) _
        (used_bind "a" first_token [] fresh (begun 2 fresh refl)))

bind-evicts_oldest_example :
    ((bind print "c" first_token filled).entries ≡ ("a", first_token) ∷ ("c", first_token) ∷ [])
    × Later ("a" ∷ "b" ∷ "a" ∷ []) "b" (("a", first_token) ∷ [])
bind-evicts_oldest_example =
    bind-evicts_oldest print ("a" ∷ "b" ∷ "a" ∷ []) filled filled-Used "c" first_token
      ("b", second_token) (("a", first_token) ∷ []) refl refl refl

abbrev open_policy : PolicySnapshot
open_policy = record { profile = trusted; modes = λ c. grant trusted (kind c) }

abbrev defaults : PolicySelection
defaults = record { choice = some trusted; custom_modes = [] }

abbrev policies : PolicyResolver
policies = record {
  default = defaults;
  overrides = [];
  default_snapshot = open_policy;
  override_snapshots = [];
}

resolve_bearer-closed_example :
    (a : AuthenticatedPolicyResolver) × (authenticated_init policies ≡ ok a)
    × ((resolve_bearer print (replace policies a) "c" (bind print "c" first_token filled)).0
        ≡ resolve policies (some "t1"))
    × ((c : Capability)
        → (resolve_bearer print (replace policies a) "c" (discard print "c" filled)).0.modes c
          ≡ grant safe_queries (kind c))
resolve_bearer-closed_example =
    resolve_bearer-closed print "c" first_token filled filled-Reached policies policies
