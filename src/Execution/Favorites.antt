-- ===== src/Execution/Favorites.antt =====
-- provider/execution.py and provider/command_policy.py: the command that sets a favorite, which
-- clears it where its argument is None.
use ma_provider_mcp.Prelude.{
  ◌≡◌, refl, ap, ◌∙◌, String, false, none, some, Option, [], ◌∷◌, Dict, lookup,
}
use ma_provider_mcp.Capability.{Capability, edit_favorites, delete_favorites}
use ma_provider_mcp.Policy.Mode.{allow, confirm, combine_policy_modes}
use ma_provider_mcp.Policy.Snapshot.{PolicySnapshot}
use ma_provider_mcp.CommandPolicy.Decision.{
  CommandDecision, favorite_clear, decision_modes, effective_mode,
}
use ma_provider_mcp.CommandPolicy.Families.{family_policies, scope_families}
use ma_provider_mcp.CommandPolicy.Exact.{command_is_hard_denied, exact_policies}
use ma_provider_mcp.CommandPolicy.Scope.{
  named, matches, longest_match, matching_family, value_operation, scope_operation, scope_family,
  is_destructive, operation,
}
use ma_provider_mcp.CommandPolicy.Resolve.{
  required_capabilities, preflight_of, family_decision, is_system, family_or_scope,
  resolve_command_policy,
}
use ma_provider_mcp.CommandPolicy.Preflights.{is_given, favorite_clear_preflight}
use ma_provider_mcp.Execution.Invocation.{Invocation, DynamicEntry}
use ma_provider_mcp.Execution.Evidence.{invocation_mode, shown_as_confirm, catalog_mode}
use ma_provider_mcp.Execution.Shown.{catalog_mode-misses}

-- What the command resolves to under a scope for writing.
abbrev pub favorite_decision : (String → String) → CommandDecision
favorite_decision casefold =
    resolve_command_policy casefold "music/favorites/set_item" (named "library.write") none

-- str.casefold leaves the two names as they are.
abbrev Folded : (String → String) → Type 0
Folded casefold =
    (casefold "music/favorites/set_item" ≡ "music/favorites/set_item")
    × (casefold "library.write" ≡ "library.write")

favorite_fields :
    (casefold : String → String)
    → Folded casefold
    → ((favorite_decision casefold).required_capabilities ≡ edit_favorites ∷ [])
      × ((favorite_decision casefold).alternative_capabilities ≡ [])
      × ((favorite_decision casefold).secret_capability ≡ none)
      × ((favorite_decision casefold).hard_denied ≡ false)
      × ((favorite_decision casefold).preflight ≡ some favorite_clear)
unfolding family_policies scope_families command_is_hard_denied exact_policies matches longest_match
    matching_family value_operation scope_operation scope_family is_destructive operation
    required_capabilities preflight_of family_decision is_system family_or_scope
    resolve_command_policy
favorite_fields casefold (folded, folded_scope) =
    rw (folded, folded_scope) (refl, refl, refl, refl, refl)

-- An entry whose decision asks for one allowed capability, and nothing else.
shown_plain :
    (entry : DynamicEntry) (d : CommandDecision) (policy : PolicySnapshot) (c : Capability)
    → entry.decision ≡ some d
    → entry.allow_impersonation ≡ false
    → d.required_capabilities ≡ c ∷ []
    → d.alternative_capabilities ≡ []
    → d.secret_capability ≡ none
    → d.hard_denied ≡ false
    → policy.modes c ≡ allow
    → catalog_mode entry policy ≡ allow
unfolding catalog_mode shown_as_confirm effective_mode decision_modes combine_policy_modes
shown_plain entry d policy c h i r a s f m = rw (h, catalog_mode, i, r, a, s, f, m)

cleared :
    {V : Type 0} (arguments : Dict (Option V))
    → is_given (lookup "favorite" arguments) ≡ false
    → (favorite_clear_preflight arguments).additional_required ≡ delete_favorites ∷ []
unfolding favorite_clear_preflight
cleared arguments h = rw h

-- Clearing a favorite departs from what the catalog shows. Take an entry that does not allow
-- impersonation, whose decision is the one that the command resolves to under the scope
-- library.write with no profile, where str.casefold leaves the two names as they are; a request
-- whose `favorite` is missing or None, with its preflight; and a policy that allows `edit:favorites`
-- and confirms `delete:favorites`. The catalog shows the entry with allow, while the mode of the
-- invocation is confirm.
pub favorite_clear-prompts :
    {Token User V : Type 0} (casefold : String → String)
    (invocation : Invocation Token User (Dict (Option V)))
    → Folded casefold
    → invocation.entry.decision ≡ some (favorite_decision casefold)
    → invocation.entry.allow_impersonation ≡ false
    → invocation.preflight ≡ favorite_clear_preflight invocation.arguments
    → is_given (lookup "favorite" invocation.arguments) ≡ false
    → invocation.policy.modes edit_favorites ≡ allow
    → invocation.policy.modes delete_favorites ≡ confirm
    → (catalog_mode invocation.entry invocation.policy ≡ allow)
      × (invocation_mode invocation false ≡ confirm)
favorite_clear-prompts casefold invocation folded h i p missing edit clear =
    let (r, a, s, f, _) = favorite_fields casefold folded in
    let shown =
      shown_plain invocation.entry (favorite_decision casefold) invocation.policy edit_favorites h i
        r a s f edit in
    (
      shown,
      catalog_mode-misses invocation (favorite_decision casefold) h delete_favorites shown
          (ap (λ q. q.additional_required) p ∙ cleared invocation.arguments missing) clear,
    )
