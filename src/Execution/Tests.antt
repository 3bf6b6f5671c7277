-- ===== src/Execution/Tests.antt =====
-- The theorems on invocations, at a command that sets a favorite.
use ma_provider_mcp.Prelude.{
  ◌≡◌, ◌≢◌, ◌↔◌, refl, String, Bool, true, false, some, none, List, [], ◌∷◌, Dict, Option, Member,
}
use ma_provider_mcp.Capability.{Capability, edit_favorites, delete_favorites, query_library}
use ma_provider_mcp.Policy.Mode.{PolicyMode, allow, confirm, deny, custom, combine_policy_modes}
use ma_provider_mcp.Policy.Snapshot.{PolicySnapshot}
use ma_provider_mcp.CommandPolicy.Decision.{
  CommandDecision, CommandPreflight, decision, decision_modes, alternative_mode, effective_mode,
}
use ma_provider_mcp.CommandPolicy.Preflights.{favorite_clear_preflight}
use ma_provider_mcp.Execution.Invocation.{Handler, DynamicEntry, Invocation}
use ma_provider_mcp.Execution.Evidence.{
  capability, impersonation, unknown, decision_mode, invocation_mode, decision_confirmed,
  confirmed_capabilities, confirmation_evidence, shown_as_confirm, catalog_mode,
}
use ma_provider_mcp.Execution.Denied.{denied_capability-denies}
use ma_provider_mcp.Execution.Evidence.{denied_capability, first_with, sorted}
use ma_provider_mcp.Execution.Confirming.{NeedsConfirmation}
use ma_provider_mcp.Execution.Reasons.{confirmation_evidence-exact, confirmation_evidence-empty}
use ma_provider_mcp.Execution.Shown.{catalog_mode-conservative}
use ma_provider_mcp.Execution.Favorites.{favorite_decision, favorite_clear-prompts}

abbrev favorite_modes : Capability → PolicyMode
favorite_modes delete_favorites = confirm
favorite_modes query_library = deny
favorite_modes _ = allow

abbrev policy : PolicySnapshot
policy = record { profile = custom; modes = favorite_modes }

-- The name is folded already.
abbrev fold : String → String
fold text = text

abbrev handler : Handler
handler = record {
  identity = 1;
  required_scope = none;
  authenticated = true;
  alias = false;
  target_callable = true;
  has_signature = true;
  has_type_hints = true;
}

abbrev entry : CommandDecision → Bool → DynamicEntry
entry d may_impersonate = record {
  name = "ma_music_favorites_set_item";
  command = "music/favorites/set_item";
  required_scope = some "library.write";
  allow_impersonation = may_impersonate;
  handler = handler;
  annotations = [];
  profile = none;
  decision = some d;
  policy_mode = allow;
}

abbrev flight : List Capability → CommandPreflight
flight extra = record { secure_config_value = none; additional_required = extra }

-- The value of an argument that is given is a text here.
abbrev invoke :
    CommandDecision → Bool → CommandPreflight → Invocation Bool Bool (Dict (Option String))
invoke d may_impersonate preflight = record {
  entry = entry d may_impersonate;
  arguments = ("uri", some "library://track/1") ∷ ("favorite", none) ∷ [];
  auth = some (true, true);
  impersonated_user = none;
  preflight = preflight;
  policy = policy;
}

abbrev edits : CommandDecision
edits = decision [] (edit_favorites ∷ [])

abbrev clearing : Invocation Bool Bool (Dict (Option String))
clearing = invoke edits false (flight (delete_favorites ∷ []))

runs :
    (invocation_mode clearing false ≡ confirm)
    × (invocation_mode (invoke edits true (flight [])) false ≡ allow)
    × (invocation_mode (invoke edits true (flight [])) true ≡ confirm)
    × (invocation_mode (invoke edits true (flight (query_library ∷ []))) true ≡ deny)
    × (confirmation_evidence clearing true ≡ capability delete_favorites ∷ impersonation ∷ [])
    × (catalog_mode (entry edits true) policy ≡ confirm)
    × (catalog_mode (entry edits false) policy ≡ allow)
unfolding combine_policy_modes alternative_mode decision_modes effective_mode decision_mode
    invocation_mode decision_confirmed confirmed_capabilities confirmation_evidence shown_as_confirm
    catalog_mode
runs = (refl, refl, refl, refl, refl, refl, refl)

confirmation_evidence-exact_example :
    ((c : Capability)
      → Member (capability c) (confirmation_evidence clearing true)
        ↔ NeedsConfirmation policy edits (delete_favorites ∷ []) c)
    × (Member impersonation (confirmation_evidence clearing true) ↔ (true ≡ true))
    × ¬ Member unknown (confirmation_evidence clearing true)
unfolding combine_policy_modes decision_modes effective_mode decision_mode invocation_mode
confirmation_evidence-exact_example = confirmation_evidence-exact clearing true edits refl refl

confirmation_evidence-empty_example :
    (confirmation_evidence clearing false ≡ []) ↔ (invocation_mode clearing false ≡ allow)
confirmation_evidence-empty_example = confirmation_evidence-empty clearing false

catalog_mode-conservative_example : invocation_mode (invoke edits false (flight [])) false ≢ confirm
unfolding combine_policy_modes decision_modes effective_mode shown_as_confirm catalog_mode
catalog_mode-conservative_example =
    catalog_mode-conservative (invoke edits false (flight [])) edits refl false refl (λ e. cc)
      (λ c m. absurd m)

favorite_clear-prompts_example :
    (catalog_mode (entry (favorite_decision fold) false) policy ≡ allow)
    × (invocation_mode
          (invoke (favorite_decision fold) false (flight (delete_favorites ∷ [])))
          false
        ≡ confirm)
unfolding favorite_clear_preflight
favorite_clear-prompts_example =
    favorite_clear-prompts fold
      (invoke (favorite_decision fold) false (flight (delete_favorites ∷ []))) (refl, refl) refl
      refl refl refl refl refl

denied_capability-denies_example : favorite_modes query_library ≡ deny
unfolding denied_capability first_with sorted
denied_capability-denies_example =
    denied_capability-denies edits (flight (query_library ∷ [])) policy query_library refl
