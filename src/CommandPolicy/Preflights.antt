-- ===== src/CommandPolicy/Preflights.antt =====
-- provider/command_policy.py: the preflights that read nothing but the arguments. `Value` stands
-- for the values of arguments that are not None.
use ma_provider_mcp.Prelude.{Bool, true, false, Option, none, some, [], ◌∷◌, Dict, lookup}
use ma_provider_mcp.Capability.{Capability, config_write_secret, delete_favorites}
use ma_provider_mcp.CommandPolicy.Decision.{CommandPreflight}

module _ {Value : Type 0} where
  -- arguments.get(key) is not None
  abbrev pub is_given : Option (Option Value) → Bool
  is_given (some (some value)) = true
  is_given _ = false

-- CommandPreflight(), with the capability where one is asked for
abbrev pub asking : Bool → Capability → CommandPreflight
asking true c = record { secure_config_value = none; additional_required = c ∷ [] }
asking false c = record { secure_config_value = none; additional_required = [] }

abbrev negated : Bool → Bool
negated true = false
negated false = true

unfoldable pub storage_secret_preflight : {Value : Type 0} → Dict (Option Value) → CommandPreflight
storage_secret_preflight arguments =
    asking (is_given (lookup "password" arguments)) config_write_secret

unfoldable pub favorite_clear_preflight : {Value : Type 0} → Dict (Option Value) → CommandPreflight
favorite_clear_preflight arguments =
    asking (negated (is_given (lookup "favorite" arguments))) delete_favorites
