-- ===== src/CommandPolicy/Decision.antt =====
-- provider/command_policy.py: `CommandDecision`, `CommandPreflight` and `FamilyPolicy`, and
-- provider/command_profiles.py: `CommandProfile`. A frozenset of capability texts is a list of
-- capabilities: every text that the module puts in such a set is `str(capability)`.
use ma_provider_mcp.Prelude.{
  String, Bool, true, false, Option, none, List, [], ◌∷◌, ◌++◌, map, any, is_empty, Dict,
  if◌then◌else◌,
}
use ma_provider_mcp.Capability.{Capability}
use ma_provider_mcp.Policy.Mode.{PolicyMode, deny, allow, confirm, same, combine_policy_modes}
use ma_provider_mcp.Policy.Snapshot.{PolicySnapshot}

pub data Operation : Type 0 where
  read control write delete system : Operation

-- The values of `CommandDecision.preflight`.
pub data Preflight : Type 0 where
  config_secret_read config_secret_write storage_secret_write : Preflight
  favorite_clear config_flow_submit config_flow_abort : Preflight

pub record CommandDecision : Type 0 where
  pub annotations : Dict Bool
  pub required_capabilities : List Capability
  pub preflight : Option Preflight
  pub alternative_capabilities : List Capability
  pub secret_capability : Option Capability
  pub hard_denied : Bool

-- CommandDecision(annotations, required), the other fields at their defaults
abbrev pub decision : Dict Bool → List Capability → CommandDecision
decision annotations required = record {
  annotations = annotations;
  required_capabilities = required;
  preflight = none;
  alternative_capabilities = [];
  secret_capability = none;
  hard_denied = false;
}

-- CommandDecision({}, hard_denied=True), and with annotations
abbrev pub denied : Dict Bool → CommandDecision
denied annotations = record {
  annotations = annotations;
  required_capabilities = [];
  preflight = none;
  alternative_capabilities = [];
  secret_capability = none;
  hard_denied = true;
}

-- The mode of an any-of group.
unfoldable pub alternative_mode : List PolicyMode → PolicyMode
alternative_mode alternatives =
    if any (same allow) alternatives
    then allow
    else if any (same confirm) alternatives
    then confirm
    else deny

-- The list `modes` of `effective_mode`.
unfoldable pub decision_modes : CommandDecision → PolicySnapshot → List Capability → List PolicyMode
decision_modes d policy additional_required =
    map policy.modes (d.required_capabilities ++ additional_required)
    ++ (if is_empty d.alternative_capabilities
        then []
        else alternative_mode (map policy.modes d.alternative_capabilities) ∷ [])

unfoldable pub effective_mode : CommandDecision → PolicySnapshot → List Capability → PolicyMode
effective_mode d policy additional_required =
    if d.hard_denied
    then deny
    else combine_policy_modes (decision_modes d policy additional_required)

pub record CommandPreflight : Type 0 where
  pub secure_config_value : Option Bool
  pub additional_required : List Capability

-- `capabilities` keeps the order of the dict.
pub record FamilyPolicy : Type 0 where
  pub prefix : String
  pub capabilities : List (Operation × Capability)
  pub readonly : Bool

pub record CommandProfile : Type 0 where
  pub command : String
  pub search_aliases : List String
  pub argument_aliases : Dict String
  pub excluded_arguments : List String
  pub list_arguments : List String
  pub compact_fields : List String
  pub operation_override : Option Operation
  pub annotations : Dict Bool
  pub allow_extra_kwargs : Bool
