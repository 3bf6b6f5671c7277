-- ===== src/CommandPolicy/Resolve.antt =====
-- provider/command_policy.py: `resolve_command_policy` and the fallback by scope.
use ma_provider_mcp.Prelude.{
  String, Bool, true, false, not, ◌||◌, Option, none, some, List, [], ◌∷◌, is_empty, Dict, contains,
  lookup, update, starts_with_any, if◌then◌else◌,
}
use ma_provider_mcp.Capability.{Capability, system_admin, config_write_secret}
use ma_provider_mcp.CommandPolicy.Decision.{
  Operation, read, control, write, delete, system, Preflight, config_secret_read,
  config_secret_write, storage_secret_write, favorite_clear, CommandDecision, decision, denied,
  FamilyPolicy, CommandProfile,
}
use ma_provider_mcp.CommandPolicy.Exact.{
  read_annotations, control_annotations, destructive_annotations, system_annotations,
  system_command_prefixes, storage_secret_commands, command_is_hard_denied, exact_policies,
}
use ma_provider_mcp.CommandPolicy.Scope.{
  Scope, first_column, matching_family, scope_family, operation,
}

-- `_annotations`; the flag `destructive` is true for the operation `delete` alone.
abbrev default_annotations : Operation → Dict Bool
default_annotations delete = destructive_annotations
default_annotations read = read_annotations
default_annotations control = control_annotations
default_annotations write = control_annotations
default_annotations system = system_annotations

-- annotations.update(profile.annotations), where there is a profile
abbrev with_profile : Dict Bool → Option CommandProfile → Dict Bool
with_profile annotations none = annotations
with_profile annotations (some profile) = update annotations profile.annotations

abbrev pub is_read : Operation → Bool
is_read read = true
is_read _ = false

abbrev pub same_operation : Operation → Operation → Bool
same_operation read read = true
same_operation control control = true
same_operation write write = true
same_operation delete delete = true
same_operation system system = true
same_operation _ _ = false

-- family.capabilities.get(operation)
abbrev pub column_of : Operation → List (Operation × Capability) → Option Capability
column_of o [] = none
column_of o ((p, c) ∷ columns) = if same_operation p o then some c else column_of o columns

abbrev or_else : Option Capability → Option Capability → Option Capability
or_else none other = other
or_else (some c) other = some c

abbrev to_set : Option Capability → List Capability
to_set none = []
to_set (some c) = c ∷ []

abbrev is_delete : Operation → Bool
is_delete delete = true
is_delete _ = false

unfoldable pub required_capabilities : FamilyPolicy → Operation → List Capability
required_capabilities family operation = to_set (
    or_else (column_of operation family.capabilities)
      (if is_delete operation then column_of write family.capabilities else none))

-- The scope's first capability, unless that is a read column and the command is no read.
abbrev pub scope_capability : Operation → Option (Operation × Capability) → Option Capability
scope_capability operation none = none
scope_capability operation (some (scope_operation, capability)) =
    if is_read operation || not (is_read scope_operation) then some capability else none

-- The capability of the fallback: the operation's own column, else the scope's first one.
unfoldable pub fallback_capability : Operation → FamilyPolicy → Option Capability
fallback_capability operation family =
    or_else (column_of operation family.capabilities)
      (scope_capability operation (first_column family))

unfoldable pub preflight_of : String → Option Preflight
preflight_of command =
    if contains
      ("config/providers/get_value" ∷ "config/core/get_value" ∷ "config/players/get_value" ∷ [])
      command
    then some config_secret_read
    else if contains ("config/providers/save" ∷ "config/core/save" ∷ "config/players/save" ∷ [])
        command
    then some config_secret_write
    else if contains storage_secret_commands command
    then some storage_secret_write
    else if contains ("music/favorites/set_item" ∷ []) command
    then some favorite_clear
    else none

abbrev secret_of : Option Preflight → Option Capability
secret_of (some config_secret_write) = some config_write_secret
secret_of (some storage_secret_write) = some config_write_secret
secret_of _ = none

-- The end of `_scope_fallback_policy`.
unfoldable pub fallback_decision :
    Operation → Option Capability → Option CommandProfile → CommandDecision
fallback_decision operation none profile = denied []
fallback_decision operation (some capability) profile =
    decision (with_profile (default_annotations operation) profile) (capability ∷ [])

-- The end of `resolve_command_policy`, for a family and its operation.
unfoldable pub family_decision :
    String → FamilyPolicy → Operation → Option CommandProfile → CommandDecision
family_decision command family operation profile =
    let annotations =
      with_profile (if family.readonly then read_annotations else default_annotations operation)
        profile in
    let required = required_capabilities family operation in
    let preflight = preflight_of command in
    if is_empty required then denied annotations else record {
      annotations = annotations;
      required_capabilities = required;
      preflight = preflight;
      alternative_capabilities = [];
      secret_capability = secret_of preflight;
      hard_denied = false;
    }

-- The commands that only the system administrator's capability opens.
unfoldable pub is_system : String → Bool
is_system command =
    starts_with_any command system_command_prefixes
    || contains ("info" ∷ "translations/locales" ∷ []) command

-- exact, where there is one
abbrev exact_or : Option CommandDecision → CommandDecision → CommandDecision
exact_or none other = other
exact_or (some exact) other = exact

module _ (casefold : String → String) where
  unfoldable pub scope_fallback_policy : String → Scope → Option CommandProfile → CommandDecision
  scope_fallback_policy command scope profile = elim (scope_family casefold scope) [
    | none ↦ denied []
    | some family ↦
        let o = operation casefold command scope profile (some family) in
        fallback_decision o (fallback_capability o family) profile
  ]

  -- The part behind the exact policies and the system prefixes.
  unfoldable pub family_or_scope : String → Scope → Option CommandProfile → CommandDecision
  family_or_scope command scope profile = elim (matching_family command) [
    | none ↦ scope_fallback_policy command scope profile
    | some family ↦
        family_decision command family (operation casefold command scope profile (some family))
          profile
  ]

  unfoldable pub resolve_command_policy : String → Scope → Option CommandProfile → CommandDecision
  resolve_command_policy command scope profile =
      if command_is_hard_denied command
      then denied []
      else exact_or (lookup command exact_policies) (
          if is_system command
          then decision system_annotations (system_admin ∷ [])
          else family_or_scope command scope profile)
