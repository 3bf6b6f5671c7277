-- ===== src/Execution/Evidence.antt =====
-- provider/execution.py: the mode of an invocation and the reasons that a prompt must name.
use Prim.Native.String.{compare}
use Prim.Native.Nat.{Ordering}
use ma_provider_mcp.Prelude.{
  Bool, true, false, not, ◌&&◌, ◌||◌, Option, none, some, List, [], ◌∷◌, ◌++◌, map, any, all,
  filter, is_empty, if◌then◌else◌,
}
use ma_provider_mcp.Capability.{Capability, value}
use ma_provider_mcp.Policy.Mode.{PolicyMode, deny, allow, confirm, same}
use ma_provider_mcp.Policy.Snapshot.{PolicySnapshot}
use ma_provider_mcp.CommandPolicy.Decision.{CommandDecision, CommandPreflight, effective_mode}
use ma_provider_mcp.Execution.Invocation.{DynamicEntry, Invocation}

-- The texts of a set of confirmation reasons.
pub data Reason : Type 0 where
  capability : Capability → Reason
  impersonation : Reason
  unknown : Reason

-- sorted(capabilities): by insertion, in the order of the texts
abbrev pub insert_sorted : Capability → List Capability → List Capability
insert_sorted c [] = c ∷ []
insert_sorted c (d ∷ ds) =
    let rest = insert_sorted c ds in
    elim (compare (value c) (value d)) [ Ordering.gt ↦ d ∷ rest | _ ↦ c ∷ d ∷ ds ]

unfoldable pub sorted : List Capability → List Capability
sorted [] = []
sorted (c ∷ cs) = insert_sorted c (sorted cs)

-- the first of the list that has the mode
unfoldable pub first_with : PolicyMode → PolicySnapshot → List Capability → Option Capability
first_with mode policy [] = none
first_with mode policy (c ∷ cs) =
    let rest = first_with mode policy cs in if same mode (policy.modes c) then some c else rest

abbrev pub has_mode : PolicyMode → PolicySnapshot → Capability → Bool
has_mode mode policy c = same mode (policy.modes c)

-- next(iter(capabilities), default)
abbrev head_or : List Capability → Reason → Reason
head_or [] default = default
head_or (c ∷ cs) default = capability c

abbrev reason_or : Option Capability → Reason → Reason
reason_or none other = other
reason_or (some c) other = capability c

-- `impersonating` turns an allow into a confirm
abbrev pub prompted : Bool → PolicyMode → PolicyMode
prompted true allow = confirm
prompted _ mode = mode

-- the any-of group, where none of it is allowed
abbrev pub open_alternatives : CommandDecision → PolicySnapshot → List Capability
open_alternatives d policy =
    if any (has_mode allow policy) d.alternative_capabilities
    then []
    else d.alternative_capabilities

-- a set that is empty gets the one reason
abbrev pub or_reason : List Reason → Reason → List Reason
or_reason [] reason = reason ∷ []
or_reason (r ∷ rs) reason = r ∷ rs

module _ {Token User Args : Type 0} where
  -- decision.required_capabilities | preflight.additional_required
  abbrev pub required_of : CommandDecision → Invocation Token User Args → List Capability
  required_of d invocation = d.required_capabilities ++ invocation.preflight.additional_required

  unfoldable pub decision_mode : CommandDecision → Invocation Token User Args → Bool → PolicyMode
  decision_mode d invocation impersonating =
      prompted impersonating
        (effective_mode d invocation.policy invocation.preflight.additional_required)

  unfoldable pub invocation_mode : Invocation Token User Args → Bool → PolicyMode
  invocation_mode invocation impersonating = elim invocation.entry.decision [
    | none ↦ deny
    | some d ↦ decision_mode d invocation impersonating
  ]

  unfoldable pub decision_confirmation : CommandDecision → Invocation Token User Args → Reason
  decision_confirmation d invocation =
      let required = sorted (required_of d invocation) in
      reason_or (first_with confirm invocation.policy required) (
        reason_or
          (first_with confirm invocation.policy (sorted (open_alternatives d invocation.policy)))
          (head_or required impersonation))

  unfoldable pub confirmation_capability : Invocation Token User Args → Reason
  confirmation_capability invocation = elim invocation.entry.decision [
    | none ↦ unknown
    | some d ↦ decision_confirmation d invocation
  ]

  -- The confirm-mode capabilities that the target invocation is granted.
  unfoldable pub decision_confirmed : CommandDecision → Invocation Token User Args → List Capability
  decision_confirmed d invocation =
      filter (has_mode confirm invocation.policy) (required_of d invocation)
      ++ filter (has_mode confirm invocation.policy) (open_alternatives d invocation.policy)

  unfoldable pub confirmed_capabilities : Invocation Token User Args → List Capability
  confirmed_capabilities invocation = elim invocation.entry.decision [
    | none ↦ []
    | some d ↦ decision_confirmed d invocation
  ]

  unfoldable pub confirmation_evidence : Invocation Token User Args → Bool → List Reason
  confirmation_evidence invocation impersonating =
      if same allow (invocation_mode invocation impersonating)
      then []
      else or_reason
          (map capability (confirmed_capabilities invocation)
            ++ (if impersonating then impersonation ∷ [] else []))
          (confirmation_capability invocation)

abbrev pub first_capability : List Capability → Option Capability
first_capability [] = none
first_capability (c ∷ cs) = some c

abbrev pub or_capability : Option Capability → Option Capability → Option Capability
or_capability none other = other
or_capability (some c) other = some c

-- `_denied_capability`
unfoldable pub denied_capability :
    CommandDecision → CommandPreflight → PolicySnapshot → Option Capability
denied_capability d preflight policy =
    or_capability (first_with deny policy (sorted preflight.additional_required)) (
      or_capability (first_with deny policy (sorted d.required_capabilities)) (
        if not (is_empty d.alternative_capabilities)
          && all (has_mode deny policy) d.alternative_capabilities
        then first_capability (sorted d.alternative_capabilities)
        else none))

abbrev secret_confirms : PolicySnapshot → Option Capability → Bool
secret_confirms policy none = false
secret_confirms policy (some c) = has_mode confirm policy c

-- The three conditions under which an allow is shown as confirm.
unfoldable pub shown_as_confirm : DynamicEntry → CommandDecision → PolicySnapshot → Bool
shown_as_confirm entry d policy =
    entry.allow_impersonation
    || any (has_mode confirm policy) d.alternative_capabilities
    || secret_confirms policy d.secret_capability

-- `_catalog_mode`
unfoldable pub catalog_mode : DynamicEntry → PolicySnapshot → PolicyMode
catalog_mode entry policy = elim entry.decision [
  | none ↦ confirm
  | some d ↦
      let mode = effective_mode d policy [] in
      if same allow mode && shown_as_confirm entry d policy then confirm else mode
]
