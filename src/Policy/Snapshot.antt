-- ===== src/Policy/Snapshot.antt =====
-- provider/policy.py: `PolicySnapshot` and `policy_snapshot`. A mapping with string keys is a
-- `Dict`; a snapshot, whose keys are exactly the capabilities, is a function on them.
use ma_provider_mcp.Prelude.{
  ◌≡◌, refl, ap, fun_ext, String, Bool, not, ◌&&◌, ◌||◌, none, some, map, starts_with, Dict, lookup,
  keys, all, is_empty, is_some, get_or, Result, ok, err, if◌then◌else◌,
}
use ma_provider_mcp.Capability.{Capability, query_library, all_capabilities, value, of_string}
use ma_provider_mcp.Policy.Mode.{
  PolicyMode, deny, allow, confirm, PolicyProfile, safe_queries, home_control, trusted, custom,
}

-- The `ValueError`s of the module, by their messages.
pub data PolicyError : Type 0 where
  incomplete_snapshot unsupported_capability modes_need_custom use_custom : PolicyError
  default_inherits empty_token_id inherit_snapshot : PolicyError

pub record PolicySnapshot : Type 0 where
  pub profile : PolicyProfile
  pub modes : Capability → PolicyMode

-- set(normalized) == expected
abbrev pub is_complete : Dict PolicyMode → Bool
is_complete modes =
    all (λ text. is_some (of_string text)) (keys modes)
    && all (λ c. is_some (lookup (value c) modes)) all_capabilities

unfoldable pub snapshot_init : PolicyProfile → Dict PolicyMode → Result PolicyError PolicySnapshot
snapshot_init profile modes =
    if is_complete modes
    then ok (record { profile = profile; modes = λ c. get_or (lookup (value c) modes) deny })
    else err incomplete_snapshot

-- self.modes[str(capability)], for a text that may be no capability
unfoldable pub mode : PolicySnapshot → String → Result PolicyError PolicyMode
mode policy capability = elim (of_string capability) [
  | none ↦ err unsupported_capability
  | some c ↦ ok (policy.modes c)
]

-- The body of the loop over the capabilities, for a named profile.
unfoldable pub profile_mode : PolicyProfile → String → PolicyMode
profile_mode trusted text = allow
profile_mode safe_queries text = if starts_with text "query:" then allow else deny
profile_mode home_control text =
    if starts_with text "query:" || starts_with text "control:" || starts_with text "edit:"
    then allow
    else if starts_with text "delete:"
    then confirm
    else deny
profile_mode _ text =
    if starts_with text "query:" || starts_with text "control:" then allow else confirm

-- any key that is no capability
abbrev pub has_unsupported : Dict PolicyMode → Bool
has_unsupported modes = not (all (λ text. is_some (of_string text)) (keys modes))

-- {str(c): f(str(c)) for c in Capability}
abbrev pub for_each_capability : (String → PolicyMode) → Dict PolicyMode
for_each_capability f = map (λ c. (value c, f (value c))) all_capabilities

unfoldable pub policy_snapshot : PolicyProfile → Dict PolicyMode → Result PolicyError PolicySnapshot
unfolding snapshot_init profile_mode
policy_snapshot custom explicit =
    if has_unsupported explicit
    then err unsupported_capability
    else snapshot_init custom (for_each_capability (λ text. get_or (lookup text explicit) deny))
policy_snapshot profile custom_modes =
    if not (is_empty custom_modes)
    then err modes_need_custom
    else snapshot_init profile (for_each_capability (profile_mode profile))

pub lookup-for_each :
    (f : String → PolicyMode) (c : Capability)
    → lookup (value c) (for_each_capability f) ≡ some (f (value c))
lookup-for_each f query_library = refl
lookup-for_each f _ = refl

-- A comprehension over the capabilities is always a complete snapshot.
pub snapshot_init-for_each :
    (p : PolicyProfile) (f : String → PolicyMode)
    → snapshot_init p (for_each_capability f)
      ≡ ok (record { profile = p; modes = λ c. f (value c) })
unfolding snapshot_init
snapshot_init-for_each p f =
    ap (λ (m : Capability → PolicyMode). ok (record { profile = p; modes = m }))
      (fun_ext λ c. rw (lookup-for_each f c))
