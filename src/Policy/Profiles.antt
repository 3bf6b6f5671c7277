-- ===== src/Policy/Profiles.antt =====
-- provider/policy.py: what the named profiles and a custom policy grant, against a table by kind.
use mathlib.Core.Bool.{false≢true}
use ma_provider_mcp.Prelude.{
  ◌≡◌, refl, ◌≢◌, ap, fun_ext, String, Bool, true, false, [], Dict, lookup, get_or, Result, ok, err,
  Bool-cases, inl, inr, ◌∙◌, sym, Member, keys, is_some, all, all_at, all_of,
}
use ma_provider_mcp.Capability.{
  Capability, Kind, query, control, edit, delete, kind, value, of_string, query_library,
}
use ma_provider_mcp.Policy.Mode.{
  PolicyMode, deny, allow, confirm, PolicyProfile, safe_queries, home_control, interactive_admin,
  trusted, custom,
}
use ma_provider_mcp.Policy.Snapshot.{
  PolicySnapshot, PolicyError, unsupported_capability, profile_mode, policy_snapshot,
  snapshot_init-for_each,
}

-- What a named profile grants to a kind of capability.
abbrev pub grant : PolicyProfile → Kind → PolicyMode
grant trusted k = allow
grant safe_queries query = allow
grant safe_queries _ = deny
grant home_control query = allow
grant home_control control = allow
grant home_control edit = allow
grant home_control delete = confirm
grant home_control _ = deny
grant interactive_admin query = allow
grant interactive_admin control = allow
grant interactive_admin _ = confirm
grant custom k = deny

profile_mode-grant :
    (p : PolicyProfile) (c : Capability) → p ≢ custom → profile_mode p (value c) ≡ grant p (kind c)
unfolding profile_mode
profile_mode-grant custom c h = absurd (h refl)
profile_mode-grant safe_queries query_library h = refl
profile_mode-grant safe_queries _ h = refl
profile_mode-grant home_control query_library h = refl
profile_mode-grant home_control _ h = refl
profile_mode-grant interactive_admin query_library h = refl
profile_mode-grant interactive_admin _ h = refl
profile_mode-grant trusted c h = refl

snapshot_path :
    (p : PolicyProfile) {f g : Capability → PolicyMode}
    → ((c : Capability) → f c ≡ g c)
    → ◌≡◌ {A = Result PolicyError PolicySnapshot}
        (ok (record { profile = p; modes = f }))
        (ok (record { profile = p; modes = g }))
snapshot_path p h =
    ap (λ (m : Capability → PolicyMode). ok (record { profile = p; modes = m })) (fun_ext h)

abbrev known : String → Bool
known text = is_some (of_string text)

-- A named profile with no explicit modes expands, and assigns to every capability the mode that
-- the table gives for its kind.
pub policy_snapshot-grant :
    (p : PolicyProfile)
    → p ≢ custom
    → policy_snapshot p [] ≡ ok (record { profile = p; modes = λ c. grant p (kind c) })
unfolding policy_snapshot
policy_snapshot-grant custom h = absurd (h refl)
policy_snapshot-grant p h =
    snapshot_init-for_each p (profile_mode p) ∙ snapshot_path p (λ c. profile_mode-grant p c h)

-- A custom policy refuses a key that is no capability. With capabilities for keys it expands, and
-- assigns the explicit mode of each capability that has one, and deny to every other.
pub policy_snapshot_custom :
    (m : Dict PolicyMode)
    → ((k : String)
        → Member k (keys m)
        → is_some (of_string k) ≡ false
        → policy_snapshot custom m ≡ err unsupported_capability)
      × (((k : String) → Member k (keys m) → is_some (of_string k) ≡ true)
          → policy_snapshot custom m
            ≡ ok (record { profile = custom; modes = λ c. get_or (lookup (value c) m) deny }))
unfolding policy_snapshot
policy_snapshot_custom m = (
  λ k h e. elim (Bool-cases (all known (keys m))) [
    | inl a ↦ absurd (false≢true (sym e ∙ all_at known (keys m) a h))
    | inr a ↦ rw a
  ],
  λ h.
      rw (all_of known (keys m) h)
        (snapshot_init-for_each custom (λ text. get_or (lookup text m) deny)),
)
