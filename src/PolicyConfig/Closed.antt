-- ===== src/PolicyConfig/Closed.antt =====
-- provider/policy_config.py: what is stored opens no more than it says.
use ma_provider_mcp.Prelude.{
  ◌≡◌, ◌≢◌, refl, ap, ◌∙◌, ◌⊎◌, inl, inr, String, Bool, true, false, ◌&&◌, Option, none, some, [],
  str_eq, eq_iff, lookup, Dict, Result, ok, get_or, fun_ext, and_split, Option-cases, Bool-cases,
  if◌then◌else◌,
}
use ma_provider_mcp.Capability.{Capability, value}
use ma_provider_mcp.Policy.Mode.{
  PolicyMode, deny, allow, confirm, PolicyProfile, safe_queries, home_control, interactive_admin,
  trusted, custom,
}
use ma_provider_mcp.Policy.Snapshot.{
  PolicyError, for_each_capability, lookup-for_each, policy_snapshot,
}
use ma_provider_mcp.Policy.Resolver.{PolicySelection, inherit, profile_selection, custom_selection}
use ma_provider_mcp.PolicyConfig.Stored.{
  Raw, missing, text, listed, iterable, other, Store, profile_text, profile_of, mode_text, mode_of,
  parse_mode, policy_value, selector_key, stored_mode, by_profile, by_raw, parse_selection,
}

-- One test of a chain that reads a text as a value.
read_as :
    {A : Type 0} (print : A → String) (raw : String) (x p : A) (rest : Option A)
    → Path (Option A) (if str_eq raw (print x) then some x else rest) (some p)
    → (raw ≡ print p) ⊎ (rest ≡ some p)
read_as print raw x p rest h = elim (Bool-cases (str_eq raw (print x))) [
  | inl e ↦
      let same : x ≡ p = some_same x p (rw e at h) in
      inl ((eq_iff raw (print x)).0 e ∙ ap print same)
  | inr e ↦ inr (rw e at h)
]
  where
    some_same : {A : Type 0} (a b : A) → Path (Option A) (some a) (some b) → a ≡ b
    some_same a b h = cc

-- A text that is read as a profile is its text.
profile_of_sound :
    (raw : String) (p : PolicyProfile) → profile_of raw ≡ some p → raw ≡ profile_text p
profile_of_sound raw p h = elim (read_as profile_text raw safe_queries p _ h) [
  | inl e ↦ e
  | inr h1 ↦ elim (read_as profile_text raw home_control p _ h1) [
    | inl e ↦ e
    | inr h2 ↦ elim (read_as profile_text raw interactive_admin p _ h2) [
      | inl e ↦ e
      | inr h3 ↦ elim (read_as profile_text raw trusted p _ h3) [
        | inl e ↦ e
        | inr h4 ↦ elim (read_as profile_text raw custom p none h4) [
          | inl e ↦ e
          | inr h5 ↦ absurd cc
        ]
      ]
    ]
  ]
]

mode_of_sound : (raw : String) (m : PolicyMode) → mode_of raw ≡ some m → raw ≡ mode_text m
mode_of_sound raw m h = elim (read_as mode_text raw deny m _ h) [
  | inl e ↦ e
  | inr h1 ↦ elim (read_as mode_text raw allow m _ h1) [
    | inl e ↦ e
    | inr h2 ↦ elim (read_as mode_text raw confirm m none h2) [ inl e ↦ e | inr h3 ↦ absurd cc ]
  ]
]

-- A stored value of a mode opens nothing, or is the mode's text.
pub parse_mode-reads :
    (raw : Raw) → (parse_mode raw ≡ deny) ⊎ (raw ≡ text (mode_text (parse_mode raw)))
unfolding parse_mode
parse_mode-reads missing = inl refl
parse_mode-reads (text raw) = elim (Option-cases (mode_of raw)) [
  | inl e ↦ inl (rw e refl)
  | inr (m, e) ↦ inr (rw e (ap text (mode_of_sound raw m e)))
]
parse_mode-reads (listed items) = inl refl
parse_mode-reads (iterable items) = inl refl
parse_mode-reads other = inl refl

pub custom_snapshot :
    (f : String → PolicyMode)
    → policy_snapshot custom (for_each_capability f)
      ≡ ok (record { profile = custom; modes = λ c. f (value c) })
unfolding policy_snapshot
custom_snapshot f =
    ap (λ (m : Capability → PolicyMode). ok (record { profile = custom; modes = m }))
      (fun_ext λ c.
        rw (lookup-for_each (λ text. get_or (lookup text (for_each_capability f)) deny) c)
          (rw (lookup-for_each f c)))

abbrev pub chosen : Option PolicyProfile → Dict PolicyMode → PolicySelection
chosen profile modes = record { choice = profile; custom_modes = modes }

custom_selection-ok :
    (f : String → PolicyMode)
    → custom_selection (for_each_capability f) ≡ ok (chosen (some custom) (for_each_capability f))
unfolding custom_selection
custom_selection-ok f = refl

module _ (digest : String → String) (store : Store) where
  -- What a selector was parsed as, with the stored value that says so.
  pub data Parsed (token_id : Option String) (allow_inherit : Bool) (s : PolicySelection)
      : Type 0 where
    inherits : allow_inherit ≡ true → s ≡ chosen none [] → Parsed token_id allow_inherit s
    named :
        (p : PolicyProfile)
        → p ≢ custom
        → (p ≡ safe_queries)
          ⊎ (policy_value store (selector_key digest token_id) ≡ text (profile_text p))
        → s ≡ chosen (some p) []
        → Parsed token_id allow_inherit s
    customized :
        policy_value store (selector_key digest token_id) ≡ text (profile_text custom)
        → s ≡ chosen (some custom) (for_each_capability (stored_mode digest store token_id))
        → Parsed token_id allow_inherit s

  module _ (token_id : Option String) (allow_inherit : Bool) where
    abbrev pub IsParsed : Result PolicyError PolicySelection → Type 0
    IsParsed r = (s : PolicySelection) × (r ≡ ok s) × Parsed token_id allow_inherit s

    safe : IsParsed (profile_selection safe_queries)
    unfolding profile_selection
    safe = (chosen (some safe_queries) [], refl, named safe_queries (λ e. cc) (inl refl) refl)

    by_profile-Parsed :
        (raw : String) (o : Option PolicyProfile)
        → policy_value store (selector_key digest token_id) ≡ text raw
        → profile_of raw ≡ o
        → IsParsed (by_profile digest store token_id o)
    unfolding profile_selection
    by_profile-Parsed raw none h e = safe
    by_profile-Parsed raw (some custom) h e = (
      _,
      custom_selection-ok (stored_mode digest store token_id),
      customized (h ∙ ap text (profile_of_sound raw custom e)) refl,
    )
    by_profile-Parsed raw (some safe_queries) h e = safe
    by_profile-Parsed raw (some home_control) h e = (
      _,
      refl,
      named home_control (λ e. cc) (inr (h ∙ ap text (profile_of_sound raw home_control e))) refl,
    )
    by_profile-Parsed raw (some interactive_admin) h e = (
      _,
      refl,
      named interactive_admin (λ e. cc)
          (inr (h ∙ ap text (profile_of_sound raw interactive_admin e))) refl,
    )
    by_profile-Parsed raw (some trusted) h e =
        (_, refl, named trusted (λ e. cc) (inr (h ∙ ap text (profile_of_sound raw trusted e))) refl)

    inherited : allow_inherit ≡ true → IsParsed inherit
    unfolding inherit
    inherited e = (chosen none [], refl, inherits e refl)

    by_text-Parsed :
        (raw : String)
        → policy_value store (selector_key digest token_id) ≡ text raw
        → IsParsed (by_raw digest store token_id allow_inherit (text raw))
    by_text-Parsed raw h = elim (Bool-cases (allow_inherit && str_eq raw "Inherit")) [
      | inl e ↦ rw e (inherited (and_split allow_inherit _ e).0)
      | inr e ↦ elim (Bool-cases (str_eq raw "Read-only")) [
        | inl l ↦ rw e (rw l safe)
        | inr l ↦ rw e (rw l (by_profile-Parsed raw (profile_of raw) h refl))
      ]
    ]

    by_missing :
        (b : Bool)
        → allow_inherit ≡ b
        → IsParsed (if b then inherit else profile_selection safe_queries)
    by_missing true e = inherited e
    by_missing false e = safe

    by_raw-Parsed :
        (raw : Raw)
        → policy_value store (selector_key digest token_id) ≡ raw
        → IsParsed (by_raw digest store token_id allow_inherit raw)
    by_raw-Parsed missing h = by_missing allow_inherit refl
    by_raw-Parsed (text raw) h = by_text-Parsed raw h
    by_raw-Parsed (listed items) h = safe
    by_raw-Parsed (iterable items) h = safe
    by_raw-Parsed other h = safe

    pub parse_selection-Parsed : IsParsed (parse_selection digest store token_id allow_inherit)
    unfolding parse_selection
    parse_selection-Parsed = by_raw-Parsed _ refl
