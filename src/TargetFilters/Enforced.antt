-- ===== src/TargetFilters/Enforced.antt =====
-- provider/target_filters.py: the targets of a call that passes.
use ma_provider_mcp.Prelude.{
  ◌≡◌, refl, sym, subst, inl, inr, String, Bool, true, false, Option, none, some, List, [], ◌∷◌,
  all_at, contains, Member, Result, ok, err, ◌>>◌, Bool-cases, if◌then◌else◌,
}
use ma_provider_mcp.TargetFilters.Rules.{TargetKind, TargetRule, target_rule, is_player_kind}
use ma_provider_mcp.TargetFilters.Targets.{
  Argument, Library, User, Denied, insufficient_permissions, allowed_values, is_absent,
  enforce_music_providers, enforce_allowed, passes_provider, values_of, enforce_rule, enforce_each,
  enforce_target_filters,
}

module _ (library : Library) (user : User) where
  abbrev by_players : Option (List String) → String → Bool
  by_players none target = true
  by_players (some allowed) target = contains allowed target

  abbrev by_providers : Option (List String) → String → Bool
  by_providers none target = true
  by_providers (some allowed) target = passes_provider library allowed target

  -- A target that the user may name: a player of the player filter, or an internal target or a
  -- provider of the provider filter, where the user has such a filter.
  abbrev pub is_target_allowed : TargetKind → String → Bool
  is_target_allowed kind target =
      if is_player_kind kind
      then by_players (allowed_values user.player_filter) target
      else by_providers (allowed_values user.provider_filter) target

  granted :
      (b : Bool)
      → Path (Result Denied (Unit {0})) (if b then ok tt else err insufficient_permissions) (ok tt)
      → b ≡ true
  granted true h = refl
  granted false h = absurd cc

  both :
      (first next : Result Denied (Unit {0}))
      → (first >> next) ≡ ok tt
      → (first ≡ ok tt) × (next ≡ ok tt)
  both (ok tt) next h = (refl, h)
  both (err e) next h = absurd cc

  players-allowed :
      (o : Option (List String)) (targets : List String) (target : String)
      → enforce_allowed library targets o ≡ ok tt
      → Member target targets
      → by_players o target ≡ true
  players-allowed none targets target h m = refl
  players-allowed (some allowed) targets target h m =
      all_at (contains allowed) targets (granted _ h) m

  providers-allowed :
      (o : Option (List String)) (targets : List String) (target : String)
      → enforce_music_providers library targets o ≡ ok tt
      → Member target targets
      → by_providers o target ≡ true
  providers-allowed none targets target h m = refl
  providers-allowed (some allowed) targets target h m =
      all_at (passes_provider library allowed) targets (granted _ h) m

  rule-allowed :
      (value : Argument) (rule : TargetRule) (target : String)
      → enforce_rule library user value (some rule) ≡ ok tt
      → Member target (values_of library rule.target_kind value)
      → is_target_allowed rule.target_kind target ≡ true
  rule-allowed value rule target h m = elim (Bool-cases (is_player_kind rule.target_kind)) [
    | inl e ↦ rw e (
        players-allowed (allowed_values user.player_filter)
          (values_of library rule.target_kind value) target (rw e at h) m)
    | inr e ↦ rw e (
        providers-allowed (allowed_values user.provider_filter)
          (values_of library rule.target_kind value) target (rw e at h) m)
  ]

  each-allowed :
      (command : String) (arguments : List (String × Argument)) (argument : String)
      (value : Argument)
      → enforce_each library user command arguments ≡ ok tt
      → Member (argument, value) arguments
      → (if is_absent value
          then ok tt
          else enforce_rule library user value (target_rule command argument))
        ≡ ok tt
  each-allowed command [] argument value h m = absurd m
  each-allowed command ((a, v) ∷ arguments) argument value h (inl e) =
      subst
        (λ p.
          (if is_absent p.1 then ok tt else enforce_rule library user p.1 (target_rule command p.0))
          ≡ ok tt)
        (sym e) (both _ _ h).0
  each-allowed command ((a, v) ∷ arguments) argument value h (inr m) =
      each-allowed command arguments argument value (both _ _ h).1 m

  -- A call of a user who is no admin passes only if every target that one of its arguments names
  -- under a rule is one that the user may name.
  pub enforce_target_filters-allowed :
      (command : String) (arguments : List (String × Argument)) (argument : String)
      (value : Argument) (rule : TargetRule) (target : String)
      → user.is_admin ≡ false
      → enforce_target_filters library user command arguments ≡ ok tt
      → Member (argument, value) arguments
      → is_absent value ≡ false
      → target_rule command argument ≡ some rule
      → Member target (values_of library rule.target_kind value)
      → is_target_allowed rule.target_kind target ≡ true
  unfolding enforce_target_filters
  enforce_target_filters-allowed command arguments argument value rule target user_only h m
        given_value found t =
      let one = each-allowed command arguments argument value (rw user_only at h) m in
      rule-allowed value rule target (rw (given_value, found) at one) t
