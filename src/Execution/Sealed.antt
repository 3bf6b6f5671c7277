-- ===== src/Execution/Sealed.antt =====
-- provider/execution.py: what holds of an invocation at the moment at which it is authorized.
use ma_provider_mcp.Prelude.{
  inr, ℕ, ap, ◌∙◌, ◌+◌, ◌≡◌, refl, sym, subst, String, true, Option, ok, ◌>>◌, returned,
}
use ma_provider_mcp.Execution.Invocation.{DynamicEntry, Invocation}
use ma_provider_mcp.Execution.Live.{
  no_impersonation, World, refuse_if, request_policy, live_decision, targets_allowed,
  reauthorize_entry, check_targets, is_disabled,
}
use ma_provider_mcp.Execution.Authorize.{
  begun, decision_or, with_user, with_live, impersonate, after_impersonation, check_person,
  with_entry, check_mode, confirm_authorization, authorize_call,
}
use ma_provider_mcp.CommandPolicy.Decision.{CommandPreflight}
use ma_provider_mcp.Execution.Kept.{
  Target, impersonate-Target, Keeps, Renewed-Keeps, Renewed-handler, Renewed-decision,
}
use ma_provider_mcp.Execution.Checks.{
  chained, passed, granted, same_value, sealed_ok, Sealed, Renewed, reauthorize_entry-Renewed,
  built,
}

module _ {Token User Args : Type 0} (world : World Token User Args) where
  -- The checked command is the one of the renewed entry.
  same_targets :
      (t : ℕ) (invocation : Invocation Token User Args) (live : DynamicEntry)
      → Renewed world t invocation.entry invocation.auth live
      → check_targets world t invocation.impersonated_user invocation.auth live.command
          invocation.arguments
        ≡ ok tt
      → targets_allowed world t invocation.impersonated_user invocation.auth
          invocation.entry.command invocation.arguments
        ≡ true
  same_targets t invocation live r targets = granted _ _ (
      subst
        (λ e.
          check_targets world t invocation.impersonated_user invocation.auth e.command
            invocation.arguments
          ≡ ok tt)
        (sym r.renewed) targets)

  module _ (t : ℕ) (invocation : Invocation Token User Args)
      (now : invocation.policy ≡ request_policy world t invocation.auth) where
    confirm_authorization-Sealed :
        (sealed : Invocation Token User Args)
        → confirm_authorization world t invocation ≡ ok sealed
        → Sealed world t invocation.auth sealed × Keeps world invocation sealed
    unfolding confirm_authorization
    confirm_authorization-Sealed sealed h =
        let (live, person, mode) = returned _ _ h in
        let (renewed, first, checks) = returned _ _ (sealed_ok invocation _ live person) in
        let (persons, same_live) =
          chained (check_person world t invocation renewed) (ok renewed) live checks in
        let after = with_entry world invocation live in
        let (permits, same_sealed) =
          chained (check_mode (live_decision world t live) after) (ok after) sealed
            (sealed_ok after _ sealed mode) in
        let r =
          subst (λ e. Renewed world t invocation.entry invocation.auth e)
            (same_value renewed live same_live)
            (reauthorize_entry-Renewed world t invocation.entry invocation.auth invocation.policy
              renewed first) in
        let (user, targets) =
          chained (refuse_if (is_disabled world t invocation.impersonated_user) no_impersonation)
            (check_targets world t invocation.impersonated_user invocation.auth live.command
              invocation.arguments)
            tt
            (subst (λ e. check_person world t invocation e ≡ ok tt)
              (same_value renewed live same_live) persons) in
        let same = same_value after sealed same_sealed in
        (
          built world t invocation.auth invocation now (inr refl) live sealed r (passed _ _ user)
              (same_targets t invocation live r targets) permits same,
          Renewed-Keeps world t invocation.auth invocation sealed live r same,
        )

  -- What an authorized call has of its request. Its first check was at time t, and its preflight at
  -- the time behind the resolution of the impersonated user.
  pub record Asked (t : ℕ) (entry : DynamicEntry) (auth : Option (Token × User)) (arguments : Args)
      (impersonated : Option String) (sealed : Invocation Token User Args) : Type 0 where
    pub given_arguments : sealed.arguments ≡ arguments
    pub given_auth : sealed.auth ≡ auth
    pub name : sealed.entry.name ≡ entry.name
    pub command : sealed.entry.command ≡ entry.command
    pub handler : sealed.entry.handler ≡ entry.handler
    pub target :
        Target world t auth entry.handler.required_scope impersonated sealed.impersonated_user
    pub preflight :
        world.preflight
          (after_impersonation t impersonated)
          (live_decision world t entry)
          arguments
          auth
        ≡ ok sealed.preflight

  module _ (t : ℕ) (entry : DynamicEntry) (auth : Option (Token × User)) (arguments : Args)
      (impersonated : Option String) (sealed : Invocation Token User Args) where
    asked :
        (live : DynamicEntry) (user : Option User) (flight : CommandPreflight)
        → Renewed world t entry auth live
        → impersonate world t auth impersonated live.handler.required_scope ≡ ok user
        → world.preflight
            (after_impersonation t impersonated)
            (decision_or world live)
            arguments
            auth
          ≡ ok flight
        → Keeps world
            (begun world (after_impersonation t impersonated + 1) live auth arguments user flight)
            sealed
        → Asked t entry auth arguments impersonated sealed
    asked live user flight r resolved flown kept = record {
      given_arguments = kept.arguments;
      given_auth = kept.auth;
      name = kept.name ∙ sym (ap (λ e. e.name) r.renewed);
      command = kept.command ∙ sym (ap (λ e. e.command) r.renewed);
      handler = kept.handler ∙ Renewed-handler world t auth entry live r;
      target =
          subst (λ h. Target world t auth h.required_scope impersonated sealed.impersonated_user)
            (Renewed-handler world t auth entry live r)
            (subst (λ u. Target world t auth live.handler.required_scope impersonated u)
              (sym kept.impersonated_user)
              (impersonate-Target world t auth impersonated live.handler.required_scope user
                resolved));
      preflight =
          subst
            (λ d.
              world.preflight (after_impersonation t impersonated) d arguments auth
              ≡ ok sealed.preflight)
            (Renewed-decision world t auth entry live r)
            (flown ∙ ap (λ f. ok f) (sym kept.preflight));
    }

    -- A call that is authorized is so at one moment, the one behind its last await: its command is
    -- live then with the decision of that moment, its caller is there, enabled and within the scope,
    -- its targets are allowed, and its mode under the policy of that moment is not deny, with all
    -- that its preflight adds. It has the name, the command, the handler, the caller and the
    -- arguments that were asked for; it impersonates nobody where no text names a user, and else the
    -- user that the text resolves to at the start; and its preflight is the answer for the decision
    -- of the command at the start, at the time behind that resolution.
    pub authorize_call-Sealed :
        authorize_call world t entry auth arguments impersonated ≡ ok sealed
        → Sealed world (after_impersonation t impersonated + 1) auth sealed
          × Asked t entry auth arguments impersonated sealed
    unfolding authorize_call
    authorize_call-Sealed h =
        let (live, first, rest) =
          returned (reauthorize_entry world t entry auth (request_policy world t auth))
            (with_live world t auth arguments impersonated) h in
        let t1 = after_impersonation t impersonated in
        let (user, resolved, rest2) =
          returned (impersonate world t auth impersonated live.handler.required_scope)
            (with_user world t1 live auth arguments) rest in
        let (flight, checked, confirmed) =
          returned
            (check_targets world t1 user auth live.command arguments
              >> world.preflight t1 (decision_or world live) arguments auth)
            (λ flight.
              confirm_authorization world (t1 + 1)
                (begun world (t1 + 1) live auth arguments user flight))
            rest2 in
        let (_, flown) =
          chained (check_targets world t1 user auth live.command arguments)
            (world.preflight t1 (decision_or world live) arguments auth) flight checked in
        let (seals, kept) =
          confirm_authorization-Sealed (t1 + 1)
            (begun world (t1 + 1) live auth arguments user flight) refl sealed confirmed in
        (
          seals,
          asked live user flight
              (reauthorize_entry-Renewed world t entry auth (request_policy world t auth) live
                first)
              resolved flown kept,
        )
