-- ===== src/Execution/Finalized.antt =====
-- provider/execution.py: what holds behind `_finalize_invocation`.
use ma_provider_mcp.Prelude.{
  ℕ, ◌+◌, ◌≡◌, refl, sym, ap, ◌∙◌, subst, arith, ◌⊎◌, inl, inr, String, Bool, true, false, not,
  ◌&&◌, Option, none, some, Result, ok, err, returned, if◌then◌else◌,
}
use ma_provider_mcp.CommandPolicy.Decision.{CommandDecision, CommandPreflight}
use ma_provider_mcp.Execution.Invocation.{Invocation}
use ma_provider_mcp.Execution.Live.{
  authentication_needed, no_impersonation, World, refuse_if, request_policy, live_decision,
  reauthorize_entry, check_targets, is_disabled,
}
use ma_provider_mcp.Execution.Authorize.{
  with_entry, check_mode, check_final, still_exact, wrong_target, seal, or_auth, finished,
  is_absent, final_authentication, finish, finish_sure, finalize_flight, finalize_decided,
  finalize_invocation,
}
use ma_provider_mcp.Execution.Kept.{Keeps, Renewed-Keeps}
use ma_provider_mcp.Execution.Targets.{Caller, FinalTarget, final_authentication-Target}
use ma_provider_mcp.Execution.Checks.{
  holds_of_not, chained, passed, granted, same_value, sealed_ok, Sealed, reauthorize_entry-Renewed,
  built,
}

module _ {Token User Args : Type 0} (world : World Token User Args) where
  -- An invocation that is final at a time, for a caller: sealed, by a caller whose identity still
  -- holds, for the user that was impersonated before.
  pub record Final (t : ℕ) (auth : Option (Token × User)) (previous : Option User)
      (invocation : Invocation Token User Args) : Type 0 where
    pub sealed : Sealed world t auth invocation
    pub exact : still_exact world t auth ≡ true
    pub same_target : wrong_target world t auth previous invocation.impersonated_user ≡ false

  module _ (t : ℕ) (auth : Option (Token × User)) (previous : Option User)
      (final : Invocation Token User Args) (now : final.policy ≡ request_policy world t final.auth)
      (caller : (auth ≡ none) ⊎ (final.auth ≡ auth)) where
    seal-Final :
        (invocation : Invocation Token User Args)
        → seal world t auth previous final ≡ ok invocation
        → Final t auth previous invocation × Keeps world final invocation
    unfolding seal
    seal-Final invocation h =
        let (live, first, rest) = returned _ _ h in
        let (identity, renewed) =
          chained (refuse_if (not (still_exact world t auth)) authentication_needed)
            (reauthorize_entry world t final.entry auth final.policy) live
            (sealed_ok final _ live first) in
        let after = with_entry world final live in
        let (checks, result) =
          chained (check_final world t auth previous final live) (ok after) invocation
            (sealed_ok after _ invocation rest) in
        let (persons, mode) = chained _ (check_mode (live_decision world t live) after) tt checks in
        let (users, targets) =
          chained _
            (check_targets world t final.impersonated_user auth final.entry.command final.arguments)
            tt persons in
        let (target, able) =
          chained
            (refuse_if (wrong_target world t auth previous final.impersonated_user)
              no_impersonation)
            (refuse_if (is_disabled world t final.impersonated_user) no_impersonation) tt users in
        let same = same_value after invocation result in
        let r = reauthorize_entry-Renewed world t final.entry auth final.policy live renewed in
        (
          record {
            sealed =
                built world t auth final now caller live invocation r (passed _ _ able)
                  (granted _ _ targets) mode same;
            exact = holds_of_not _ (passed _ _ identity);
            same_target =
                subst (λ i. wrong_target world t auth previous i.impersonated_user ≡ false) same
                  (passed _ _ target);
          },
          Renewed-Keeps world t auth final invocation live r same,
        )

  -- What a finalization that began at time t has of its invocation and of its awaits.
  pub record Refreshed (t : ℕ) (invocation : Invocation Token User Args)
      (impersonated : Option String) (caller : Option (Token × User))
      (final : Invocation Token User Args) : Type 0 where
    pub same_arguments : final.arguments ≡ invocation.arguments
    pub same_name : final.entry.name ≡ invocation.entry.name
    pub same_command : final.entry.command ≡ invocation.entry.command
    pub same_handler : final.entry.handler ≡ invocation.entry.handler
    pub called_by : Caller world (t + 1) caller
    pub kept_caller : caller ≡ none → final.auth ≡ invocation.auth
    pub new_caller : (c : Token × User) → caller ≡ some c → final.auth ≡ some c
    pub target :
        FinalTarget world
          (t + 2)
          caller
          invocation.entry.handler.required_scope
          impersonated
          final.impersonated_user
    pub decision : CommandDecision
    pub decided : invocation.entry.decision ≡ some decision
    pub flight : CommandPreflight
    pub flown : world.preflight t decision invocation.arguments invocation.auth ≡ ok flight
    pub revalidated :
        world.revalidate (t + 3) decision invocation.arguments flight ≡ ok final.preflight

  same_caller :
      (auth other : Option (Token × User)) → (auth ≡ none) ⊎ (or_auth world auth other ≡ auth)
  same_caller none other = inl refl
  same_caller (some caller) other = inr refl

  not_absent :
      {A : Type 0} {E : Type 0} (b : Bool) (e : E) (r : Result E A) (a : A)
      → (if b then err e else r) ≡ ok a
      → r ≡ ok a
  not_absent true e r a h = absurd cc
  not_absent false e r a h = h

  finish_sure-Final :
      (t : ℕ) (auth : Option (Token × User)) (user : Option User)
      (invocation final : Invocation Token User Args) (sure : CommandPreflight)
      → finish_sure world t auth user invocation sure ≡ ok final
      → Final t auth invocation.impersonated_user final
        × Keeps world
            (finished world invocation auth user sure
              (request_policy world t (or_auth world auth invocation.auth)))
            final
  finish_sure-Final t auth user invocation final sure h =
      let sealing_of =
        finished world invocation auth user sure
          (request_policy world t (or_auth world auth invocation.auth)) in
      seal-Final t auth invocation.impersonated_user sealing_of refl
        (same_caller auth invocation.auth) final
        (not_absent (is_absent world auth && world.auth_required t) _
          (seal world t auth invocation.impersonated_user sealing_of) final h)

  two_later : (t : ℕ) → t + 1 + 1 ≡ t + 2
  two_later t = omega arith

  finalize_decided-Final :
      (t : ℕ) (invocation final : Invocation Token User Args) (impersonated : Option String)
      (o : Option CommandDecision)
      → invocation.entry.decision ≡ o
      → finalize_decided world t invocation impersonated o ≡ ok final
      → (caller : Option (Token × User)) × Final (t + 3) caller invocation.impersonated_user final
        × Refreshed t invocation impersonated caller final
  finalize_decided-Final t invocation final impersonated none e h = absurd cc
  finalize_decided-Final t invocation final impersonated (some d) e h =
      let (flight, first, rest) =
        returned (world.preflight t d invocation.arguments invocation.auth)
          (finalize_flight world t d invocation impersonated) h in
      let (found, authenticated, finishing) =
        returned
          (final_authentication world (t + 1) impersonated invocation.entry.handler.required_scope)
          (finish world (t + 3) d flight invocation) rest in
      let (sure, revalidated, last) =
        returned (world.revalidate (t + 3) d invocation.arguments flight)
          (finish_sure world (t + 3) found.0 found.1 invocation) finishing in
      let (is_final, kept) = finish_sure-Final (t + 3) found.0 found.1 invocation final sure last in
      let later = λ (u : ℕ) (pair : Option (Token × User) × Option User).
        subst
          (λ n.
            FinalTarget world n pair.0 invocation.entry.handler.required_scope impersonated pair.1)
          (two_later u) in
      let (caller, target) =
        final_authentication-Target world (t + 1) impersonated
          invocation.entry.handler.required_scope found authenticated in
      (
        found.0,
        is_final,
        record {
          same_arguments = kept.arguments;
          same_name = kept.name;
          same_command = kept.command;
          same_handler = kept.handler;
          called_by = caller;
          kept_caller = λ q. kept.auth ∙ ap (λ a. or_auth world a invocation.auth) q;
          new_caller = λ c q. kept.auth ∙ ap (λ a. or_auth world a invocation.auth) q;
          target =
              subst
                (λ u.
                  FinalTarget world (t + 2) found.0 invocation.entry.handler.required_scope
                    impersonated u)
                (sym kept.impersonated_user) (later t found target);
          decision = d;
          decided = e;
          flight = flight;
          flown = first;
          revalidated = revalidated ∙ ap (λ f. ok f) (sym kept.preflight);
        },
      )

  -- An invocation that is finalized is sealed at one moment, the one behind its last await, for a
  -- caller whose identity still holds then: its command is live with the decision of that moment,
  -- the caller is enabled and within the scope, its targets are allowed, and its mode under the
  -- policy of that moment is not deny. The caller is the one read anew at that finalization where
  -- authentication is required, and else none, in which case the invocation keeps its own. With no
  -- caller or no text nobody is impersonated, and else the user that the text resolves to anew, who
  -- is the same user as before and one whom the caller may impersonate. The name, the command, the
  -- handler and the arguments stay, and the preflight is a new one for the decision of the
  -- invocation, revalidated at that last moment.
  pub finalize_invocation-Final :
      (t : ℕ) (invocation final : Invocation Token User Args) (impersonated : Option String)
      → finalize_invocation world t invocation impersonated ≡ ok final
      → (caller : Option (Token × User)) × Final (t + 3) caller invocation.impersonated_user final
        × Refreshed t invocation impersonated caller final
  unfolding finalize_invocation
  finalize_invocation-Final t invocation final impersonated h =
      finalize_decided-Final t invocation final impersonated invocation.entry.decision refl h
