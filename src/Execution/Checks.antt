-- ===== src/Execution/Checks.antt =====
-- provider/execution.py: the checks that an authorized invocation has passed.
use ma_provider_mcp.Prelude.{
  none, ℕ, ◌≡◌, ◌≢◌, refl, ◌⊎◌, sym, subst, Bool, true, false, not, Option, some, Result, ok, err,
  ◌>>◌, if◌then◌else◌, arith,
}
use ma_provider_mcp.Policy.Mode.{PolicyMode, deny, same}
use ma_provider_mcp.Policy.Snapshot.{PolicySnapshot}
use ma_provider_mcp.Execution.Invocation.{DynamicEntry, Invocation}
use ma_provider_mcp.Execution.Evidence.{decision_mode, invocation_mode}
use ma_provider_mcp.Execution.Live.{
  Message, Failure, World, refuse_if, request_policy, live_decision, is_live, scope_of, lacks_user,
  lacks_scope, targets_allowed, reauthorize_entry, is_disabled,
}
use ma_provider_mcp.Execution.Authorize.{with_entry, sealing, check_mode}

-- A chain of checks that passes has passed each.
pub chained :
    {E : Type 0} {A : Type 0} (first : Result E (Unit {0})) (next : Result E A) (a : A)
    → (first >> next) ≡ ok a
    → (first ≡ ok tt) × (next ≡ ok a)
chained (ok tt) next a h = (refl, h)
chained (err e) next a h = absurd cc

pub passed :
    {I : Type 0} (refused : Bool) (message : Message)
    → refuse_if {I = I} refused message ≡ ok tt
    → refused ≡ false
passed true message h = absurd cc
passed false message h = refl

pub granted :
    {E : Type 0} (allowed : Bool) (e : E)
    → Path (Result E (Unit {0})) (if allowed then ok tt else err e) (ok tt)
    → allowed ≡ true
granted true e h = refl
granted false e h = absurd cc

pub same_value : {E : Type 0} {A : Type 0} (a b : A) → Path (Result E A) (ok a) (ok b) → a ≡ b
same_value a b h = cc

pub sealed_ok :
    {Token User Args A : Type 0} (invocation : Invocation Token User Args)
    (r : Result (Failure (Invocation Token User Args)) A) (a : A)
    → sealing invocation r ≡ ok a
    → r ≡ ok a
sealed_ok invocation (ok b) a h = h
sealed_ok invocation (err e) a h = absurd cc

pub holds_of_not : (b : Bool) → not b ≡ false → b ≡ true
holds_of_not b h = ground arith

not_deny : (m : PolicyMode) → same deny m ≡ false → m ≢ deny
not_deny m h e = ground arith

module _ {Token User Args : Type 0} (world : World Token User Args) where
  open world use {live_handler}

  -- An invocation that is authorized at a time: its command is live, with the decision of this
  -- moment; its caller is there, enabled and within the scope; its targets are allowed; and under
  -- the policy of this moment its mode is not deny, with all that its preflight asks for.
  pub record Sealed (t : ℕ) (auth : Option (Token × User)) (invocation : Invocation Token User Args)
      : Type 0 where
    pub live : is_live invocation.entry (live_handler t invocation.entry.command) ≡ true
    pub decided : invocation.entry.decision ≡ some (live_decision world t invocation.entry)
    pub present : lacks_user world t auth ≡ false
    pub scoped :
        lacks_scope world t auth (scope_of (live_handler t invocation.entry.command)) ≡ false
    pub on_target :
        targets_allowed world t invocation.impersonated_user auth invocation.entry.command
          invocation.arguments
        ≡ true
    pub able : is_disabled world t invocation.impersonated_user ≡ false
    pub current : invocation.policy ≡ request_policy world t invocation.auth
    pub caller : (auth ≡ none) ⊎ (invocation.auth ≡ auth)
    pub permitted : invocation_mode invocation false ≢ deny

  -- An entry that is authorized again.
  pub record Renewed (t : ℕ) (entry : DynamicEntry) (auth : Option (Token × User))
      (after : DynamicEntry) : Type 0 where
    pub live : is_live entry (live_handler t entry.command) ≡ true
    pub present : lacks_user world t auth ≡ false
    pub scoped : lacks_scope world t auth (scope_of (live_handler t entry.command)) ≡ false
    pub renewed :
        record entry {
          annotations = (live_decision world t entry).annotations;
          decision = some (live_decision world t entry);
        }
        ≡ after

  pub reauthorize_entry-Renewed :
      (t : ℕ) (entry : DynamicEntry) (auth : Option (Token × User)) (policy : PolicySnapshot)
      (after : DynamicEntry)
      → reauthorize_entry world t entry auth policy ≡ ok after
      → Renewed t entry auth after
  unfolding reauthorize_entry
  reauthorize_entry-Renewed t entry auth policy after h =
      let (checked, result) = chained _ _ after h in
      let (checked2, mode) = chained _ _ tt checked in
      let (checked3, scope) = chained _ _ tt checked2 in
      let (discovered, user) = chained _ _ tt checked3 in
      record {
        live = holds_of_not _ (passed _ _ discovered);
        present = passed _ _ user;
        scoped = passed _ _ scope;
        renewed = same_value _ after result;
      }

  module _ (t : ℕ) (auth : Option (Token × User)) (invocation : Invocation Token User Args)
      (now : invocation.policy ≡ request_policy world t invocation.auth)
      (caller : (auth ≡ none) ⊎ (invocation.auth ≡ auth)) where
    -- What the checks of a renewed entry amount to.
    pub built :
        (live : DynamicEntry) (sealed : Invocation Token User Args)
        → Renewed t invocation.entry auth live
        → is_disabled world t invocation.impersonated_user ≡ false
        → targets_allowed world t invocation.impersonated_user auth invocation.entry.command
            invocation.arguments
          ≡ true
        → check_mode (live_decision world t live) (with_entry world invocation live) ≡ ok tt
        → with_entry world invocation live ≡ sealed
        → Sealed t auth sealed
    unfolding invocation_mode decision_mode
    built live sealed r able targets mode same =
        let mode_plain =
          subst (λ e. check_mode (live_decision world t e) (with_entry world invocation e) ≡ ok tt)
            (sym r.renewed) mode in
        subst (λ s. Sealed t auth s) same
          (subst (λ e. Sealed t auth (with_entry world invocation e)) r.renewed
            (record {
              live = r.live;
              decided = refl;
              present = r.present;
              scoped = r.scoped;
              on_target = targets;
              able = able;
              current = now;
              caller = caller;
              permitted = not_deny _ (passed _ _ mode_plain);
            }))
