-- ===== src/Execution/Invocation.antt =====
-- provider/catalog.py: `DynamicEntry`, and provider/execution.py: `AuthorizedInvocation`, with what
-- the authorization reads of a live handler. `Token`, `User` and `Args` stand for the access token,
-- Music Assistant's user and the parsed arguments, which the code hands on to Music Assistant.
use ma_provider_mcp.Prelude.{ℕ, String, Bool, not, ◌&&◌, Option, Dict}
use ma_provider_mcp.Policy.Mode.{PolicyMode}
use ma_provider_mcp.Policy.Snapshot.{PolicySnapshot}
use ma_provider_mcp.CommandPolicy.Decision.{CommandDecision, CommandPreflight, CommandProfile}
use ma_provider_mcp.CommandPolicy.Exact.{command_is_hard_denied}
use ma_provider_mcp.CommandPolicy.Scope.{Scope}

-- A live handler: its identity, and the attributes that `_handler_is_discoverable` tests.
pub record Handler : Type 0 where
  pub identity : ℕ
  pub required_scope : Option Scope
  pub authenticated : Bool
  pub alias : Bool
  pub target_callable : Bool
  pub has_signature : Bool
  pub has_type_hints : Bool

unfoldable pub handler_is_discoverable : String → Handler → Bool
handler_is_discoverable command handler =
    not (command_is_hard_denied command)
    && handler.authenticated
    && not handler.alias
    && handler.target_callable
    && handler.has_signature
    && handler.has_type_hints

pub record DynamicEntry : Type 0 where
  pub name : String
  pub command : String
  pub required_scope : Option String
  pub allow_impersonation : Bool
  pub handler : Handler
  pub annotations : Dict Bool
  pub profile : Option CommandProfile
  pub decision : Option CommandDecision
  pub policy_mode : PolicyMode

pub record Invocation (Token User Args : Type 0) : Type 0 where
  pub entry : DynamicEntry
  pub arguments : Args
  pub auth : Option (Token × User)
  pub impersonated_user : Option User
  pub preflight : CommandPreflight
  pub policy : PolicySnapshot
