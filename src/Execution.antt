-- ===== src/Execution.antt =====
-- provider/execution.py: authorization, confirmation and execution of one command.
pub mod Invocation
pub mod Evidence
pub mod Confirming
pub mod Reasons
pub mod Shown
pub mod Favorites
pub mod Actions
pub mod Live
pub mod Authorize
pub mod Session
pub mod Pipeline
pub mod Run
pub mod Checks
pub mod Kept
pub mod Targets
pub mod Sealed
pub mod Finalized
pub mod Quiet
pub mod Stages
pub mod Among
pub mod Ready
pub mod Runs
pub mod Safety
pub mod Denied
pub mod HardDenied
mod Tests
mod Worlds
mod Calls
