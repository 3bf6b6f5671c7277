-- ===== src/CommandPolicy.antt =====
-- provider/command_policy.py: the capabilities that a command needs, and its guards.
pub mod Decision
pub mod Families
pub mod Exact
pub mod Scope
pub mod Resolve
pub mod Preflights
pub mod Modes
pub mod Guards
pub mod Longest
pub mod Columns
pub mod Deletions
mod Tests
