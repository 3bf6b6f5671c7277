-- ===== src/Policy.antt =====
-- provider/policy.py: capability policies and their resolution by token id.
pub mod Mode
pub mod Snapshot
pub mod Profiles
pub mod Resolver
pub mod Resolution
mod Tests
