-- ===== src/PolicyConfig.antt =====
-- provider/policy_config.py: the stored policies.
pub mod Stored
pub mod Build
pub mod Closed
pub mod Ids
pub mod Resolved
pub mod Suffixes
mod Tests
