-- ===== src/TargetFilters.antt =====
-- provider/target_filters.py: which targets a user may name, and which rows of a listing a user sees.
pub mod Rules
pub mod Targets
pub mod Rows
pub mod Visible
pub mod Enforced
mod Tests
