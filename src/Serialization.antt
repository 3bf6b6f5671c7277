-- ===== src/Serialization.antt =====
-- provider/dynamic_serialization.py: results as JSON, whole and bounded.
pub mod Json
pub mod Native
pub mod Whole
pub mod Bounded
pub mod Redact
pub mod Seen
pub mod Ends
pub mod Within
pub mod Sizes
pub mod Redacted
pub mod Kept
pub mod Lossless
pub mod Keys
mod Tests
