-- ===== src/EventBuffer.antt =====
-- provider/debug/event_buffer.py: the bounded buffer of recent events.
pub mod Buffer
pub mod History
pub mod Snapshots
mod Tests
