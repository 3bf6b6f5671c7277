-- ===== src/Pagination.antt =====
-- provider/catalog_pagination.py: the pages of the command discovery.
pub mod Cursor
pub mod Padding
pub mod States
pub mod Continuation
mod Tests
