-- ===== src/Index.antt =====
-- crates/wll-index: the staging index.
mod Tests
pub mod Entry
pub mod Staging
