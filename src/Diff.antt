-- ===== src/Diff.antt =====
-- crates/wll-diff: differences between two states.

mod Tests
pub mod State
