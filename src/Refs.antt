-- ===== src/Refs.antt =====
-- crates/wll-refs: names for receipts.
pub mod Names
pub mod Memory
pub mod Tests
