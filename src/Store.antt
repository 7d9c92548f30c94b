-- ===== src/Store.antt =====
-- crates/wll-store: content-addressed objects and the store in memory.
mod Tests
pub mod Object
pub mod Memory
