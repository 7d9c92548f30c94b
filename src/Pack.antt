-- ===== src/Pack.antt =====
-- crates/wll-pack: the variable-length integers of a pack.
mod Tests
pub mod Varint
pub mod Entry
pub mod Index
