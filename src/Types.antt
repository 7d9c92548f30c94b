-- ===== src/Types.antt =====
-- crates/wll-types: the types that every other crate shares.
pub mod Temporal
pub mod Commitment
