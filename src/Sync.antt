-- ===== src/Sync.antt =====
-- crates/wll-sync: what is wanted from a remote, and the check of what came.
mod Tests
pub mod Negotiation
pub mod Verifier
