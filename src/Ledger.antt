-- ===== src/Ledger.antt =====
-- crates/wll-ledger: the receipt chains of the worldlines.
pub mod Records
pub mod Codec
pub mod Memory
pub mod Writer
pub mod Reader
pub mod Validation
pub mod Scan
pub mod Pushed
pub mod Invariant
pub mod Append
pub mod Found
pub mod Bodies
pub mod Reports
pub mod Run
pub mod Integrity
pub mod Lookup
pub mod Replay
pub mod Folds
pub mod Converge
pub mod Effects
pub mod Commits
pub mod Tests
