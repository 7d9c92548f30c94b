-- ===== src/Gate.antt =====
-- crates/wll-gate: the pipeline that a proposal passes on its way to the ledger.
pub mod Stage
pub mod Stages
pub mod Pipeline
pub mod Rules
pub mod Judges
pub mod Default
pub mod Recorded
pub mod Tests
