-- ===== src/Dag.antt =====
-- crates/wll-dag: the provenance graph of receipts across worldlines.
mod Tests
pub mod Node
pub mod Graph
pub mod Search
pub mod Queries
pub mod Paths
pub mod Run
