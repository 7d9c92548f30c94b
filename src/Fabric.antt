-- ===== src/Fabric.antt =====
-- crates/wll-fabric: the hybrid logical clock and the write-ahead log of the event fabric.
pub mod Hlc
pub mod Wal
pub mod Tests
