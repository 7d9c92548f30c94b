-- ===== src/Fabric/Hlc.antt =====
-- crates/wll-fabric/src/hlc.rs: the hybrid logical clock. A call holds the mutex from its first read
-- to its last write, so it is one step; the wall clock reading is an argument.
pub mod Monotone
use wll.Base.{ℕ, max, Bool, ◌&&◌, ◌==◌, eq_nat, ltb, if◌then◌else◌}
use wll.Types.Temporal
use wll.Types.Temporal.{TemporalAnchor, wrapping_inc}

pub record HlcState : Type 0 where
  pub physical_ms : ℕ
  pub logical : ℕ

pub record HybridLogicalClock : Type 0 where
  pub node_id : ℕ
  pub state : HlcState

abbrev pub new : ℕ → HybridLogicalClock
new node_id = record { node_id = node_id; state = record { physical_ms = 0; logical = 0 } }

unfoldable pub now : ℕ → HybridLogicalClock → TemporalAnchor × HybridLogicalClock
now wall c =
    let new_physical : ℕ = max wall c.state.physical_ms in
    let new_logical : ℕ =
      if ltb c.state.physical_ms new_physical then 0 else wrapping_inc c.state.logical in
    (
      Temporal.new new_physical new_logical c.node_id,
      record c { state = record { physical_ms = new_physical; logical = new_logical } },
    )

unfoldable pub update :
    ℕ → TemporalAnchor → HybridLogicalClock → TemporalAnchor × HybridLogicalClock
update wall received c =
    let new_physical : ℕ = max (max wall c.state.physical_ms) received.physical_ms in
    let new_logical : ℕ =
      if ltb c.state.physical_ms new_physical && ltb received.physical_ms new_physical
      then 0
      else if new_physical == c.state.physical_ms && new_physical == received.physical_ms
      then wrapping_inc (max c.state.logical received.logical)
      else if new_physical == c.state.physical_ms
      then wrapping_inc c.state.logical
      else wrapping_inc received.logical in
    (
      Temporal.new new_physical new_logical c.node_id,
      record c { state = record { physical_ms = new_physical; logical = new_logical } },
    )
