-- ===== src/Fabric/Hlc/Monotone.antt =====
-- crates/wll-fabric/src/hlc.rs: the order of the stamps that the clock gives.
use wll.Base.{ℕ, ◌+◌, ◌≤◌, ◌<◌, ◌≡◌, refl, List, [], ◌∷◌, true, arith, length, eq_nat}
use wll.Types.Temporal
use wll.Types.Temporal.{TemporalAnchor, u32_mod, is_after}
use wll.Fabric.Hlc.{HybridLogicalClock, now, update}

-- The last stamp that the clock gave.
abbrev pub latest : HybridLogicalClock → TemporalAnchor
latest c = Temporal.new c.state.physical_ms c.state.logical c.node_id

-- The stamp of a call is the clock's latest afterwards.
pub now-latest : (wall : ℕ) (c : HybridLogicalClock) → (now wall c).0 ≡ latest (now wall c).1
unfolding now
now-latest wall c = refl

pub update-latest :
    (wall : ℕ) (r : TemporalAnchor) (c : HybridLogicalClock)
    → (update wall r c).0 ≡ latest (update wall r c).1
unfolding update
update-latest wall r c = refl

-- With the counter below the last `u32`, the stamp of a local event is after the clock's latest one,
-- whatever the wall clock says.
pub now-is_after :
    (wall : ℕ) (c : HybridLogicalClock)
    → c.state.logical + 1 < u32_mod
    → is_after (now wall c).0 (latest c) ≡ true
unfolding now is_after
now-is_after wall c h = ground arith

-- With both counters below the last `u32`, the stamp of a received event is after the clock's latest
-- one and after the received one, whatever the wall clock says.
pub update-is_after :
    (wall : ℕ) (r : TemporalAnchor) (c : HybridLogicalClock)
    → c.state.logical + 1 < u32_mod
    → r.logical + 1 < u32_mod
    → (is_after (update wall r c).0 (latest c) ≡ true) × (is_after (update wall r c).0 r ≡ true)
unfolding update is_after
update-is_after wall r c p q = ground arith

-- If the counter is at the last `u32` and the wall clock has not passed the stored time, the
-- counter wraps and the new stamp lies before the latest one.
pub now_wraps :
    (wall : ℕ) (c : HybridLogicalClock)
    → c.state.logical + 1 ≡ u32_mod
    → wall ≤ c.state.physical_ms
    → is_after (latest c) (now wall c).0 ≡ true
unfolding now is_after
now_wraps wall c e h = ground arith

-- One call of the clock: a local event, or a stamp received from another node.
pub data Call : Type 0 where
  local : ℕ → Call
  remote : ℕ → TemporalAnchor → Call

unfoldable pub step : Call → HybridLogicalClock → TemporalAnchor × HybridLogicalClock
unfolding now update
step (local wall) c = now wall c
step (remote wall r) c = update wall r c

unfoldable pub stamps : List Call → HybridLogicalClock → List TemporalAnchor
stamps [] c = []
stamps (e ∷ es) c = (step e c).0 ∷ stamps es (step e c).1

-- Each stamp is after the one before it, and the first is after `t`.
abbrev pub IsAscending : TemporalAnchor → List TemporalAnchor → Type 0
IsAscending t [] = Unit
IsAscending t (x ∷ xs) = (is_after x t ≡ true) × IsAscending x xs

-- The received counters are at most `b`.
abbrev pub ReceivedLe : ℕ → List Call → Type 0
ReceivedLe b [] = Unit
ReceivedLe b (local _ ∷ es) = ReceivedLe b es
ReceivedLe b (remote _ r ∷ es) = (r.logical ≤ b) × ReceivedLe b es

ReceivedLe-suc : (b : ℕ) (es : List Call) → ReceivedLe b es → ReceivedLe (b + 1) es
ReceivedLe-suc b [] h = tt
ReceivedLe-suc b (local _ ∷ es) h = ReceivedLe-suc b es h
ReceivedLe-suc b (remote _ r ∷ es) h = (omega arith, ReceivedLe-suc b es h.1)

now-logical-le :
    (wall b : ℕ) (c : HybridLogicalClock)
    → c.state.logical ≤ b
    → b + 1 < u32_mod
    → (now wall c).1.state.logical ≤ b + 1
unfolding now
now-logical-le wall b c h k = ground arith

update-logical-le :
    (wall b : ℕ) (r : TemporalAnchor) (c : HybridLogicalClock)
    → c.state.logical ≤ b
    → r.logical ≤ b
    → b + 1 < u32_mod
    → (update wall r c).1.state.logical ≤ b + 1
unfolding update
update-logical-le wall b r c h k l = ground arith

-- A clock whose counter is at most `b`, and that receives no counter above `b`, gives stamps each of
-- which is after the one before it, as long as `b` and the number of calls stay below the last `u32`:
-- the wall clock may go back, stand still or jump.
pub stamps-IsAscending_below :
    (b : ℕ) (es : List Call) (c : HybridLogicalClock)
    → c.state.logical ≤ b
    → ReceivedLe b es
    → b + length es < u32_mod
    → IsAscending (latest c) (stamps es c)
unfolding stamps step
stamps-IsAscending_below b [] c h k l = tt
stamps-IsAscending_below b (local wall ∷ es) c h k l = (
  now-is_after wall c (omega arith),
  stamps-IsAscending_below (b + 1) es (now wall c).1 (now-logical-le wall b c h (omega arith))
      (ReceivedLe-suc b es k) (omega arith),
)
stamps-IsAscending_below b (remote wall r ∷ es) c h k l = (
  (update-is_after wall r c (omega arith) (omega arith)).0,
  stamps-IsAscending_below (b + 1) es (update wall r c).1
      (update-logical-le wall b r c h k.0 (omega arith)) (ReceivedLe-suc b es k.1) (omega arith),
)
