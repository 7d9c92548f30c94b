-- ===== src/Types/Temporal/Order.antt =====
-- crates/wll-types/src/temporal.rs: the order of time stamps, and `advance` in it.
use wll.Base.{ℕ, ◌+◌, ◌<◌, ◌≡◌, ◌⊎◌, true, false, arith, eq_nat}
use wll.Types.Temporal.{TemporalAnchor, is_after, is_before, advance, u32_mod}

-- `is_before` is the converse of `is_after`.
pub is_before-is_after : (a b : TemporalAnchor) → is_before a b ≡ is_after b a
unfolding is_before is_after
is_before-is_after a b = ground arith

pub is_after_irrefl : (a : TemporalAnchor) → is_after a a ≡ false
unfolding is_after
is_after_irrefl a = ground arith

-- `is_after` is transitive.
pub is_after_trans :
    (a b c : TemporalAnchor) → is_after a b ≡ true → is_after b c ≡ true → is_after a c ≡ true
unfolding is_after
is_after_trans a b c p q = ground arith

-- Of any two stamps one is after the other, or they are equal in all three parts.
pub is_after_total :
    (a b : TemporalAnchor) → (is_after a b ≡ true) ⊎ (is_after b a ≡ true) ⊎ (a ≡ b)
unfolding is_after
is_after_total a b = ground arith

-- With logical counters below the last `u32`, an advanced stamp is after the local stamp and after
-- the received one, whatever the wall clock says.
pub advance-is_after :
    (now_ms : ℕ) (a r : TemporalAnchor) (node : ℕ)
    → a.logical + 1 < u32_mod
    → r.logical + 1 < u32_mod
    → (is_after (advance now_ms a r node) a ≡ true) × (is_after (advance now_ms a r node) r ≡ true)
unfolding is_after advance
advance-is_after now_ms a r node p q = ground arith
