-- ===== src/Types/Temporal.antt =====
-- crates/wll-types/src/temporal.rs: time stamps and their order. A wall clock reading is an
-- argument. `logical` is a `u32`, and `+ 1` on it wraps, as in a release build.
pub mod Order
use Prim.Native.Nat.{compare, Ordering}
use wll.Base.{ℕ, ◌+◌, ◌%◌, ◌^◌, max, Bool, true, false, ◌&&◌, ◌==◌, eq_nat, if◌then◌else◌}

pub record TemporalAnchor : Type 0 where
  pub physical_ms : ℕ
  pub logical : ℕ
  pub node_id : ℕ

abbrev pub new : ℕ → ℕ → ℕ → TemporalAnchor
new physical_ms logical node_id = record {
  physical_ms = physical_ms;
  logical = logical;
  node_id = node_id;
}

-- `now_ms` is what `SystemTime::now()` gives, in milliseconds since the epoch.
abbrev pub now : ℕ → ℕ → TemporalAnchor
now now_ms node_id = record { physical_ms = now_ms; logical = 0; node_id = node_id }

abbrev pub zero_anchor : TemporalAnchor
zero_anchor = record { physical_ms = 0; logical = 0; node_id = 0 }

-- `Ordering::then`
abbrev pub then_cmp : Ordering → Ordering → Ordering
then_cmp Ordering.lt o = Ordering.lt
then_cmp Ordering.eq o = o
then_cmp Ordering.gt o = Ordering.gt

unfoldable pub cmp : TemporalAnchor → TemporalAnchor → Ordering
cmp a b =
    then_cmp (then_cmp (compare a.physical_ms b.physical_ms) (compare a.logical b.logical))
      (compare a.node_id b.node_id)

unfoldable pub is_after : TemporalAnchor → TemporalAnchor → Bool
unfolding cmp
is_after a b = elim (cmp a b) [ Ordering.gt ↦ true | _ ↦ false ]

unfoldable pub is_before : TemporalAnchor → TemporalAnchor → Bool
unfolding cmp
is_before a b = elim (cmp a b) [ Ordering.lt ↦ true | _ ↦ false ]

abbrev pub u32_mod : ℕ
u32_mod = 2 ^ 32

abbrev pub wrapping_inc : ℕ → ℕ
wrapping_inc n = (n + 1) % u32_mod

unfoldable pub advance : ℕ → TemporalAnchor → TemporalAnchor → ℕ → TemporalAnchor
advance now_ms self received node_id =
    let max_physical : ℕ = max (max now_ms self.physical_ms) received.physical_ms in
    record {
      physical_ms = max_physical;
      logical =
          if max_physical == self.physical_ms && max_physical == received.physical_ms
          then wrapping_inc (max self.logical received.logical)
          else if max_physical == self.physical_ms
          then wrapping_inc self.logical
          else if max_physical == received.physical_ms
          then wrapping_inc received.logical
          else 0;
      node_id = node_id;
    }
