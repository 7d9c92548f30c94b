-- ===== src/Diff/State.antt =====
-- crates/wll-diff/src/state_diff.rs: the difference of two state maps. The values are of any type with
-- an equality test, as `serde_json::Value` has.
pub mod Patched
use wll.Base.{
  ℕ, suc, Bool, true, false, not, List, [], ◌∷◌, ◌++◌, Option, none, some, String, Comparable, ◌==◌,
  is_empty, eq_string, if◌then◌else◌, length,
}
use wll.Base.Maps
use wll.Base.Maps.{BTreeMap, contains_key}

pub data StateChange (V : Type 0) : Type 0 where
  added removed : String → V → StateChange V
  -- the key, the old and the new value
  modified : String → V → V → StateChange V

pub record StateDiff (V : Type 0) : Type 0 where
  pub changes : List (StateChange V)

module _ {V : Type 0} where
  unfoldable pub count_added : List (StateChange V) → ℕ
  count_added [] = 0
  count_added (added _ _ ∷ cs) = suc (count_added cs)
  count_added (_ ∷ cs) = count_added cs

  unfoldable pub count_removed : List (StateChange V) → ℕ
  count_removed [] = 0
  count_removed (removed _ _ ∷ cs) = suc (count_removed cs)
  count_removed (_ ∷ cs) = count_removed cs

  unfoldable pub count_modified : List (StateChange V) → ℕ
  count_modified [] = 0
  count_modified (modified _ _ _ ∷ cs) = suc (count_modified cs)
  count_modified (_ ∷ cs) = count_modified cs

module _ {V : Type 0} ⦃e : Comparable V⦄ where
  -- the first loop, over the old keys
  unfoldable pub changes_of_old : BTreeMap V → BTreeMap V → List (StateChange V)
  changes_of_old new [] = []
  changes_of_old new ((key, old_val) ∷ old) =
      let rest = changes_of_old new old in
      elim (Maps.get key new) [
        | none ↦ removed key old_val ∷ rest
        | some new_val ↦
            if not (old_val == new_val) then modified key old_val new_val ∷ rest else rest
      ]

  -- the second loop, over the new keys
  unfoldable pub additions : BTreeMap V → BTreeMap V → List (StateChange V)
  additions old [] = []
  additions old ((key, new_val) ∷ new) =
      let rest = additions old new in
      if not (contains_key key old) then added key new_val ∷ rest else rest

  unfoldable pub diff_states : BTreeMap V → BTreeMap V → StateDiff V
  diff_states old new = record { changes = changes_of_old new old ++ additions old new }
