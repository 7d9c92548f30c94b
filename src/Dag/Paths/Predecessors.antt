-- ===== src/Dag/Paths/Predecessors.antt =====
-- crates/wll-dag/src/dag.rs: the predecessors that a path search writes down.
use wll.Base.{
  suc, ◌≤◌, ◌≡◌, refl, inl, inr, true, false, List, [], ◌∷◌, some, contains, length, ◌==◌, eq_nat,
  if◌then◌else◌, arith, Bool-cases, nat_eq_iff,
}
use wll.Base.Maps
use wll.Base.Maps.{
  HashMap, get-insert, contains_key, contains_key-get, contains_key-insert, length-insert,
}
use wll.Types.Commitment.{ObjectId}
use wll.Dag.Paths.{Predecessors, come_from}

pub get-come_from :
    (current : ObjectId) (ids : List ObjectId) (m : Predecessors) (k : ObjectId)
    → Maps.get k (come_from current ids m) ≡ (if contains ids k then some current else Maps.get k m)
unfolding come_from
get-come_from current [] m k = refl
get-come_from current (id ∷ ids) m k =
    ground
      (arith, get-come_from current ids (Maps.insert id current m) k, get-insert id k current m)

pub length-come_from :
    (current : ObjectId) (ids : List ObjectId) (m : Predecessors)
    → length m ≤ length (come_from current ids m)
unfolding come_from
length-come_from current [] m = omega arith
length-come_from current (id ∷ ids) m =
    ground
      (arith, length-come_from current ids (Maps.insert id current m), length-insert id current m)

pub grows-come_from :
    (current : ObjectId) (ids : List ObjectId) (m : Predecessors) (k : ObjectId)
    → contains ids k ≡ true
    → contains_key k m ≡ false
    → suc (length m) ≤ length (come_from current ids m)
unfolding come_from
grows-come_from current [] m k h e = ground arith
grows-come_from current (id ∷ ids) m k h e = elim (Bool-cases (id == k)) [
  | inl same ↦
      let free : contains_key id m ≡ false = rw ((nat_eq_iff id k).0 same) e in
      ground (
        arith,
        length-come_from current ids (Maps.insert id current m),
        length-insert id current m,
        free,
      )
  | inr other ↦ ground (
    arith,
    grows-come_from current ids (Maps.insert id current m) k,
    contains_key-insert id k current m,
    length-insert id current m,
    h,
  )
]
