-- ===== src/Dag/Graph/Retained.antt =====
-- crates/wll-dag/src/dag.rs: the parts of `checkpoint` on lists and maps.
use wll.Base.{
  ap, ◌≡◌, refl, inl, inr, Bool, false, not, ◌&&◌, List, [], ◌∷◌, none, some, contains, ◌==◌,
  eq_nat, if◌then◌else◌, arith, Bool-cases, nat_eq_iff,
}
use wll.Base.Maps
use wll.Base.Maps.{
  HashMap, contains_key, get-insert, get-remove, contains_key-get, insert-Distinct, remove-Distinct,
  keys, length-remove, length-insert, contains_key-remove,
}
use wll.Types.Temporal.{TemporalAnchor, is_before}
use wll.Types.Commitment.{ObjectId}
use wll.Dag.Node.{DagNode, ParentRef, targets}
use wll.Dag.Graph.{children_of, stale, remove_all, retain_ids, retain_parents, retain_children}

-- The node at `id` lies before the horizon.
abbrev pub is_stale_at : TemporalAnchor → HashMap ObjectId DagNode → ObjectId → Bool
is_stale_at horizon nodes id = elim (Maps.get id nodes) [
  | none ↦ false
  | some node ↦ is_before node.timestamp horizon
]

pub contains-stale :
    (horizon : TemporalAnchor) (nodes : HashMap ObjectId DagNode) (id : ObjectId)
    → Maps.Distinct nodes
    → contains (stale horizon nodes) id ≡ is_stale_at horizon nodes id
unfolding stale Maps.get
contains-stale horizon [] id d = refl
contains-stale horizon ((k, n) ∷ nodes) id d =
    ground
      (arith, contains-stale horizon nodes id d.1, contains_key-get k nodes, d.0, nat_eq_iff k id)

pub get-remove_all :
    {V : Type 0} (ids : List ObjectId) (m : HashMap ObjectId V) (k : ObjectId)
    → Maps.get k (remove_all ids m) ≡ (if contains ids k then none else Maps.get k m)
unfolding remove_all
get-remove_all [] m k = refl
get-remove_all (id ∷ ids) m k =
    ground (arith, get-remove_all ids (Maps.remove id m) k, get-remove id k m)

pub remove_all-Distinct :
    {V : Type 0} (ids : List ObjectId) (m : HashMap ObjectId V)
    → Maps.Distinct m
    → Maps.Distinct (remove_all ids m)
unfolding remove_all
remove_all-Distinct [] m d = d
remove_all-Distinct (id ∷ ids) m d =
    remove_all-Distinct ids (Maps.remove id m) (remove-Distinct id m d)

pub contains-retain_ids :
    (pruned ids : List ObjectId) (k : ObjectId)
    → contains (retain_ids pruned ids) k ≡ (contains ids k && not (contains pruned k))
unfolding retain_ids
contains-retain_ids pruned [] k = refl
contains-retain_ids pruned (id ∷ ids) k = elim (Bool-cases (id == k)) [
  | inl e ↦
      ground (arith, contains-retain_ids pruned ids k, ap (contains pruned) ((nat_eq_iff id k).0 e))
  | inr e ↦ ground (arith, contains-retain_ids pruned ids k)
]

pub contains-retain_parents :
    (pruned : List ObjectId) (ps : List ParentRef) (k : ObjectId)
    → contains (targets (retain_parents pruned ps)) k
      ≡ (contains (targets ps) k && not (contains pruned k))
unfolding retain_parents
contains-retain_parents pruned [] k = refl
contains-retain_parents pruned (p ∷ ps) k = elim (Bool-cases (p.target == k)) [
  | inl e ↦ ground (
    arith,
    contains-retain_parents pruned ps k,
    ap (contains pruned) ((nat_eq_iff p.target k).0 e),
  )
  | inr e ↦ ground (arith, contains-retain_parents pruned ps k)
]

pub retain_parents_idem :
    (pruned : List ObjectId) (ps : List ParentRef)
    → retain_parents pruned (retain_parents pruned ps) ≡ retain_parents pruned ps
unfolding retain_parents
retain_parents_idem pruned [] = refl
retain_parents_idem pruned (p ∷ ps) = elim (Bool-cases (contains pruned p.target)) [
  | inl e ↦ rw e (retain_parents_idem pruned ps)
  | inr e ↦ rw (e, retain_parents, e) (ap (λ qs. p ∷ qs) (retain_parents_idem pruned ps))
]

pub children_of-retain_children :
    (pruned : List ObjectId) (p : ObjectId) (m : HashMap ObjectId (List ObjectId))
    → children_of p (retain_children pruned m) ≡ retain_ids pruned (children_of p m)
unfolding children_of retain_children Maps.get retain_ids
children_of-retain_children pruned p [] = refl
children_of-retain_children pruned p ((k, ids) ∷ m) = elim (Bool-cases (k == p)) [
  | inl e ↦ rw (children_of, Maps.get, e) refl
  | inr e ↦ ground (arith, children_of-retain_children pruned p m)
]

pub children_of-remove_all :
    (ids : List ObjectId) (p : ObjectId) (m : HashMap ObjectId (List ObjectId))
    → children_of p (remove_all ids m) ≡ (if contains ids p then [] else children_of p m)
unfolding children_of
children_of-remove_all ids p m = ground (arith, get-remove_all ids m p)

pub contains-keys :
    {V : Type 0} (m : HashMap ObjectId V) (k : ObjectId) → contains (keys m) k ≡ contains_key k m
unfolding contains_key
contains-keys [] k = refl
contains-keys ((j, v) ∷ m) k = ground (arith, contains-keys m k)

-- No parents are left of none.
pub retain_parents-nil :
    (pruned : List ObjectId) (ps : List ParentRef) → ps ≡ [] → retain_parents pruned ps ≡ []
unfolding retain_parents
retain_parents-nil pruned [] h = refl
retain_parents-nil pruned (p ∷ ps) h = ground arith
