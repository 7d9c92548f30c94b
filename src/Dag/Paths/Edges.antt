-- ===== src/Dag/Paths/Edges.antt =====
-- crates/wll-dag/src/dag.rs: the edges at an id, and all their ends.
use wll.Base.{
  subst, ◌≡◌, inl, inr, true, List, [], ◌∷◌, some, contains, contains-append, ◌==◌, eq_nat,
  if◌then◌else◌, arith, Option-cases, Bool-cases,
}
use wll.Base.Maps
use wll.Base.Maps.{HashMap}
use wll.Types.Commitment.{ObjectId}
use wll.Dag.Node.{DagNode, parent_ids}
use wll.Dag.Graph.{ProvenanceDag, children_of, get_node}
use wll.Dag.Graph.Edges.{refers}
use wll.Dag.Paths.{parents_at, up, down, both_ways, parent_ends, child_ends, edge_ends}

children_of-cons :
    (j id : ObjectId) (ids : List ObjectId) (m : HashMap ObjectId (List ObjectId))
    → children_of id ((j, ids) ∷ m) ≡ (if j == id then ids else children_of id m)
unfolding children_of Maps.get
children_of-cons j id ids m = ground arith

pub parents_at-get :
    (dag : ProvenanceDag) (id : ObjectId) (node : DagNode)
    → get_node id dag ≡ some node
    → parents_at dag id ≡ node.parents
unfolding parents_at
parents_at-get dag id node e = ground arith

-- An edge upwards is a reference of the node.
pub contains-up :
    (dag : ProvenanceDag) (id k : ObjectId) → contains (up dag id) k ≡ refers dag.nodes id k
unfolding parents_at
contains-up dag id k = elim (Option-cases (get_node id dag)) [
  | inl e ↦ ground arith
  | inr (node, e) ↦ ground arith
]

parent_ends-refers :
    (nodes : HashMap ObjectId DagNode) (id k : ObjectId)
    → refers nodes id k ≡ true
    → contains (parent_ends nodes) k ≡ true
unfolding Maps.get
parent_ends-refers [] id k h = ground arith
parent_ends-refers ((j, n) ∷ nodes) id k h = elim (Bool-cases (j == id)) [
  | inl same ↦ ground (arith, contains-append (parent_ids n) (parent_ends nodes) k)
  | inr other ↦
      ground
        (arith, contains-append (parent_ids n) (parent_ends nodes) k, parent_ends-refers nodes id k)
]

child_ends-children_of :
    (m : HashMap ObjectId (List ObjectId)) (id k : ObjectId)
    → contains (children_of id m) k ≡ true
    → contains (child_ends m) k ≡ true
unfolding children_of Maps.get
child_ends-children_of [] id k h = h
child_ends-children_of ((j, ids) ∷ m) id k h =
    let at : contains (if j == id then ids else children_of id m) k ≡ true =
      subst (λ (l : List ObjectId). contains l k ≡ true) (children_of-cons j id ids m) h in
    ground (arith, contains-append ids (child_ends m) k, child_ends-children_of m id k, at)

module _ (dag : ProvenanceDag) (id k : ObjectId) where
  pub up-inside : contains (up dag id) k ≡ true → contains (edge_ends dag) k ≡ true
  up-inside h = ground (
    arith,
    contains-append (parent_ends dag.nodes) (child_ends dag.children) k,
    parent_ends-refers dag.nodes id k,
    contains-up dag id k,
  )

  pub down-inside : contains (down dag id) k ≡ true → contains (edge_ends dag) k ≡ true
  down-inside h = ground (
    arith,
    contains-append (parent_ends dag.nodes) (child_ends dag.children) k,
    child_ends-children_of dag.children id k h,
  )

  pub both_ways-inside : contains (both_ways dag id) k ≡ true → contains (edge_ends dag) k ≡ true
  both_ways-inside h =
      ground (arith, contains-append (up dag id) (down dag id) k, up-inside, down-inside)
