-- ===== src/Dag/Graph/Edges.antt =====
-- crates/wll-dag/src/dag.rs: the child index, the check of the parents, and the invariant of the
-- graph.
use wll.Base.{
  ap, ℕ, ◌<◌, ◌≤◌, max, ◌≡◌, refl, ◌⊎◌, inl, inr, Bool, true, false, ◌&&◌, ◌||◌, List, [], ◌∷◌,
  ◌++◌, none, some, contains, contains-append, ◌==◌, eq_nat, arith, Bool-cases, nat_eq_iff,
}
use wll.Base.Maps
use wll.Base.Maps.{HashMap, contains_key, get-insert, contains_key-get, is_some}
use wll.Base.Result.{ok, err}
use wll.Types.Commitment.{ObjectId}
use wll.Dag.Node.{DagNode, ParentRef, targets, parent_ids, is_root, dangling_parent}
use wll.Dag.Graph.{ProvenanceDag, children_of, push_child, link_children, check_parents}

-- `child` is there and refers to `parent`.
abbrev pub refers : HashMap ObjectId DagNode → ObjectId → ObjectId → Bool
refers nodes child parent = elim (Maps.get child nodes) [
  | none ↦ false
  | some node ↦ contains (parent_ids node) parent
]

-- There is a node without parents at `id`.
abbrev pub is_root_at : HashMap ObjectId DagNode → ObjectId → Bool
is_root_at nodes id = elim (Maps.get id nodes) [ none ↦ false | some node ↦ is_root node ]

-- The edges go from a node to those with a smaller number, so that there is no cycle.
pub record IsWellFormed (dag : ProvenanceDag) : Type 0 where
  pub keyed : (id : ObjectId) (node : DagNode) → Maps.get id dag.nodes ≡ some node → node.id ≡ id
  pub distinct : Maps.Distinct dag.nodes
  pub present : (c p : ObjectId) → refers dag.nodes c p ≡ true → contains_key p dag.nodes ≡ true
  pub indexed : (p c : ObjectId) → contains (children_of p dag.children) c ≡ refers dag.nodes c p
  pub rooted : (id : ObjectId) → contains dag.roots id ≡ is_root_at dag.nodes id
  pub rank : ObjectId → ℕ
  pub falls : (c p : ObjectId) → refers dag.nodes c p ≡ true → rank p < rank c

pub children_of-push_child :
    (parent id p c : ObjectId) (m : HashMap ObjectId (List ObjectId))
    → contains (children_of p (push_child parent id m)) c
      ≡ (contains (children_of p m) c || (parent == p && id == c))
unfolding children_of push_child
children_of-push_child parent id p c m = elim (Bool-cases (parent == p)) [
  | inl e ↦ ground (
    arith,
    nat_eq_iff parent p,
    get-insert parent p (children_of parent m ++ id ∷ []) m,
    contains-append (children_of parent m) (id ∷ []) c,
  )
  | inr e ↦ ground (arith, get-insert parent p (children_of parent m ++ id ∷ []) m)
]

pub children_of-link_children :
    (id : ObjectId) (ps : List ParentRef) (m : HashMap ObjectId (List ObjectId)) (p c : ObjectId)
    → contains (children_of p (link_children id ps m)) c
      ≡ (contains (children_of p m) c || (contains (targets ps) p && id == c))
unfolding link_children
children_of-link_children id [] m p c = ground arith
children_of-link_children id (q ∷ ps) m p c = ground (
  arith,
  children_of-link_children id ps (push_child q.target id m) p c,
  children_of-push_child q.target id p c m,
)

-- The check passes exactly if every parent is there, and else names the first one that is not.
pub check_parents_lem :
    (id : ObjectId) (nodes : HashMap ObjectId DagNode) (ps : List ParentRef)
    → ((check_parents id nodes ps ≡ ok tt)
        × ((p : ObjectId) → contains (targets ps) p ≡ true → contains_key p nodes ≡ true))
      ⊎ ((p : ObjectId) × (check_parents id nodes ps ≡ err (dangling_parent id p))
          × (contains (targets ps) p ≡ true)
          × (contains_key p nodes ≡ false))
unfolding check_parents
check_parents_lem id nodes [] = inl (refl, λ p h. ground arith)
check_parents_lem id nodes (q ∷ ps) = elim (Bool-cases (contains_key q.target nodes)) [
  | inr gone ↦ inr (q.target, rw gone refl, ground (arith, nat_eq_iff q.target q.target), gone)
  | inl here ↦ elim (check_parents_lem id nodes ps) [
    | inl all ↦ inl (rw here all.0, λ p h. ground (arith, all.1 p, nat_eq_iff q.target p))
    | inr bad ↦ inr (bad.0, rw here bad.1, ground (arith, bad.2), bad.3)
  ]
]

-- A bound on the numbers of the parents.
abbrev pub top : (ObjectId → ℕ) → List ParentRef → ℕ
top rank [] = 0
top rank (p ∷ ps) = max (rank p.target) (top rank ps)

pub le-top :
    (rank : ObjectId → ℕ) (ps : List ParentRef) (p : ObjectId)
    → contains (targets ps) p ≡ true
    → rank p ≤ top rank ps
le-top rank [] p h = ground arith
le-top rank (q ∷ ps) p h = elim (Bool-cases (q.target == p)) [
  | inl e ↦ ground (arith, ap rank ((nat_eq_iff q.target p).0 e))
  | inr e ↦ ground (arith, le-top rank ps p)
]
