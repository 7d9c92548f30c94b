-- ===== src/Dag/Graph/Added.antt =====
-- crates/wll-dag/src/dag.rs: what `add_node` does to the nodes, the child index and the roots.
use wll.Base.{
  ◌≡◌, refl, sym, ap, ◌∙◌, ◌⊎◌, inl, inr, true, false, List, [], ◌∷◌, ◌++◌, Option, none, some,
  Option-cases, contains, is_empty, ◌==◌, eq_nat, if◌then◌else◌, append-nil, append_assoc,
  Bool-cases, nat_eq_iff,
}
use wll.Base.Maps
use wll.Base.Maps.{HashMap, contains_key, get-insert}
use wll.Base.Result.{ok, err}
use wll.Types.Commitment.{ObjectId}
use wll.Dag.Node.{DagNode, ParentRef, parent_ids, dangling_parent, duplicate_node}
use wll.Dag.Graph.{ProvenanceDag, get_node, children_of, push_child, link_children, add_node}
use wll.Dag.Graph.Sound.{IsAddable, grown, add_node-cases}

-- The node once for each of its references to `p`.
abbrev pub edges_from : ObjectId → List ParentRef → ObjectId → List ObjectId
edges_from p [] id = []
edges_from p (q ∷ ps) id = if q.target == p then id ∷ edges_from p ps id else edges_from p ps id

-- The node is found under its id; behind the children of each of its parents it stands once for each
-- reference; it is the last root if it has no parents. All else is as it was.
pub record IsAdded (node : DagNode) (before after : ProvenanceDag) : Type 0 where
  pub found :
      (id : ObjectId)
      → get_node id after ≡ (if node.id == id then some node else get_node id before)
  pub indexed :
      (p : ObjectId)
      → children_of p after.children
        ≡ children_of p before.children ++ edges_from p node.parents node.id
  pub rooted : after.roots ≡ before.roots ++ (if is_empty node.parents then node.id ∷ [] else [])

abbrev or_default : Option (List ObjectId) → List ObjectId
or_default none = []
or_default (some ids) = ids

children_of-or_default :
    (p : ObjectId) (m : HashMap ObjectId (List ObjectId))
    → children_of p m ≡ or_default (Maps.get p m)
unfolding children_of
children_of-or_default p m = elim (Option-cases (Maps.get p m)) [
  | inl e ↦ rw (children_of, e) refl
  | inr (ids, e) ↦ rw (children_of, e) refl
]

push_child_lem :
    (parent id p : ObjectId) (m : HashMap ObjectId (List ObjectId))
    → children_of p (push_child parent id m)
      ≡ (if parent == p then children_of p m ++ id ∷ [] else children_of p m)
unfolding push_child
push_child_lem parent id p m =
    let new = children_of parent m ++ id ∷ [] in
    let found =
      children_of-or_default p (Maps.insert parent new m)
      ∙ ap or_default (get-insert parent p new m) in
    elim (Bool-cases (parent == p)) [
      | inl e ↦ found ∙ rw e (ap (λ k. children_of k m ++ id ∷ []) ((nat_eq_iff parent p).0 e))
      | inr e ↦ found ∙ rw e (sym (children_of-or_default p m))
    ]

link_children_lem :
    (id : ObjectId) (ps : List ParentRef) (m : HashMap ObjectId (List ObjectId)) (p : ObjectId)
    → children_of p (link_children id ps m) ≡ children_of p m ++ edges_from p ps id
unfolding link_children
link_children_lem id [] m p = sym (append-nil (children_of p m))
link_children_lem id (q ∷ ps) m p =
    let rest = link_children_lem id ps (push_child q.target id m) p in
    let first = push_child_lem q.target id p m in
    let joined = rest ∙ ap (λ xs. xs ++ edges_from p ps id) first in
    elim (Bool-cases (q.target == p)) [
      | inl e ↦
          rw e at joined ∙ append_assoc (children_of p m) (id ∷ []) (edges_from p ps id) ∙ rw e refl
      | inr e ↦ rw e at joined ∙ rw e refl
    ]

grown-IsAdded : (node : DagNode) (dag : ProvenanceDag) → IsAdded node dag (grown node dag)
grown-IsAdded node dag = record {
  found = λ id. get-insert node.id id node dag.nodes;
  indexed = link_children_lem node.id node.parents dag.children;
  rooted = elim (Bool-cases (is_empty node.parents)) [
    | inl e ↦ rw e refl
    | inr e ↦ rw e (sym (append-nil dag.roots))
  ];
}

-- If the node's id is free and all its parents are there, it is added: found under its id, behind the
-- children of each of its parents once for each reference, and the last root if it has no parents,
-- while all else is as it was. If its id is taken the error says so; else, if a parent is missing, the
-- error names a missing parent; and with an error the graph stays as it was.
pub add_node-IsAdded :
    (node : DagNode) (dag : ProvenanceDag)
    → IsAddable node dag × ((add_node node dag).0 ≡ ok tt) × IsAdded node dag (add_node node dag).1
      ⊎ (contains_key node.id dag.nodes ≡ true)
        × (add_node node dag ≡ (err (duplicate_node node.id), dag))
      ⊎ (p : ObjectId) × (contains_key node.id dag.nodes ≡ false)
        × (contains (parent_ids node) p ≡ true)
        × (contains_key p dag.nodes ≡ false)
        × (add_node node dag ≡ (err (dangling_parent node.id p), dag))
add_node-IsAdded node dag = elim (add_node-cases node dag) [
  | inl (addable, done) ↦ inl (addable, rw done refl, rw done (grown-IsAdded node dag))
  | inr error ↦ inr error
]
