-- ===== src/Dag/Graph/Sound.antt =====
-- crates/wll-dag/src/dag.rs: `add_node` keeps the graph well formed, and a well-formed graph passes
-- `validate`.
use wll.Base.{
  ℕ, suc, ◌<◌, ◌≡◌, refl, ◌⊎◌, inl, inr, true, false, List, [], ◌∷◌, ◌++◌, contains,
  contains-append, ◌==◌, eq_nat, if◌then◌else◌, arith, Bool-cases, nat_eq_iff,
}
use wll.Base.Maps
use wll.Base.Maps.{
  HashMap, contains_key, get-insert, contains_key-get, contains_key-insert, insert-Distinct, values,
}
use wll.Base.Result.{ok, err}
use wll.Types.Commitment.{ObjectId}
use wll.Dag.Node.{DagNode, parent_ids, is_root, dangling_parent, duplicate_node}
use wll.Dag.Graph.{
  ProvenanceDag, new, children_of, link_children, add_node, validate, validate_parents,
  validate_roots,
}
use wll.Dag.Graph.Edges.{
  IsWellFormed, refers, is_root_at, children_of-link_children, check_parents_lem, top, le-top,
}

-- The graph with the node, its edges and its root.
abbrev pub grown : DagNode → ProvenanceDag → ProvenanceDag
grown node dag = record {
  nodes = Maps.insert node.id node dag.nodes;
  children = link_children node.id node.parents dag.children;
  roots = if is_root node then dag.roots ++ node.id ∷ [] else dag.roots;
}

-- The node is new and all its parents are there.
abbrev pub IsAddable : DagNode → ProvenanceDag → Type 0
IsAddable node dag =
    (contains_key node.id dag.nodes ≡ false)
    × ((p : ObjectId) → contains (parent_ids node) p ≡ true → contains_key p dag.nodes ≡ true)

-- The three ways that `add_node` ends.
pub add_node-cases :
    (node : DagNode) (dag : ProvenanceDag)
    → IsAddable node dag × (add_node node dag ≡ (ok tt, grown node dag))
      ⊎ (contains_key node.id dag.nodes ≡ true)
        × (add_node node dag ≡ (err (duplicate_node node.id), dag))
      ⊎ (p : ObjectId) × (contains_key node.id dag.nodes ≡ false)
        × (contains (parent_ids node) p ≡ true)
        × (contains_key p dag.nodes ≡ false)
        × (add_node node dag ≡ (err (dangling_parent node.id p), dag))
unfolding add_node
add_node-cases node dag = elim (Bool-cases (contains_key node.id dag.nodes)) [
  | inl taken ↦ inr (inl (taken, rw taken refl))
  | inr free ↦ elim (check_parents_lem node.id dag.nodes node.parents) [
    | inl all ↦ inl ((free, all.1), rw (free, all.0) refl)
    | inr bad ↦ inr (inr (bad.0, free, bad.2, bad.3, rw (free, bad.1) refl))
  ]
]

refers-insert :
    (node : DagNode) (nodes : HashMap ObjectId DagNode) (c p : ObjectId)
    → refers (Maps.insert node.id node nodes) c p
      ≡ (if node.id == c then contains (parent_ids node) p else refers nodes c p)
refers-insert node nodes c p = ground (arith, get-insert node.id c node nodes)

refers-contains_key :
    (nodes : HashMap ObjectId DagNode) (c p : ObjectId)
    → contains_key c nodes ≡ false
    → refers nodes c p ≡ false
refers-contains_key nodes c p h = ground (arith, contains_key-get c nodes)

-- The new node stands above all its parents.
abbrev rank_with : DagNode → (ObjectId → ℕ) → ObjectId → ℕ
rank_with node rank id = if node.id == id then suc (top rank node.parents) else rank id

module _ (node : DagNode) (dag : ProvenanceDag) (w : IsWellFormed dag)
    (a : IsAddable node dag) where
  -- No node refers to the new one.
  unreferred : (c : ObjectId) → refers dag.nodes c node.id ≡ false
  unreferred c = ground (arith, w.present c node.id, a.0)

  grown-falls :
      (c p : ObjectId)
      → refers (Maps.insert node.id node dag.nodes) c p ≡ true
      → rank_with node w.rank p < rank_with node w.rank c
  grown-falls c p h = ground (
    arith,
    refers-insert node dag.nodes c p,
    a.0,
    a.1 p,
    unreferred c,
    w.falls c p,
    le-top w.rank node.parents p,
    nat_eq_iff node.id p,
    nat_eq_iff node.id c,
  )

  grown-indexed :
      (p c : ObjectId)
      → contains (children_of p (link_children node.id node.parents dag.children)) c
        ≡ refers (Maps.insert node.id node dag.nodes) c p
  grown-indexed p c = ground (
    arith,
    children_of-link_children node.id node.parents dag.children p c,
    refers-insert node dag.nodes c p,
    w.indexed p c,
    nat_eq_iff node.id c,
    refers-contains_key dag.nodes node.id p a.0,
  )

  grown-rooted :
      (id : ObjectId)
      → contains (if is_root node then dag.roots ++ node.id ∷ [] else dag.roots) id
        ≡ is_root_at (Maps.insert node.id node dag.nodes) id
  grown-rooted id = ground (
    arith,
    contains-append dag.roots (node.id ∷ []) id,
    get-insert node.id id node dag.nodes,
    w.rooted id,
    contains_key-get node.id dag.nodes,
    nat_eq_iff node.id id,
    a.0,
  )

  grown-IsWellFormed : IsWellFormed (grown node dag)
  grown-IsWellFormed = record {
    keyed = λ id n h.
        ground (arith, get-insert node.id id node dag.nodes, w.keyed id n, nat_eq_iff node.id id);
    distinct = insert-Distinct node.id node dag.nodes w.distinct;
    present = λ c p h. ground (
      arith,
      refers-insert node dag.nodes c p,
      contains_key-insert node.id p node dag.nodes,
      a.1 p,
      w.present c p,
    );
    indexed = grown-indexed;
    rooted = grown-rooted;
    rank = rank_with node w.rank;
    falls = grown-falls;
  }

pub add_node-IsWellFormed :
    (node : DagNode) (dag : ProvenanceDag) → IsWellFormed dag → IsWellFormed (add_node node dag).1
add_node-IsWellFormed node dag w = elim (add_node-cases node dag) [
  | inl done ↦ rw done.1 (grown-IsWellFormed node dag w done.0)
  | inr (inl taken) ↦ rw taken.1 w
  | inr (inr bad) ↦ rw bad.4 w
]

pub new-IsWellFormed : IsWellFormed new
unfolding children_of Maps.get contains_key
new-IsWellFormed = record {
  keyed = λ id n h. ground arith;
  distinct = tt;
  present = λ c p h. ground arith;
  indexed = λ p c. refl;
  rooted = λ id. refl;
  rank = λ id. 0;
  falls = λ c p h. ground arith;
}

-- A fact on all nodes that can be looked up goes on to the rest of the map.
validate_parents-ok :
    (nodes m : HashMap ObjectId DagNode)
    → Maps.Distinct m
    → ((c p : ObjectId) → refers m c p ≡ true → contains_key p nodes ≡ true)
    → validate_parents nodes (values m) ≡ ok tt
unfolding validate_parents Maps.get
validate_parents-ok nodes [] d h = refl
validate_parents-ok nodes ((k, n) ∷ m) d h = elim (check_parents_lem n.id nodes n.parents) [
  | inl all ↦ rw all.0 (
      validate_parents-ok nodes m d.1
        (λ c p r. h c p (ground (arith, refers-contains_key m c p, d.0, nat_eq_iff k c, r))))
  | inr bad ↦ ground (arith, h k bad.0, bad.2, bad.3, nat_eq_iff k k)
]

validate_roots-ok :
    (nodes : HashMap ObjectId DagNode) (rs : List ObjectId)
    → ((r : ObjectId) → contains rs r ≡ true → is_root_at nodes r ≡ true)
    → validate_roots nodes rs ≡ ok tt
unfolding validate_roots
validate_roots-ok nodes [] h = refl
validate_roots-ok nodes (r ∷ rs) h =
    ground
      (arith, h r, nat_eq_iff r r, validate_roots-ok nodes rs (λ q at. h q (ground (arith, at))))

pub validate-IsWellFormed : (dag : ProvenanceDag) → IsWellFormed dag → validate dag ≡ ok tt
unfolding validate
validate-IsWellFormed dag w =
    rw
      (
        validate_parents-ok dag.nodes dag.nodes w.distinct w.present,
        validate_roots-ok dag.nodes dag.roots (λ r at. rw (← w.rooted r) at),
      )
      refl
