-- ===== src/Dag/Graph.antt =====
-- crates/wll-dag/src/dag.rs: the graph, its growth, its validation and its pruning.
pub mod Edges
pub mod Sound
pub mod Added
pub mod Retained
pub mod Trimmed
pub mod Pruned
use wll.Base.{
  ℕ, Bool, true, false, not, ◌&&◌, List, [], ◌∷◌, ◌++◌, Option, none, some, is_empty, length,
  contains, ◌==◌, eq_nat, if◌then◌else◌, leb,
}
use wll.Base.Maps
use wll.Base.Maps.{HashMap, contains_key, keys, values}
use wll.Base.Result.{Result, ok, err, fail_if, ◌>>◌ as then_do}
use wll.Base.Exec.{Exec, lift, gets, modify, ◌>>=◌, ◌>>◌}
use wll.Base.Sort.{sort_by}
use wll.Types.Temporal.{TemporalAnchor, is_before}
use wll.Types.Commitment.{ObjectId, WorldlineId}
use wll.Dag.Node.{
  DagNode, ParentRef, DagError, dangling_parent, duplicate_node, cycle_detected, is_root,
}

pub record ProvenanceDag : Type 0 where
  pub nodes : HashMap ObjectId DagNode
  pub children : HashMap ObjectId (List ObjectId)
  pub roots : List ObjectId

abbrev pub new : ProvenanceDag
new = record { nodes = []; children = []; roots = [] }

abbrev pub len : ProvenanceDag → ℕ
len dag = length dag.nodes

-- a missing key is an empty list
unfoldable pub children_of : ObjectId → HashMap ObjectId (List ObjectId) → List ObjectId
children_of id children = elim (Maps.get id children) [ none ↦ [] | some ids ↦ ids ]

unfoldable pub check_parents :
    ObjectId → HashMap ObjectId DagNode → List ParentRef → Result DagError (Unit {0})
check_parents id nodes [] = ok tt
check_parents id nodes (p ∷ ps) =
    let rest = check_parents id nodes ps in
    if contains_key p.target nodes then rest else err (dangling_parent id p.target)

-- `children.entry(parent).or_default().push(id)`
unfoldable pub push_child :
    ObjectId → ObjectId → HashMap ObjectId (List ObjectId) → HashMap ObjectId (List ObjectId)
push_child parent id children = Maps.insert parent (children_of parent children ++ id ∷ []) children

unfoldable pub link_children :
    ObjectId → List ParentRef → HashMap ObjectId (List ObjectId) → HashMap ObjectId (List ObjectId)
link_children id [] children = children
link_children id (p ∷ ps) children = link_children id ps (push_child p.target id children)

unfoldable pub add_node : DagNode → Exec ProvenanceDag DagError (Unit {0})
add_node node = do
  dag ← gets (λ s. s)
  lift (fail_if (contains_key node.id dag.nodes) (duplicate_node node.id))
  lift (check_parents node.id dag.nodes node.parents)
  modify (λ s. record s { children = link_children node.id node.parents s.children })
  modify (λ s. record s { roots = if is_root node then s.roots ++ node.id ∷ [] else s.roots })
  modify (λ s. record s { nodes = Maps.insert node.id node s.nodes })

abbrev pub get_node : ObjectId → ProvenanceDag → Option DagNode
get_node id dag = Maps.get id dag.nodes

-- `ids.filter_map(|id| self.nodes.get(id))`
unfoldable pub resolve : ProvenanceDag → List ObjectId → List DagNode
resolve dag [] = []
resolve dag (id ∷ ids) =
    let rest = resolve dag ids in elim (get_node id dag) [ none ↦ rest | some node ↦ node ∷ rest ]

abbrev pub root_nodes : ProvenanceDag → List DagNode
root_nodes dag = resolve dag dag.roots

unfoldable pub of_worldline : WorldlineId → List DagNode → List DagNode
of_worldline worldline [] = []
of_worldline worldline (n ∷ ns) =
    let rest = of_worldline worldline ns in if n.worldline == worldline then n ∷ rest else rest

unfoldable pub worldline_history : WorldlineId → ProvenanceDag → List DagNode
worldline_history worldline dag =
    sort_by (λ a b. leb a.seq b.seq) (of_worldline worldline (values dag.nodes))

unfoldable pub validate_parents :
    HashMap ObjectId DagNode → List DagNode → Result DagError (Unit {0})
validate_parents nodes [] = ok tt
validate_parents nodes (n ∷ ns) =
    then_do (check_parents n.id nodes n.parents) (validate_parents nodes ns)

unfoldable pub validate_roots :
    HashMap ObjectId DagNode → List ObjectId → Result DagError (Unit {0})
validate_roots nodes [] = ok tt
validate_roots nodes (r ∷ rs) =
    let rest = validate_roots nodes rs in
    elim (Maps.get r nodes) [
      | none ↦ rest
      | some node ↦ if is_root node then rest else err (cycle_detected r)
    ]

unfoldable pub validate : ProvenanceDag → Result DagError (Unit {0})
validate dag =
    then_do (validate_parents dag.nodes (values dag.nodes)) (validate_roots dag.nodes dag.roots)

unfoldable pub stale : TemporalAnchor → HashMap ObjectId DagNode → List ObjectId
stale horizon [] = []
stale horizon ((id, node) ∷ nodes) =
    let rest = stale horizon nodes in if is_before node.timestamp horizon then id ∷ rest else rest

-- for each id: `map.remove(id)`
unfoldable pub remove_all : {V : Type 0} → List ObjectId → HashMap ObjectId V → HashMap ObjectId V
remove_all [] m = m
remove_all (id ∷ ids) m = remove_all ids (Maps.remove id m)

-- `ids.retain(|id| !pruned_set.contains(id))`
unfoldable pub retain_ids : List ObjectId → List ObjectId → List ObjectId
retain_ids pruned [] = []
retain_ids pruned (id ∷ ids) =
    let rest = retain_ids pruned ids in if contains pruned id then rest else id ∷ rest

unfoldable pub retain_parents : List ObjectId → List ParentRef → List ParentRef
retain_parents pruned [] = []
retain_parents pruned (p ∷ ps) =
    let rest = retain_parents pruned ps in if contains pruned p.target then rest else p ∷ rest

unfoldable pub trim_node : List ObjectId → DagNode → DagNode
trim_node pruned node = record node { parents = retain_parents pruned node.parents }

-- It had parents, and all of them were pruned.
unfoldable pub is_orphaned : List ObjectId → DagNode → Bool
is_orphaned pruned node = not (is_root node) && is_root (trim_node pruned node)

-- one round over a remaining id
unfoldable pub trim_at : List ObjectId → ObjectId → ProvenanceDag → ProvenanceDag
trim_at pruned id dag = elim (get_node id dag) [
  | none ↦ dag
  | some node ↦ record dag {
    nodes = Maps.insert id (trim_node pruned node) dag.nodes;
    roots =
        if is_orphaned pruned node && not (contains dag.roots id)
        then dag.roots ++ id ∷ []
        else dag.roots;
  }
]

unfoldable pub trim_all : List ObjectId → List ObjectId → ProvenanceDag → ProvenanceDag
trim_all pruned [] dag = dag
trim_all pruned (id ∷ ids) dag = trim_all pruned ids (trim_at pruned id dag)

unfoldable pub retain_children :
    List ObjectId → HashMap ObjectId (List ObjectId) → HashMap ObjectId (List ObjectId)
retain_children pruned [] = []
retain_children pruned ((id, ids) ∷ m) = (id, retain_ids pruned ids) ∷ retain_children pruned m

-- The nodes, the index and the roots without the pruned ids.
unfoldable pub drop_all : List ObjectId → ProvenanceDag → ProvenanceDag
drop_all pruned dag = record {
  nodes = remove_all pruned dag.nodes;
  children = remove_all pruned dag.children;
  roots = retain_ids pruned dag.roots;
}

-- The number of pruned nodes, and the graph that is left.
unfoldable pub checkpoint : TemporalAnchor → ProvenanceDag → ℕ × ProvenanceDag
checkpoint horizon dag =
    let pruned = stale horizon dag.nodes in
    let kept = drop_all pruned dag in
    let trimmed = trim_all pruned (keys kept.nodes) kept in
    (length pruned, record trimmed { children = retain_children pruned trimmed.children })
