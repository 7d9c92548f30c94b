-- ===== src/Dag/Paths.antt =====
-- crates/wll-dag/src/dag.rs: the edges of the graph, and paths along them.
pub mod Edges
pub mod Predecessors
pub mod Traced
use wll.Base.{
  ℕ, zero, suc, ◌+◌, Bool, true, false, List, [], ◌∷◌, ◌++◌, map, Option, none, some, contains,
  length, ◌==◌, eq_nat, if◌then◌else◌,
}
use wll.Base.Maps
use wll.Base.Maps.{HashMap, contains_key}
use wll.Types.Commitment.{ObjectId}
use wll.Dag.Node.{DagNode, ParentRef, targets, parent_ids}
use wll.Dag.Graph.{ProvenanceDag, children_of, get_node, resolve}
use wll.Dag.Search.{Loop, search_for}

-- The parents of a node; a missing node has none.
unfoldable pub parents_at : ProvenanceDag → ObjectId → List ParentRef
parents_at dag id = elim (get_node id dag) [ none ↦ [] | some node ↦ node.parents ]

abbrev pub up : ProvenanceDag → ObjectId → List ObjectId
up dag id = targets (parents_at dag id)

abbrev pub down : ProvenanceDag → ObjectId → List ObjectId
down dag id = children_of id dag.children

-- Every id that an edge leads to. There are at most so many rounds in a search.
abbrev pub parent_ends : HashMap ObjectId DagNode → List ObjectId
parent_ends [] = []
parent_ends ((id, node) ∷ nodes) = parent_ids node ++ parent_ends nodes

abbrev pub child_ends : HashMap ObjectId (List ObjectId) → List ObjectId
child_ends [] = []
child_ends ((id, ids) ∷ m) = ids ++ child_ends m

abbrev pub edge_ends : ProvenanceDag → List ObjectId
edge_ends dag = parent_ends dag.nodes ++ child_ends dag.children

abbrev pub rounds : ProvenanceDag → ℕ
rounds dag = suc (length (edge_ends dag))

abbrev pub Predecessors : Type 0
Predecessors = HashMap ObjectId ObjectId

-- The search has come to each of `ids` from `current`.
unfoldable pub come_from : ObjectId → List ObjectId → Predecessors → Predecessors
come_from current [] predecessors = predecessors
come_from current (id ∷ ids) predecessors =
    come_from current ids (Maps.insert id current predecessors)

-- Back from `to` along the predecessors, what is found in front of what was found before.
unfoldable pub walk_back : ℕ → Predecessors → ObjectId → ObjectId → List ObjectId → List ObjectId
walk_back zero predecessors start current path = current ∷ path
walk_back (suc fuel) predecessors start current path = elim (current == start) [
  | true ↦ current ∷ path
  | false ↦ elim (Maps.get current predecessors) [
    | none ↦ current ∷ path
    | some prev ↦ walk_back fuel predecessors start prev (current ∷ path)
  ]
]

abbrev pub path_from : ObjectId → ObjectId → Predecessors → List ObjectId
path_from start to predecessors = walk_back (length predecessors) predecessors start to []

abbrev pub start_at : {A : Type 0} → ObjectId → A → Loop ObjectId A
start_at id found = record { visited = id ∷ []; queue = id ∷ []; found = found }

-- The ids on a path from `start` to `to` along the edges, found breadth first.
unfoldable pub find_path :
    (ObjectId → List ObjectId) → ℕ → ObjectId → ObjectId → Option (List ObjectId)
find_path next fuel start to =
    elim (search_for (λ id. id) next come_from to fuel (start_at start [])) [
      | none ↦ none
      | some predecessors ↦ some (path_from start to predecessors)
    ]

unfoldable pub directed_path_down : ProvenanceDag → ObjectId → ObjectId → Option (List ObjectId)
unfolding find_path
directed_path_down dag start to = elim (start == to) [
  | true ↦ some (start ∷ [])
  | false ↦ find_path (down dag) (rounds dag) start to
]

-- parents first, then children
abbrev pub both_ways : ProvenanceDag → ObjectId → List ObjectId
both_ways dag id = up dag id ++ down dag id

unfoldable pub causal_path : ProvenanceDag → ObjectId → ObjectId → Option (List DagNode)
unfolding find_path
causal_path dag start to = elim (contains_key start dag.nodes) [
  | false ↦ none
  | true ↦ elim (contains_key to dag.nodes) [
    | false ↦ none
    | true ↦ elim (start == to) [
      | true ↦ some (resolve dag (start ∷ []))
      | false ↦ elim (find_path (both_ways dag) (rounds dag) start to) [
        | none ↦ none
        | some ids ↦ some (resolve dag ids)
      ]
    ]
  ]
]
