-- ===== src/Dag/Tests.antt =====
-- A small graph: 1 and 4 are roots, 2 refers to 1, 3 to 2 and 4, and 5 to 4.
use wll.Base.{
  ◌*◌, ◌+◌, length, not, ◌&&◌, ◌≡◌, ◌⊎◌, ◌↔◌, ◌≢◌, eq_nat, refl, true, false, List, [], ◌∷◌, some,
  contains, arith,
}
use wll.Base.Maps
use wll.Base.Maps.{contains_key}
use wll.Base.Result.{ok, err}
use wll.Types.Temporal
use wll.Types.Temporal.{TemporalAnchor}
use wll.Types.Commitment.{ObjectId, commitment}
use wll.Dag.Node.{
  DagNode, ParentRef, sequential, empty_metadata, parent_ids, dangling_parent, duplicate_node,
}
use wll.Dag.Graph.{
  ProvenanceDag, new, add_node, get_node, checkpoint, validate, check_parents, link_children,
  push_child, children_of,
}
use wll.Dag.Graph.Edges.{IsWellFormed, refers}
use wll.Dag.Graph.Sound.{IsAddable}
use wll.Dag.Graph.Added.{IsAdded, add_node-IsAdded}
use wll.Dag.Graph.Retained.{is_stale_at}
use wll.Dag.Graph.Pruned.{checkpoint_lem}
use wll.Dag.Run.{Call, add, perform, run, run-IsWellFormed, run_acyclic}
use wll.Dag.Search.Reach.{Leads}
use wll.Dag.Paths.{parents_at, up, down, directed_path_down}
use wll.Dag.Paths.Traced.{IsAnswer, directed_path_down-IsAnswer}
use wll.Dag.Queries.{
  all_ancestors_set, common_ancestor, audit_trail, recent_first, deep_loop, ancestors_loop,
  impact_loop,
}
use wll.Dag.Queries.Total.{queries_end}
use wll.Dag.Queries.Reached.{Answers, all_ancestors_set-Leads, common_ancestor-Answers}
use wll.Dag.Queries.Audited.{ids_of, audit_trail-Leads}
use wll.Base.Sort.{IsSorted}

abbrev to : ObjectId → ParentRef
to id = record { target = id; relation = sequential }

abbrev node : ObjectId → List ParentRef → DagNode
node id parents = record {
  id = id;
  worldline = 9;
  seq = id;
  kind = commitment;
  timestamp = Temporal.new (10 * id) 0 0;
  parents = parents;
  metadata = empty_metadata;
}

abbrev calls : List Call
calls =
    add (node 1 [])
    ∷ add (node 2 (to 1 ∷ []))
    ∷ add (node 4 [])
    ∷ add (node 3 (to 2 ∷ to 4 ∷ []))
    ∷ add (node 5 (to 4 ∷ []))
    ∷ add (node 2 [])
    ∷ []

abbrev graph : ProvenanceDag
graph = run calls new

run-IsWellFormed_example : IsWellFormed (run calls new) × (validate (run calls new) ≡ ok tt)
run-IsWellFormed_example = run-IsWellFormed calls

sound : IsWellFormed graph
sound = (run-IsWellFormed calls).0

edge_3_2 : contains (up (run calls new) 3) 2 ≡ true
unfolding run perform add_node Maps.get Maps.insert contains_key check_parents link_children
    push_child children_of parents_at
edge_3_2 = refl

run_acyclic_example : ¬ Leads (up (run calls new)) 2 3
run_acyclic_example = run_acyclic calls 3 2 edge_3_2

abbrev orphan : DagNode
orphan = node 8 (to 1 ∷ to 7 ∷ [])

add_node-IsAdded_example :
    IsAddable orphan graph
      × ((add_node orphan graph).0 ≡ ok tt)
      × IsAdded orphan graph (add_node orphan graph).1
    ⊎ (contains_key orphan.id graph.nodes ≡ true)
      × (add_node orphan graph ≡ (err (duplicate_node orphan.id), graph))
    ⊎ (p : ObjectId) × (contains_key orphan.id graph.nodes ≡ false)
      × (contains (parent_ids orphan) p ≡ true)
      × (contains_key p graph.nodes ≡ false)
      × (add_node orphan graph ≡ (err (dangling_parent orphan.id p), graph))
add_node-IsAdded_example = add_node-IsAdded orphan graph

abbrev horizon : TemporalAnchor
horizon = Temporal.new 20 0 0

checkpoint_lem_example :
    (contains_key 2 (checkpoint horizon graph).1.nodes
      ≡ (contains_key 2 graph.nodes && not (is_stale_at horizon graph.nodes 2)))
    × (refers (checkpoint horizon graph).1.nodes 2 1 ≡ (
        refers graph.nodes 2 1
        && not (is_stale_at horizon graph.nodes 2)
        && not (is_stale_at horizon graph.nodes 1)))
    × ((checkpoint horizon graph).0 + length (checkpoint horizon graph).1.nodes
        ≡ length graph.nodes)
checkpoint_lem_example = checkpoint_lem horizon graph sound 2 1

all_ancestors_set-Leads_example :
    (contains (all_ancestors_set graph 3) 1 ≡ true) ↔ Leads (up graph) 3 1
all_ancestors_set-Leads_example = all_ancestors_set-Leads graph 3 1

queries_end_example :
    ((deep_loop graph 2 (up graph) 3).queue ≡ [])
    × ((deep_loop graph 2 (down graph) 3).queue ≡ [])
    × ((ancestors_loop graph 3).queue ≡ [])
    × ((impact_loop graph 3).queue ≡ [])
queries_end_example = queries_end graph 3 2

keys_there :
    (contains_key 3 graph.nodes ≡ true)
    × (contains_key 5 graph.nodes ≡ true)
    × (get_node 4 graph ≡ some (node 4 []))
unfolding run perform add_node Maps.get Maps.insert contains_key check_parents link_children
    push_child children_of
keys_there = (refl, refl, refl)

differ : ◌≢◌ {A = ObjectId} 3 5
differ e = omega (arith, e)

common_ancestor-Answers_example : Answers graph 3 5 (node 4 []) (common_ancestor graph 3 5)
common_ancestor-Answers_example =
    common_ancestor-Answers graph 3 5 (node 4 []) sound keys_there.0 keys_there.1 differ
      keys_there.2

audit_trail-Leads_example :
    ((contains (ids_of (audit_trail graph 3).chain) 1 ≡ true) ↔ Leads (up graph) 3 1)
    × IsSorted recent_first (audit_trail graph 3).chain
audit_trail-Leads_example = audit_trail-Leads graph 3 1 sound keys_there.0

directed_path_down-IsAnswer_example : IsAnswer (down graph) 1 3 (directed_path_down graph 1 3)
directed_path_down-IsAnswer_example = directed_path_down-IsAnswer graph 1 3
