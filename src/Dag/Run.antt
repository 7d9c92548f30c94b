-- ===== src/Dag/Run.antt =====
-- crates/wll-dag/src/dag.rs: the graphs that calls of `add_node` and `checkpoint` make.
use wll.Base.{◌≤◌, ◌≡◌, true, List, [], ◌∷◌, contains, eq_nat, arith}
use wll.Base.Result.{ok}
use wll.Types.Temporal.{TemporalAnchor}
use wll.Types.Commitment.{ObjectId}
use wll.Dag.Node.{DagNode}
use wll.Dag.Graph.{ProvenanceDag, new, add_node, validate, checkpoint}
use wll.Dag.Graph.Edges.{IsWellFormed}
use wll.Dag.Graph.Sound.{add_node-IsWellFormed, new-IsWellFormed, validate-IsWellFormed}
use wll.Dag.Graph.Pruned.{checkpoint-IsWellFormed}
use wll.Dag.Search.Reach.{Leads, stay, go}
use wll.Dag.Paths.{up}
use wll.Dag.Paths.Edges.{contains-up}

pub data Call : Type 0 where
  add : DagNode → Call
  prune : TemporalAnchor → Call

unfoldable pub perform : Call → ProvenanceDag → ProvenanceDag
perform (add node) dag = (add_node node dag).1
perform (prune horizon) dag = (checkpoint horizon dag).1

unfoldable pub run : List Call → ProvenanceDag → ProvenanceDag
unfolding perform
run [] dag = dag
run (c ∷ cs) dag = run cs (perform c dag)

run-keeps : (cs : List Call) (dag : ProvenanceDag) → IsWellFormed dag → IsWellFormed (run cs dag)
unfolding run perform
run-keeps [] dag w = w
run-keeps (add node ∷ cs) dag w =
    run-keeps cs (add_node node dag).1 (add_node-IsWellFormed node dag w)
run-keeps (prune horizon ∷ cs) dag w =
    run-keeps cs (checkpoint horizon dag).1 (checkpoint-IsWellFormed horizon dag w)

-- After any calls of `add_node` and `checkpoint` on an empty graph, whether they succeed or fail,
-- the nodes stand under their own ids, all parents are there, the child index is the converse of
-- the parent references, the roots are exactly the nodes without parents, the references descend
-- along a rank, and `validate` passes.
pub run-IsWellFormed :
    (cs : List Call) → IsWellFormed (run cs new) × (validate (run cs new) ≡ ok tt)
run-IsWellFormed cs =
    let w = run-keeps cs new new-IsWellFormed in (w, validate-IsWellFormed (run cs new) w)

Leads-falls :
    (dag : ProvenanceDag) (w : IsWellFormed dag) {a b : ObjectId}
    → Leads (up dag) a b
    → w.rank b ≤ w.rank a
Leads-falls dag w stay = omega arith
Leads-falls dag w (go {b} {c} walk edge) =
    omega (arith, Leads-falls dag w walk, w.falls b c (ground (arith, contains-up dag b c, edge)))

-- After any calls on an empty graph there is no cycle: from a parent of a node no walk along parents
-- leads back to the node.
pub run_acyclic :
    (cs : List Call) (id parent : ObjectId)
    → contains (up (run cs new) id) parent ≡ true
    → ¬ Leads (up (run cs new)) parent id
run_acyclic cs id parent edge walk =
    let w = (run-IsWellFormed cs).0 in
    omega (
      arith,
      Leads-falls (run cs new) w walk,
      w.falls id parent (ground (arith, contains-up (run cs new) id parent, edge)),
    )
