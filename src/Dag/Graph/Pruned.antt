-- ===== src/Dag/Graph/Pruned.antt =====
-- crates/wll-dag/src/dag.rs: what `checkpoint` leaves of the graph.
use wll.Base.{
  sym, ◌+◌, ◌≡◌, inl, inr, not, ◌&&◌, ◌||◌, List, none, some, contains, length, eq_nat,
  if◌then◌else◌, arith, Option-cases,
}
use wll.Base.Maps
use wll.Base.Maps.{
  HashMap, contains_key, get-insert, get-remove, contains_key-get, insert-Distinct, remove-Distinct,
  keys, length-remove, length-insert, contains_key-remove,
}
use wll.Types.Temporal.{TemporalAnchor}
use wll.Types.Commitment.{ObjectId}
use wll.Dag.Node.{DagNode, is_root}
use wll.Dag.Graph.{
  ProvenanceDag, children_of, stale, retain_parents, trim_node, is_orphaned, trim_all, drop_all,
  checkpoint,
}
use wll.Dag.Graph.Edges.{IsWellFormed, refers, is_root_at}
use wll.Dag.Graph.Trimmed.{
  IsTrimmed, length-remove_all, length-trim_all, stale-NoDup, trim_all-IsTrimmed, trimmed,
}
use wll.Dag.Graph.Retained.{
  children_of-remove_all, children_of-retain_children, contains-keys, contains-retain_ids,
  contains-retain_parents, contains-stale, get-remove_all, is_stale_at, remove_all-Distinct,
  retain_parents-nil,
}

is_root-trim_node :
    (pruned : List ObjectId) (node : DagNode)
    → is_root (trim_node pruned node) ≡ (is_root node || is_orphaned pruned node)
unfolding trim_node is_orphaned retain_parents
is_root-trim_node pruned node = ground (arith, retain_parents-nil pruned node.parents)

module _ (horizon : TemporalAnchor) (dag : ProvenanceDag) (w : IsWellFormed dag) where
  abbrev pruned : List ObjectId
  pruned = stale horizon dag.nodes

  abbrev kept : ProvenanceDag
  kept = drop_all pruned dag

  abbrev left : ProvenanceDag
  left = (checkpoint horizon dag).1

  last : IsTrimmed pruned (keys kept.nodes) kept (trim_all pruned (keys kept.nodes) kept)
  last = trim_all-IsTrimmed pruned (keys kept.nodes) kept

  get-left :
      (k : ObjectId)
      → Maps.get k left.nodes
        ≡ (if contains pruned k then none else trimmed pruned (Maps.get k dag.nodes))
  unfolding checkpoint drop_all
  get-left k = ground (
    arith,
    last.nodes k,
    get-remove_all pruned dag.nodes k,
    contains-keys kept.nodes k,
    contains_key-get k kept.nodes,
  )

  refers-left :
      (c p : ObjectId)
      → refers left.nodes c p
        ≡ (refers dag.nodes c p && not (contains pruned c) && not (contains pruned p))
  unfolding trim_node
  refers-left c p = elim (Option-cases (Maps.get c dag.nodes)) [
    | inl e ↦ ground (arith, get-left c, e)
    | inr (node, e) ↦ ground (arith, get-left c, e, contains-retain_parents pruned node.parents p)
  ]

  roots-left : (k : ObjectId) → contains left.roots k ≡ is_root_at left.nodes k
  unfolding checkpoint drop_all
  roots-left k = elim (Option-cases (Maps.get k dag.nodes)) [
    | inl e ↦ ground (
      arith,
      e,
      last.roots k,
      get-left k,
      get-remove_all pruned dag.nodes k,
      contains-keys kept.nodes k,
      contains_key-get k kept.nodes,
      contains-retain_ids pruned dag.roots k,
      w.rooted k,
    )
    | inr (node, e) ↦ ground (
      arith,
      e,
      last.roots k,
      get-left k,
      get-remove_all pruned dag.nodes k,
      contains-keys kept.nodes k,
      contains_key-get k kept.nodes,
      contains-retain_ids pruned dag.roots k,
      w.rooted k,
      is_root-trim_node pruned node,
    )
  ]

  indexed-left : (p c : ObjectId) → contains (children_of p left.children) c ≡ refers left.nodes c p
  unfolding checkpoint drop_all
  indexed-left p c =
      rw (last.children, children_of-retain_children pruned p kept.children)
        (ground (
          arith,
          contains-retain_ids pruned (children_of p kept.children) c,
          children_of-remove_all pruned p dag.children,
          refers-left c p,
          w.indexed p c,
        ))

  count-left : (checkpoint horizon dag).0 + length left.nodes ≡ length dag.nodes
  unfolding checkpoint drop_all
  count-left = omega (
    arith,
    length-trim_all pruned (keys kept.nodes) kept,
    length-remove_all pruned dag.nodes (stale-NoDup horizon dag.nodes w.distinct) w.distinct (λ k h.
        ground
          (arith, contains-stale horizon dag.nodes k w.distinct, contains_key-get k dag.nodes, h)),
  )

  left-keyed : (k : ObjectId) (n : DagNode) → Maps.get k left.nodes ≡ some n → n.id ≡ k
  unfolding trim_node
  left-keyed k n h = elim (Option-cases (Maps.get k dag.nodes)) [
    | inl e ↦ ground (arith, get-left k, e)
    | inr (node, e) ↦ ground (arith, get-left k, e, w.keyed k node e)
  ]

  left-Distinct : Maps.Distinct left.nodes
  unfolding checkpoint drop_all
  left-Distinct = last.distinct (remove_all-Distinct pruned dag.nodes w.distinct)

  pub checkpoint-IsWellFormed : IsWellFormed (checkpoint horizon dag).1
  checkpoint-IsWellFormed = record {
    keyed = left-keyed;
    distinct = left-Distinct;
    present = λ c p h. ground (
      arith,
      refers-left c p,
      w.present c p,
      contains_key-get p dag.nodes,
      contains_key-get p left.nodes,
      get-left p,
    );
    indexed = indexed-left;
    rooted = roots-left;
    rank = w.rank;
    falls = λ c p h. ground (arith, refers-left c p, w.falls c p);
  }

  -- In a well-formed graph `checkpoint` keeps exactly the nodes that do not lie before the horizon and
  -- the references between them, and gives the number of the nodes that are gone.
  pub checkpoint_lem :
      (c p : ObjectId)
      → (contains_key c (checkpoint horizon dag).1.nodes
          ≡ (contains_key c dag.nodes && not (is_stale_at horizon dag.nodes c)))
        × (refers (checkpoint horizon dag).1.nodes c p ≡ (
            refers dag.nodes c p
            && not (is_stale_at horizon dag.nodes c)
            && not (is_stale_at horizon dag.nodes p)))
        × ((checkpoint horizon dag).0 + length (checkpoint horizon dag).1.nodes ≡ length dag.nodes)
  checkpoint_lem c p =
      let stale_c = contains-stale horizon dag.nodes c w.distinct in
      let stale_p = contains-stale horizon dag.nodes p w.distinct in
      (
        ground (
          arith,
          contains_key-get c dag.nodes,
          contains_key-get c left.nodes,
          get-left c,
          stale_c,
        ),
        rw (sym stale_c, sym stale_p) (refers-left c p),
        count-left,
      )
