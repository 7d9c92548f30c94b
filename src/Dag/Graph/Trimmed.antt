-- ===== src/Dag/Graph/Trimmed.antt =====
-- crates/wll-dag/src/dag.rs: the steps of `checkpoint`.
use wll.Base.{
  ap, ◌+◌, ◌≡◌, refl, ◌∙◌, inl, inr, Bool, true, false, ◌&&◌, ◌||◌, List, [], ◌∷◌, Option, none,
  some, contains, contains-append, length, ◌==◌, eq_nat, if◌then◌else◌, arith, Bool-cases,
  Option-cases, nat_eq_iff,
}
use wll.Base.Maps
use wll.Base.Maps.{
  HashMap, contains_key, get-insert, get-remove, contains_key-get, insert-Distinct, remove-Distinct,
  keys, length-remove, length-insert, contains_key-remove,
}
use wll.Types.Temporal.{TemporalAnchor, is_before}
use wll.Types.Commitment.{ObjectId}
use wll.Dag.Node.{DagNode}
use wll.Dag.Graph.{ProvenanceDag, stale, remove_all, trim_node, is_orphaned, trim_at, trim_all}
use wll.Dag.Graph.Retained.{contains-stale, retain_parents_idem}

abbrev pub trimmed : List ObjectId → Option DagNode → Option DagNode
trimmed pruned none = none
trimmed pruned (some node) = some (trim_node pruned node)

abbrev pub orphaned : List ObjectId → Option DagNode → Bool
orphaned pruned none = false
orphaned pruned (some node) = is_orphaned pruned node

-- What a run over the remaining ids makes of each part of the graph.
pub record IsTrimmed (pruned ids : List ObjectId) (dag dag' : ProvenanceDag) : Type 0 where
  pub nodes :
      (k : ObjectId)
      → Maps.get k dag'.nodes
        ≡ (if contains ids k then trimmed pruned (Maps.get k dag.nodes) else Maps.get k dag.nodes)
  pub roots :
      (k : ObjectId)
      → contains dag'.roots k
        ≡ (contains dag.roots k || contains ids k && orphaned pruned (Maps.get k dag.nodes))
  pub children : dag'.children ≡ dag.children
  pub distinct : Maps.Distinct dag.nodes → Maps.Distinct dag'.nodes

pub trimmed_idem :
    (pruned : List ObjectId) (o : Option DagNode)
    → (trimmed pruned (trimmed pruned o) ≡ trimmed pruned o)
      × (orphaned pruned (trimmed pruned o) ≡ false)
unfolding trim_node is_orphaned
trimmed_idem pruned none = (refl, refl)
trimmed_idem pruned (some node) = (
  rw (retain_parents_idem pruned node.parents) refl,
  rw (retain_parents_idem pruned node.parents) (ground arith),
)

pub trim_at-IsTrimmed :
    (pruned : List ObjectId) (id : ObjectId) (dag : ProvenanceDag)
    → IsTrimmed pruned (id ∷ []) dag (trim_at pruned id dag)
unfolding trim_at
trim_at-IsTrimmed pruned id dag = elim (Option-cases (Maps.get id dag.nodes)) [
  | inl e ↦
      rw (trim_at, e)
        record {
          nodes = λ k. ground (arith, e, nat_eq_iff id k);
          roots = λ k. ground (arith, e, nat_eq_iff id k);
          children = refl;
          distinct = λ d. d;
        }
  | inr (node, e) ↦
      rw (trim_at, e)
        record {
          nodes = λ k.
              ground (arith, e, nat_eq_iff id k, get-insert id k (trim_node pruned node) dag.nodes);
          roots = λ k. ground (arith, e, nat_eq_iff id k, contains-append dag.roots (id ∷ []) k);
          children = refl;
          distinct = λ d. insert-Distinct id (trim_node pruned node) dag.nodes d;
        }
]

pub trim_all-IsTrimmed :
    (pruned ids : List ObjectId) (dag : ProvenanceDag)
    → IsTrimmed pruned ids dag (trim_all pruned ids dag)
unfolding trim_all
trim_all-IsTrimmed pruned [] dag = record {
  nodes = λ k. refl;
  roots = λ k. ground arith;
  children = refl;
  distinct = λ d. d;
}
trim_all-IsTrimmed pruned (id ∷ ids) dag =
    let one = trim_at-IsTrimmed pruned id dag in
    let rest = trim_all-IsTrimmed pruned ids (trim_at pruned id dag) in
    record {
      nodes = λ k.
          ground (arith, one.nodes k, rest.nodes k, trimmed_idem pruned (Maps.get k dag.nodes));
      roots = λ k. ground (
        arith,
        one.roots k,
        rest.roots k,
        one.nodes k,
        trimmed_idem pruned (Maps.get k dag.nodes),
      );
      children = rest.children ∙ one.children;
      distinct = λ d. rest.distinct (one.distinct d);
    }

abbrev pub NoDup : List ObjectId → Type 0
NoDup [] = Unit {0}
NoDup (id ∷ ids) = (contains ids id ≡ false) × NoDup ids

pub stale-NoDup :
    (horizon : TemporalAnchor) (nodes : HashMap ObjectId DagNode)
    → Maps.Distinct nodes
    → NoDup (stale horizon nodes)
unfolding stale
stale-NoDup horizon [] d = tt
stale-NoDup horizon ((k, n) ∷ nodes) d = elim (Bool-cases (is_before n.timestamp horizon)) [
  | inr e ↦ rw (stale, e) (stale-NoDup horizon nodes d.1)
  | inl e ↦
      rw (stale, e)
        (
          ground (arith, contains-stale horizon nodes k d.1, contains_key-get k nodes, d.0),
          stale-NoDup horizon nodes d.1,
        )
]

pub length-remove_all :
    {V : Type 0} (ids : List ObjectId) (m : HashMap ObjectId V)
    → NoDup ids
    → Maps.Distinct m
    → ((k : ObjectId) → contains ids k ≡ true → contains_key k m ≡ true)
    → length ids + length (remove_all ids m) ≡ length m
unfolding remove_all
length-remove_all [] m u d h = omega arith
length-remove_all (id ∷ ids) m u d h = ground (
  arith,
  length-remove id m d,
  h id (ground (arith, nat_eq_iff id id)),
  length-remove_all ids (Maps.remove id m) u.1 (remove-Distinct id m d) (λ k at.
      elim (Bool-cases (id == k)) [
        | inl same ↦ ground (arith, ap (contains ids) ((nat_eq_iff id k).0 same), u.0, at)
        | inr other ↦ ground (arith, contains_key-remove id k m, h k, at, other)
      ]),
)

pub length-trim_all :
    (pruned ids : List ObjectId) (dag : ProvenanceDag)
    → length (trim_all pruned ids dag).nodes ≡ length dag.nodes
unfolding trim_all trim_at
length-trim_all pruned [] dag = refl
length-trim_all pruned (id ∷ ids) dag =
    length-trim_all pruned ids (trim_at pruned id dag)
    ∙ elim (Option-cases (Maps.get id dag.nodes)) [
      | inl e ↦ rw (trim_at, e) refl
      | inr (node, e) ↦
          rw (trim_at, e)
            (ground (
              arith,
              length-insert id (trim_node pruned node) dag.nodes,
              contains_key-get id dag.nodes,
              e,
            ))
    ]
