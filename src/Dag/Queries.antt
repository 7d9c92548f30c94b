-- ===== src/Dag/Queries.antt =====
-- crates/wll-dag/src/dag.rs: ancestors, descendants, the common ancestor, audit and impact.
pub mod Total
pub mod Latest
pub mod Reached
pub mod Audited
use Prim.Native.Nat.{Ordering}
use wll.Base.{
  ℕ, zero, suc, ◌+◌, max, Bool, true, false, not, List, [], ◌∷◌, ◌++◌, map, foldl, Option, none,
  some, contains, is_empty, ◌==◌, eq_nat, if◌then◌else◌, ltb, leb,
}
use wll.Base.Maps
use wll.Base.Maps.{contains_key}
use wll.Base.Sort.{sort_by}
use wll.Types.Temporal.{TemporalAnchor, is_after}
use wll.Types.Commitment.{ObjectId, WorldlineId}
use wll.Dag.Node.{
  DagNode, ParentRef, CausalRelation, sequential, AuditEntry, AuditTrail, new_trail, ImpactReport,
  new_report, summary,
}
use wll.Dag.Graph.{ProvenanceDag, get_node, resolve}
use wll.Dag.Search.{Loop, add, visit, fresh, search}
use wll.Dag.Paths.{parents_at, up, down, rounds, directed_path_down, start_at}

-- An id with its distance from the start.
abbrev pub Deep : Type 0
Deep = ObjectId × ℕ

abbrev pub id_at : Deep → ObjectId
id_at x = x.0

-- the id visited, and what it leads to queued
abbrev pub seeded : {X A : Type 0} → (X → ObjectId) → ObjectId → List X → A → Loop X A
seeded id_of id xs found = record {
  visited = visit id_of (id ∷ []) xs;
  queue = fresh id_of (id ∷ []) xs;
  found = found;
}

abbrev pub at_depth : ℕ → List ObjectId → List Deep
at_depth depth = map (λ id. (id, depth))

module _ (dag : ProvenanceDag) (max_depth : ℕ) (edges : ObjectId → List ObjectId) where
  abbrev pub next_deep : Deep → List Deep
  next_deep (id, depth) = if ltb max_depth depth then [] else elim (get_node id dag) [
    | none ↦ []
    | some node ↦ if ltb depth max_depth then at_depth (suc depth) (edges id) else []
  ]

  abbrev pub note_deep : Deep → List Deep → List DagNode → List DagNode
  note_deep (id, depth) new result =
      if ltb max_depth depth
      then result
      else elim (get_node id dag) [ none ↦ result | some node ↦ result ++ node ∷ [] ]

  unfoldable pub deep_loop : ObjectId → Loop Deep (List DagNode)
  deep_loop id =
      search id_at next_deep note_deep (rounds dag) (seeded id_at id (at_depth 1 (edges id)) [])

unfoldable pub ancestors : ProvenanceDag → ObjectId → ℕ → List DagNode
unfolding deep_loop
ancestors dag id max_depth =
    if contains_key id dag.nodes then (deep_loop dag max_depth (up dag) id).found else []

unfoldable pub descendants : ProvenanceDag → ObjectId → ℕ → List DagNode
unfolding deep_loop
descendants dag id max_depth =
    if contains_key id dag.nodes then (deep_loop dag max_depth (down dag) id).found else []

unfoldable pub ancestors_loop : ProvenanceDag → ObjectId → Loop ObjectId (Unit {0})
ancestors_loop dag id =
    search (λ i. i) (up dag) (λ i new found. found) (rounds dag) (start_at id tt)

unfoldable pub all_ancestors_set : ProvenanceDag → ObjectId → List ObjectId
unfolding ancestors_loop
all_ancestors_set dag id = (ancestors_loop dag id).visited

-- `HashSet::intersection`
unfoldable pub intersection : List ObjectId → List ObjectId → List ObjectId
intersection [] b = []
intersection (id ∷ a) b = let rest = intersection a b in if contains b id then id ∷ rest else rest

-- `max_by_key` takes the last of equal ones.
unfoldable pub latest : List DagNode → Option DagNode
latest [] = none
latest (n ∷ ns) = some (foldl (λ x y. if is_after x.timestamp y.timestamp then x else y) n ns)

unfoldable pub common_ancestor : ProvenanceDag → ObjectId → ObjectId → Option DagNode
common_ancestor dag a b =
    if not (contains_key a dag.nodes)
    then none
    else if not (contains_key b dag.nodes)
    then none
    else if a == b
    then get_node a dag
    else latest (resolve dag (intersection (all_ancestors_set dag a) (all_ancestors_set dag b)))

-- An id with the relation through which it was met.
abbrev pub Related : Type 0
Related = ObjectId × CausalRelation

abbrev pub id_related : Related → ObjectId
id_related x = x.0

abbrev pub related : List ParentRef → List Related
related = map (λ p. (p.target, p.relation))

abbrev pub audit_entry : DagNode → CausalRelation → AuditEntry
audit_entry node relation = record {
  node = node.id;
  relation = relation;
  worldline = node.worldline;
  timestamp = node.timestamp;
  summary_of = summary node;
}

abbrev pub note_entry : ProvenanceDag → Related → List Related → List AuditEntry → List AuditEntry
note_entry dag (id, relation) new chain = elim (get_node id dag) [
  | none ↦ chain
  | some node ↦ chain ++ audit_entry node relation ∷ []
]

abbrev pub audit_next : ProvenanceDag → Related → List Related
audit_next dag (id, relation) = related (parents_at dag id)

unfoldable pub audit_loop : ProvenanceDag → DagNode → ObjectId → Loop Related (List AuditEntry)
audit_loop dag start id =
    search id_related (audit_next dag) (note_entry dag) (rounds dag)
      (seeded id_related id (related start.parents) (audit_entry start sequential ∷ []))

-- `b.timestamp.cmp(&a.timestamp)` is not greater
abbrev pub recent_first : AuditEntry → AuditEntry → Bool
recent_first a b = not (is_after b.timestamp a.timestamp)

unfoldable pub audit_trail : ProvenanceDag → ObjectId → AuditTrail
unfolding audit_loop
audit_trail dag id = elim (get_node id dag) [
  | none ↦ new_trail id
  | some start ↦ record (new_trail id) {
    chain = sort_by recent_first (audit_loop dag start id).found;
  }
]

-- The counters of `impact_report`; the worldlines are a set.
pub record Impact : Type 0 where
  pub receipts : ℕ
  pub max_depth : ℕ
  pub worldlines : List WorldlineId
  pub leaf_ids : List ObjectId

abbrev pub note_impact : ProvenanceDag → Deep → List Deep → Impact → Impact
note_impact dag (id, depth) new i = elim (get_node id dag) [
  | none ↦ i
  | some node ↦ record {
    receipts = i.receipts + 1;
    max_depth = if ltb i.max_depth depth then depth else i.max_depth;
    worldlines = add node.worldline i.worldlines;
    leaf_ids = if is_empty new then i.leaf_ids ++ id ∷ [] else i.leaf_ids;
  }
]

abbrev pub impact_next : ProvenanceDag → Deep → List Deep
impact_next dag (id, depth) = elim (get_node id dag) [
  | none ↦ []
  | some node ↦ at_depth (suc depth) (down dag id)
]

abbrev pub no_impact : Impact
no_impact = record { receipts = 0; max_depth = 0; worldlines = []; leaf_ids = [] }

unfoldable pub impact_loop : ProvenanceDag → ObjectId → Loop Deep Impact
impact_loop dag id =
    search id_at (impact_next dag) (note_impact dag) (rounds dag)
      (seeded id_at id (at_depth 1 (down dag id)) no_impact)

-- the paths that are found
unfoldable pub paths_to : ProvenanceDag → ObjectId → List ObjectId → List (List ObjectId)
paths_to dag id [] = []
paths_to dag id (leaf ∷ leaves) =
    let rest = paths_to dag id leaves in
    elim (directed_path_down dag id leaf) [ none ↦ rest | some path ↦ path ∷ rest ]

unfoldable pub impact_report : ProvenanceDag → ObjectId → ImpactReport
unfolding impact_loop
impact_report dag id =
    if not (contains_key id dag.nodes)
    then new_report id
    else let i = (impact_loop dag id).found in
      record {
        origin = id;
        affected_worldlines = sort_by leb i.worldlines;
        downstream_receipts = i.receipts;
        cascade_depth = i.max_depth;
        critical_paths = paths_to dag id i.leaf_ids;
      }
