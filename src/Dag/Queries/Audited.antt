-- ===== src/Dag/Queries/Audited.antt =====
-- crates/wll-dag/src/dag.rs: the audit trail names exactly the ancestors, the most recent first.
use wll.Base.{
  ap, ◌≡◌, refl, sym, ◌∙◌, inl, inr, ◌↔◌, true, false, ◌||◌, List, [], ◌∷◌, map, some, contains,
  contains-map-append, ◌==◌, eq_nat, arith, Option-cases, Bool-cases, nat_eq_iff,
}
use wll.Base.Maps.{contains_key, contains_key-get}
use wll.Base.Sort.{sort_by, sort_by-IsSorted, contains-sort_by, IsSorted}
use wll.Types.Temporal.{is_after}
use wll.Types.Temporal.Order.{is_after_irrefl, is_after_trans}
use wll.Types.Commitment.{ObjectId}
use wll.Dag.Node.{DagNode, sequential, AuditEntry}
use wll.Dag.Graph.{ProvenanceDag, get_node}
use wll.Dag.Graph.Edges.{IsWellFormed}
use wll.Dag.Search.{Loop, visit, fresh, round, search}
use wll.Dag.Search.Ends.{contains-visit, contains-fresh}
use wll.Dag.Search.Reach.{
  Leads, stay, go, IsSearching, search_rule, search_reaches, seed-IsSearching, round-IsSearching,
}
use wll.Dag.Paths.{parents_at, up, rounds}
use wll.Dag.Paths.Edges.{contains-up, parents_at-get}
use wll.Dag.Queries.{
  Related, id_related, related, audit_entry, audit_loop, audit_next, note_entry, audit_trail,
  recent_first,
}
use wll.Dag.Queries.Total.{audit_loop_ends, audit_next-follows}

abbrev pub ids_of : List AuditEntry → List ObjectId
ids_of = map (λ e. e.node)

-- In a well-formed graph a walk from a node stays among the nodes.
pub Leads-contains_key :
    (dag : ProvenanceDag) (id : ObjectId)
    → IsWellFormed dag
    → contains_key id dag.nodes ≡ true
    → {k : ObjectId} → Leads (up dag) id k
    → contains_key k dag.nodes ≡ true
Leads-contains_key dag id w h stay = h
Leads-contains_key dag id w h (go {b} {c} walk edge) =
    w.present b c (ground (arith, contains-up dag b c, edge))

module _ (dag : ProvenanceDag) (id : ObjectId) (w : IsWellFormed dag)
    (here : contains_key id dag.nodes ≡ true) where
  abbrev Round : Type 0
  Round = Loop Related (List AuditEntry)

  abbrev Searching : Round → Type 0
  Searching =
      IsSearching id_related (audit_next dag) (note_entry dag) (up dag) (audit_next-follows dag) id

  -- What was visited is in the chain or still waits.
  abbrev IsNoted : Round → Type 0
  IsNoted s =
      (k : ObjectId)
      → contains s.visited k ≡ (contains (ids_of s.found) k || contains (map id_related s.queue) k)

  ids_of-note_entry :
      (x : Related) (new : List Related) (chain : List AuditEntry) (node : DagNode) (k : ObjectId)
      → get_node x.0 dag ≡ some node
      → contains (ids_of (note_entry dag x new chain)) k ≡ (contains (ids_of chain) k || x.0 == k)
  ids_of-note_entry (at, relation) new chain node k e = ground (
    arith,
    e,
    w.keyed at node e,
    contains-map-append (λ (a : AuditEntry). a.node) chain (audit_entry node relation ∷ []) k,
  )

  round-IsNoted :
      (x : Related) (rest : List Related) (s : Round)
      → s.queue ≡ x ∷ rest
      → Searching s
      → IsNoted s
      → IsNoted (round id_related (audit_next dag) (note_entry dag) x rest s)
  unfolding round
  round-IsNoted x rest s e h n k =
      let at_head : contains (map id_related s.queue) x.0 ≡ true =
        rw e (ground (arith, nat_eq_iff x.0 x.0)) in
      let there = Leads-contains_key dag id w here (h.sound x.0 (h.queued x.0 at_head)) in
      elim (Option-cases (get_node x.0 dag)) [
        | inl gone ↦ ground (arith, there, contains_key-get x.0 dag.nodes, gone)
        | inr (node, found) ↦ ground (
          arith,
          n k,
          ap (λ q. contains (map id_related q) k) e,
          contains-visit id_related s.visited (audit_next dag x) k,
          contains-fresh id_related s.visited (audit_next dag x) k,
          contains-map-append id_related rest (fresh id_related s.visited (audit_next dag x)) k,
          ids_of-note_entry x (fresh id_related s.visited (audit_next dag x)) s.found node k found,
        )
      ]

  abbrev first : Round
  first = record { visited = id ∷ []; queue = (id, sequential) ∷ []; found = [] }

  -- The trail starts as if the node itself had left the queue.
  audit_loop-round :
      (start : DagNode)
      → get_node id dag ≡ some start
      → audit_loop dag start id
        ≡ search id_related
            (audit_next dag)
            (note_entry dag)
            (rounds dag)
            (round id_related (audit_next dag) (note_entry dag) (id, sequential) [] first)
  unfolding audit_loop round
  audit_loop-round start e =
      let ps = sym (parents_at-get dag id start e) in
      let new = fresh id_related (id ∷ []) (related (parents_at dag id)) in
      let entry : audit_entry start sequential ∷ [] ≡ note_entry dag (id, sequential) new [] =
        ground (arith, e) in
      λ i. search id_related (audit_next dag) (note_entry dag) (rounds dag) record {
        visited = visit id_related (id ∷ []) (related (ps i));
        queue = fresh id_related (id ∷ []) (related (ps i));
        found = entry i;
      }

  chain-Leads :
      (start : DagNode) (k : ObjectId)
      → get_node id dag ≡ some start
      → (contains (ids_of (audit_loop dag start id).found) k ≡ true) ↔ Leads (up dag) id k
  chain-Leads start k e =
      let seed =
        seed-IsSearching id_related (audit_next dag) (note_entry dag) (up dag)
          (audit_next-follows dag) id (id, sequential) [] refl in
      let second =
        round-IsSearching id_related (audit_next dag) (note_entry dag) (up dag)
          (audit_next-follows dag) id (id, sequential) [] first refl seed in
      let noted = round-IsNoted (id, sequential) [] first refl seed (λ j. ground arith) in
      let same = audit_loop-round start e in
      let ended = audit_loop_ends dag id start e in
      let ended' = rw same at ended in
      let last =
        search_rule id_related (audit_next dag) (note_entry dag) (λ s. Searching s × IsNoted s)
          (λ x rest s q h. (
            round-IsSearching id_related (audit_next dag) (note_entry dag) (up dag)
                (audit_next-follows dag) id x rest s q h.0,
            round-IsNoted x rest s q h.0 h.1,
          ))
          (rounds dag)
          (round id_related (audit_next dag) (note_entry dag) (id, sequential) [] first)
          (second, noted) in
      let reaches =
        search_reaches id_related (audit_next dag) (note_entry dag) (up dag)
          (audit_next-follows dag) id (rounds dag)
          (round id_related (audit_next dag) (note_entry dag) (id, sequential) [] first) second
          ended' k in
      let waits = ap (λ q. contains (map id_related q) k) ended' in
      rw same (
        λ h. reaches.0 (ground (arith, last.1 k, h, waits)),
        λ l. ground (arith, last.1 k, reaches.1 l, waits),
      )

recent_first_total : (a b : AuditEntry) → recent_first a b ≡ false → recent_first b a ≡ true
recent_first_total a b h = elim (Bool-cases (is_after a.timestamp b.timestamp)) [
  | inr e ↦ ground (arith, e)
  | inl e ↦
      let back : is_after b.timestamp a.timestamp ≡ true = ground (arith, h) in
      ground (
        arith,
        is_after_trans a.timestamp b.timestamp a.timestamp e back,
        is_after_irrefl a.timestamp,
      )
]

chain-sorted :
    (dag : ProvenanceDag) (id : ObjectId) (start : DagNode)
    → get_node id dag ≡ some start
    → (audit_trail dag id).chain ≡ sort_by recent_first (audit_loop dag start id).found
unfolding audit_trail
chain-sorted dag id start e = ground (arith, e)

pub audit_trail-Leads :
    (dag : ProvenanceDag) (id k : ObjectId)
    → IsWellFormed dag
    → contains_key id dag.nodes ≡ true
    → ((contains (ids_of (audit_trail dag id).chain) k ≡ true) ↔ Leads (up dag) id k)
      × IsSorted recent_first (audit_trail dag id).chain
audit_trail-Leads dag id k w here = elim (Option-cases (get_node id dag)) [
  | inl gone ↦ ground (arith, here, contains_key-get id dag.nodes, gone)
  | inr (start, e) ↦
      let sorted =
        contains-sort_by recent_first (λ (a : AuditEntry). a.node) (audit_loop dag start id).found
          k in
      let chain = chain-Leads dag id w here start k e in
      rw (chain-sorted dag id start e) (
        (λ h. chain.0 (sym sorted ∙ h), λ l. sorted ∙ chain.1 l),
        sort_by-IsSorted recent_first recent_first_total (audit_loop dag start id).found,
      )
]
