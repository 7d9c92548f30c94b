-- ===== src/Dag/Queries/Total.antt =====
-- crates/wll-dag/src/dag.rs: no query runs out of its rounds.
use wll.Base.{
  ap, ℕ, suc, ◌+◌, ◌≤◌, ◌≡◌, refl, inl, inr, true, List, [], ◌∷◌, map, some, contains, length, ltb,
  eq_nat, arith, Option-cases, Bool-cases, map_id,
}
use wll.Types.Commitment.{ObjectId}
use wll.Dag.Node.{DagNode, ParentRef, targets, sequential}
use wll.Dag.Graph.{ProvenanceDag, get_node}
use wll.Dag.Search.{visit, fresh}
use wll.Dag.Search.Ends.{unseen, unseen-visit, unseen-le-length, search_ends}
use wll.Dag.Paths.{parents_at, up, down, edge_ends, rounds, start_at}
use wll.Dag.Paths.Edges.{up-inside, down-inside, parents_at-get}
use wll.Dag.Queries.{
  Deep, id_at, at_depth, seeded, next_deep, note_deep, deep_loop, ancestors_loop, related,
  id_related, audit_loop, audit_next, impact_next, impact_loop, Related, note_entry, audit_entry,
  note_impact, no_impact,
}

pub at_depth-ids : (depth : ℕ) (ids : List ObjectId) → map id_at (at_depth depth ids) ≡ ids
at_depth-ids depth [] = refl
at_depth-ids depth (id ∷ ids) = ap (λ l. id ∷ l) (at_depth-ids depth ids)

pub contains-at_depth :
    (depth : ℕ) (ids : List ObjectId) (k : ObjectId)
    → contains (map id_at (at_depth depth ids)) k ≡ contains ids k
contains-at_depth depth ids k = ap (λ l. contains l k) (at_depth-ids depth ids)

pub related-ids : (ps : List ParentRef) → map id_related (related ps) ≡ targets ps
related-ids [] = refl
related-ids (p ∷ ps) = ap (λ l. p.target ∷ l) (related-ids ps)

-- A loop that starts from what one id leads to has rounds enough.
seeded-work :
    {X : Type 0} (id_of : X → ObjectId) (us : List ObjectId) (id : ObjectId) (xs : List X)
    → ((k : ObjectId) → contains (map id_of xs) k ≡ true → contains us k ≡ true)
    → unseen us (visit id_of (id ∷ []) xs) + length (fresh id_of (id ∷ []) xs) ≤ suc (length us)
seeded-work id_of us id xs h =
    omega (arith, unseen-visit id_of us (id ∷ []) xs h, unseen-le-length us (id ∷ []))

next_deep-inside :
    (dag : ProvenanceDag) (max_depth : ℕ) (edges : ObjectId → List ObjectId)
    → ((id k : ObjectId) → contains (edges id) k ≡ true → contains (edge_ends dag) k ≡ true)
    → (x : Deep) (k : ObjectId) → contains (map id_at (next_deep dag max_depth edges x)) k ≡ true
    → contains (edge_ends dag) k ≡ true
next_deep-inside dag max_depth edges inside (id, depth) k h =
    elim (Bool-cases (ltb max_depth depth)) [
      | inl deep ↦ ground arith
      | inr shallow ↦ elim (Option-cases (get_node id dag)) [
        | inl e ↦ ground arith
        | inr (node, e) ↦ ground (arith, contains-at_depth (suc depth) (edges id) k, inside id k)
      ]
    ]

-- What follows an entry of a query along all its edges.
pub impact_next-follows :
    (dag : ProvenanceDag) (x : Deep) (k : ObjectId)
    → contains (map id_at (impact_next dag x)) k ≡ true
    → contains (down dag x.0) k ≡ true
impact_next-follows dag (id, depth) k h =
    ground (arith, contains-at_depth (suc depth) (down dag id) k)

module _ (dag : ProvenanceDag) where
  pub audit_next-follows :
      (x : Related) (k : ObjectId)
      → contains (map id_related (audit_next dag x)) k ≡ contains (up dag x.0) k
  audit_next-follows (id, relation) k = ap (λ l. contains l k) (related-ids (parents_at dag id))

  pub up-follows :
      (id k : ObjectId) → contains (map (λ i. i) (up dag id)) k ≡ contains (up dag id) k
  up-follows id k = ap (λ l. contains l k) (map_id (up dag id))

  deep_loop_ends :
      (max_depth : ℕ) (edges : ObjectId → List ObjectId)
      → ((id k : ObjectId) → contains (edges id) k ≡ true → contains (edge_ends dag) k ≡ true)
      → (id : ObjectId) → (deep_loop dag max_depth edges id).queue ≡ []
  unfolding deep_loop
  deep_loop_ends max_depth edges inside id =
      search_ends id_at (next_deep dag max_depth edges) (note_deep dag max_depth edges)
        (edge_ends dag) (next_deep-inside dag max_depth edges inside) (rounds dag)
        (seeded id_at id (at_depth 1 (edges id)) [])
        (seeded-work id_at (edge_ends dag) id (at_depth 1 (edges id))
          (λ k h. inside id k (ground (arith, contains-at_depth 1 (edges id) k))))

  pub ancestors_loop_ends : (id : ObjectId) → (ancestors_loop dag id).queue ≡ []
  unfolding ancestors_loop
  ancestors_loop_ends id =
      search_ends (λ i. i) (up dag) (λ i new found. found) (edge_ends dag)
        (λ x k h. up-inside dag x k (ground (arith, up-follows x k))) (rounds dag) (start_at id tt)
        (omega (arith, unseen-le-length (edge_ends dag) (id ∷ [])))

  pub audit_loop_ends :
      (id : ObjectId) (start : DagNode)
      → get_node id dag ≡ some start
      → (audit_loop dag start id).queue ≡ []
  unfolding audit_loop
  audit_loop_ends id start e =
      search_ends id_related (audit_next dag) (note_entry dag) (edge_ends dag)
        (λ x k h. up-inside dag x.0 k (ground (arith, audit_next-follows x k))) (rounds dag)
        (seeded id_related id (related start.parents) (audit_entry start sequential ∷ []))
        (seeded-work id_related (edge_ends dag) id (related start.parents) (λ k h.
          up-inside dag id k (
            ground (
              arith,
              audit_next-follows (id, sequential) k,
              ap (λ ps. contains (map id_related (related ps)) k) (parents_at-get dag id start e),
            ))))

  pub impact_loop_ends : (id : ObjectId) → (impact_loop dag id).queue ≡ []
  unfolding impact_loop
  impact_loop_ends id =
      search_ends id_at (impact_next dag) (note_impact dag) (edge_ends dag)
        (λ x k h. down-inside dag x.0 k (impact_next-follows dag x k h)) (rounds dag)
        (seeded id_at id (at_depth 1 (down dag id)) no_impact)
        (seeded-work id_at (edge_ends dag) id (at_depth 1 (down dag id))
          (λ k h. down-inside dag id k (ground (arith, contains-at_depth 1 (down dag id) k))))

-- On any graph, sound or not, and from any id, the loops of `ancestors` and `descendants` to any
-- depth, of `all_ancestors_set` and of `impact_report` stop at an empty queue within as many rounds
-- as the graph has edge ends, and one more.
pub queries_end :
    (dag : ProvenanceDag) (id : ObjectId) (max_depth : ℕ)
    → ((deep_loop dag max_depth (up dag) id).queue ≡ [])
      × ((deep_loop dag max_depth (down dag) id).queue ≡ [])
      × ((ancestors_loop dag id).queue ≡ [])
      × ((impact_loop dag id).queue ≡ [])
queries_end dag id max_depth = (
  deep_loop_ends dag max_depth (up dag) (up-inside dag) id,
  deep_loop_ends dag max_depth (down dag) (down-inside dag) id,
  ancestors_loop_ends dag id,
  impact_loop_ends dag id,
)
