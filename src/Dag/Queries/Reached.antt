-- ===== src/Dag/Queries/Reached.antt =====
-- crates/wll-dag/src/dag.rs: the ancestors that are found, the common one, and the audit trail.
use wll.Base.{
  ap, ◌≡◌, ◌≢◌, refl, ◌⊎◌, inl, inr, ◌↔◌, true, false, ◌&&◌, List, [], ◌∷◌, foldl, Option, none,
  some, contains, ◌==◌, eq_nat, arith, Bool-cases, List-cases, nat_eq_iff,
}
use wll.Base.Maps.{contains_key}
use wll.Types.Temporal.{is_after}
use wll.Types.Commitment.{ObjectId}
use wll.Dag.Node.{DagNode}
use wll.Dag.Graph.{ProvenanceDag, get_node, resolve}
use wll.Dag.Graph.Edges.{IsWellFormed}
use wll.Dag.Search.Reach.{Leads, search_reaches, seed-IsSearching}
use wll.Dag.Paths.{up, rounds, start_at}
use wll.Dag.Queries.{all_ancestors_set, ancestors_loop, intersection, latest, common_ancestor}
use wll.Dag.Queries.Total.{up-follows, ancestors_loop_ends}
use wll.Dag.Queries.Latest.{resolve-IsListed, IsListed-resolve, later, foldl-IsLatest}

-- The set of all ancestors holds exactly the ids that a walk along parents leads to, on any graph.
pub all_ancestors_set-Leads :
    (dag : ProvenanceDag) (id k : ObjectId)
    → (contains (all_ancestors_set dag id) k ≡ true) ↔ Leads (up dag) id k
unfolding all_ancestors_set ancestors_loop
all_ancestors_set-Leads dag id k =
    search_reaches (λ i. i) (up dag) (λ i new found. found) (up dag) (up-follows dag) id
      (rounds dag) (start_at id tt)
      (seed-IsSearching (λ i. i) (up dag) (λ i new found. found) (up dag) (up-follows dag) id id tt
        refl)
      (ancestors_loop_ends dag id) k

contains-intersection :
    (a b : List ObjectId) (k : ObjectId)
    → contains (intersection a b) k ≡ (contains a k && contains b k)
unfolding intersection
contains-intersection [] b k = refl
contains-intersection (id ∷ a) b k = elim (Bool-cases (id == k)) [
  | inl e ↦ ground (arith, contains-intersection a b k, ap (contains b) ((nat_eq_iff id k).0 e))
  | inr e ↦ ground (arith, contains-intersection a b k)
]

-- A common ancestor, possibly one of the two.
abbrev pub IsCommon : ProvenanceDag → ObjectId → ObjectId → ObjectId → Type 0
IsCommon dag a b k = Leads (up dag) a k × Leads (up dag) b k

module _ (dag : ProvenanceDag) (a b : ObjectId) where
  abbrev shared : List ObjectId
  shared = intersection (all_ancestors_set dag a) (all_ancestors_set dag b)

  shared-IsCommon : (k : ObjectId) → (contains shared k ≡ true) ↔ IsCommon dag a b k
  shared-IsCommon k =
      let of_a = all_ancestors_set-Leads dag a k in
      let of_b = all_ancestors_set-Leads dag b k in
      let both = contains-intersection (all_ancestors_set dag a) (all_ancestors_set dag b) k in
      (
        λ h. (of_a.0 (ground (arith, both, h)), of_b.0 (ground (arith, both, h))),
        λ w. ground (arith, both, of_a.1 w.0, of_b.1 w.1),
      )

  -- What the answer says about a node `n` of the graph.
  abbrev pub Answers : DagNode → Option DagNode → Type 0
  Answers n none = ¬ IsCommon dag a b n.id
  Answers n (some best) =
      (get_node best.id dag ≡ some best)
      × IsCommon dag a b best.id
      × ((is_after n.timestamp best.timestamp ≡ false) ⊎ ¬ IsCommon dag a b n.id)

  -- In a well-formed graph with two different nodes, no answer means that the given node is no
  -- common ancestor; an answer is a node of the graph and a common ancestor, and the given node is
  -- not after it or is no common ancestor.
  pub common_ancestor-Answers :
      (n : DagNode)
      → IsWellFormed dag
      → contains_key a dag.nodes ≡ true
      → contains_key b dag.nodes ≡ true
      → a ≢ b
      → get_node n.id dag ≡ some n
      → Answers n (common_ancestor dag a b)
  unfolding common_ancestor latest
  common_ancestor-Answers n w at_a at_b differ at_n =
      let listed = λ (c : IsCommon dag a b n.id).
        resolve-IsListed dag shared n.id n ((shared-IsCommon n.id).1 c) at_n in
      let apart : (a == b) ≡ false = ground (arith, nat_eq_iff a b, differ) in
      elim (List-cases (resolve dag shared)) [
        | inl e ↦ rw (at_a, at_b, apart, e) (λ c. rw e at (listed c))
        | inr (x, rest, e) ↦
            let (at, top) = foldl-IsLatest x rest in
            let best = foldl later x rest in
            let (k, in_shared, found) = IsListed-resolve dag shared best (rw e at) in
            let own : best.id ≡ k = w.keyed k best found in
            rw (at_a, at_b, apart, e)
              (
                rw own found,
                rw own ((shared-IsCommon k).0 in_shared),
                elim (Bool-cases (contains shared n.id)) [
                  | inl c ↦ inl (top n (rw e at (listed ((shared-IsCommon n.id).0 c))))
                  | inr c ↦ inr (λ w. ground (arith, (shared-IsCommon n.id).1 w, c))
                ],
              )
      ]
