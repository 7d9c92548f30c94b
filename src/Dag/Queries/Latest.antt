-- ===== src/Dag/Queries/Latest.antt =====
-- crates/wll-dag/src/dag.rs: looking up ids, and the latest of some nodes.
use wll.Base.{
  ◌≡◌, refl, ◌∙◌, ◌⊎◌, inl, inr, true, false, List, [], ◌∷◌, foldl, none, some, contains, ◌==◌,
  eq_nat, if◌then◌else◌, arith, Option-cases, Bool-cases, nat_eq_iff,
}
use wll.Types.Temporal.{TemporalAnchor, is_after}
use wll.Types.Temporal.Order.{is_after_irrefl, is_after_trans, is_after_total}
use wll.Types.Commitment.{ObjectId}
use wll.Dag.Node.{DagNode}
use wll.Dag.Graph.{ProvenanceDag, get_node, resolve}

-- The element is one of the list.
abbrev pub IsListed : DagNode → List DagNode → Type 0
IsListed n [] = ⊥
IsListed n (m ∷ ms) = (n ≡ m) ⊎ IsListed n ms

pub resolve-some :
    (dag : ProvenanceDag) (id : ObjectId) (ids : List ObjectId) (m : DagNode)
    → get_node id dag ≡ some m
    → resolve dag (id ∷ ids) ≡ m ∷ resolve dag ids
unfolding resolve
resolve-some dag id ids m e = ground arith

pub resolve-none :
    (dag : ProvenanceDag) (id : ObjectId) (ids : List ObjectId)
    → get_node id dag ≡ none
    → resolve dag (id ∷ ids) ≡ resolve dag ids
unfolding resolve
resolve-none dag id ids e = ground arith

pub resolve-IsListed :
    (dag : ProvenanceDag) (ids : List ObjectId) (k : ObjectId) (n : DagNode)
    → contains ids k ≡ true
    → get_node k dag ≡ some n
    → IsListed n (resolve dag ids)
resolve-IsListed dag [] k n h e = ground arith
resolve-IsListed dag (id ∷ ids) k n h e = elim (Bool-cases (id == k)) [
  | inl same ↦
      let at : get_node id dag ≡ some n = rw ((nat_eq_iff id k).0 same) e in
      rw (resolve-some dag id ids n at) (inl refl)
  | inr other ↦
      let later = resolve-IsListed dag ids k n (ground arith) e in
      elim (Option-cases (get_node id dag)) [
        | inl gone ↦ rw (resolve-none dag id ids gone) later
        | inr (m, there) ↦ rw (resolve-some dag id ids m there) (inr later)
      ]
]

pub IsListed-resolve :
    (dag : ProvenanceDag) (ids : List ObjectId) (n : DagNode)
    → IsListed n (resolve dag ids)
    → (k : ObjectId) × (contains ids k ≡ true) × (get_node k dag ≡ some n)
unfolding resolve
IsListed-resolve dag [] n h = absurd h
IsListed-resolve dag (id ∷ ids) n h = elim (Option-cases (get_node id dag)) [
  | inl gone ↦
      let (k, at, e) = IsListed-resolve dag ids n (rw (resolve-none dag id ids gone) at h) in
      (k, ground arith, e)
  | inr (m, there) ↦
      let at : IsListed n (m ∷ resolve dag ids) = rw (resolve-some dag id ids m there) at h in
      elim at [
        | inl same ↦ (id, ground (arith, nat_eq_iff id id), rw same there)
        | inr later ↦ let (k, at, e) = IsListed-resolve dag ids n later in (k, ground arith, e)
      ]
]

abbrev pub later : DagNode → DagNode → DagNode
later x y = if is_after x.timestamp y.timestamp then x else y

-- Not after `b`, then not after what is not before `b`.
pub not_after_trans :
    (a b c : TemporalAnchor) → is_after a b ≡ false → is_after b c ≡ false → is_after a c ≡ false
not_after_trans a b c p q = elim (Bool-cases (is_after a c)) [
  | inr e ↦ e
  | inl e ↦ elim (is_after_total b c) [
    | inl on ↦ cc
    | inr (inl back) ↦ ground (arith, is_after_trans a c b e back)
    | inr (inr same) ↦ rw same at p
  ]
]

pub not_after_back : (a b : TemporalAnchor) → is_after a b ≡ true → is_after b a ≡ false
not_after_back a b h = elim (Bool-cases (is_after b a)) [
  | inr e ↦ e
  | inl e ↦ ground (arith, is_after_trans a b a h e, is_after_irrefl a)
]

-- The later of two is one of them, and neither is after it.
pub later_lem :
    (x y : DagNode)
    → ((later x y ≡ x) ⊎ (later x y ≡ y))
      × (is_after x.timestamp (later x y).timestamp ≡ false)
      × (is_after y.timestamp (later x y).timestamp ≡ false)
later_lem x y = elim (Bool-cases (is_after x.timestamp y.timestamp)) [
  | inl e ↦ rw e (inl refl, is_after_irrefl x.timestamp, not_after_back x.timestamp y.timestamp e)
  | inr e ↦ rw e (inr refl, e, is_after_irrefl y.timestamp)
]

-- The one taken is listed, and none of the list is after it.
abbrev pub IsLatest : DagNode → List DagNode → Type 0
IsLatest best ns =
    IsListed best ns × ((n : DagNode) → IsListed n ns → is_after n.timestamp best.timestamp ≡ false)

pub foldl-IsLatest : (x : DagNode) (ns : List DagNode) → IsLatest (foldl later x ns) (x ∷ ns)
foldl-IsLatest x [] = (
  inl refl,
  λ n h. elim h [ inl same ↦ rw same (is_after_irrefl x.timestamp) | inr at ↦ absurd at ],
)
foldl-IsLatest x (y ∷ ns) =
    let (one, not_x, not_y) = later_lem x y in
    let (at, top) = foldl-IsLatest (later x y) ns in
    let best = foldl later (later x y) ns in
    let below = top (later x y) (inl refl) in
    (
      elim at [
        | inl same ↦ elim one [ inl a ↦ inl (same ∙ a) | inr b ↦ inr (inl (same ∙ b)) ]
        | inr rest ↦ inr (inr rest)
      ],
      λ n h. elim h [
        | inl same ↦
            rw same (not_after_trans x.timestamp (later x y).timestamp best.timestamp not_x below)
        | inr (inl same) ↦
            rw same (not_after_trans y.timestamp (later x y).timestamp best.timestamp not_y below)
        | inr (inr rest) ↦ top n (inr rest)
      ],
    )
