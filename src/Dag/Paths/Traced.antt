-- ===== src/Dag/Paths/Traced.antt =====
-- crates/wll-dag/src/dag.rs: the paths that are found, and when there is none.
use wll.Base.{
  ap, ℕ, zero, suc, ◌≤◌, ◌≡◌, refl, sym, inl, inr, true, false, not, ◌&&◌, List, [], ◌∷◌, map,
  Option, none, some, contains, contains-map-append, length, ◌==◌, eq_nat, arith, Bool-cases,
  nat_eq_iff, map_id,
}
use wll.Base.Maps
use wll.Base.Maps.{
  HashMap, get-insert, contains_key, contains_key-get, contains_key-insert, length-insert,
}
use wll.Types.Commitment.{ObjectId}
use wll.Dag.Graph.{ProvenanceDag}
use wll.Dag.Search.{Loop, fresh, round}
use wll.Dag.Search.Ends.{contains-visit, contains-fresh, unseen-le-length}
use wll.Dag.Search.Reach.{Leads, IsSearching, seed-IsSearching, round-IsSearching, complete}
use wll.Dag.Search.Target.{search_for_cases}
use wll.Dag.Paths.{
  Predecessors, come_from, walk_back, find_path, start_at, down, edge_ends, directed_path_down,
}
use wll.Dag.Paths.Edges.{down-inside}
use wll.Dag.Paths.Predecessors.{get-come_from, length-come_from, grows-come_from}

module _ (step : ObjectId → List ObjectId) (start : ObjectId) where
  -- Back to the start by so many predecessors, each with an edge to the one before.
  data Traced (m : Predecessors) : ℕ → ObjectId → Type 0 where
    origin : Traced m zero start
    back :
        {n : ℕ} {p k : ObjectId}
        → (k == start) ≡ false
        → Maps.get k m ≡ some p
        → contains (step p) k ≡ true
        → Traced m n p
        → Traced m (suc n) k

  Traced-more :
      (m m' : Predecessors)
      → ((k p : ObjectId) → Maps.get k m ≡ some p → Maps.get k m' ≡ some p)
      → {n : ℕ} {k : ObjectId} → Traced m n k
      → Traced m' n k
  Traced-more m m' more origin = origin
  Traced-more m m' more (back {n} {p} {k} off e edge t) =
      back off (more k p e) edge (Traced-more m m' more t)

  -- Each id of the list has an edge to the next, and the last is `to`.
  abbrev pub IsWalk : ObjectId → List ObjectId → Type 0
  IsWalk to [] = ⊥
  IsWalk to (k ∷ []) = k ≡ to
  IsWalk to (k ∷ j ∷ path) = (contains (step k) j ≡ true) × IsWalk to (j ∷ path)

  abbrev pub StartsAt : List ObjectId → Type 0
  StartsAt [] = ⊥
  StartsAt (k ∷ path) = k ≡ start

  -- The list is a path to `to`, or there is none.
  abbrev pub IsAnswer : ObjectId → Option (List ObjectId) → Type 0
  IsAnswer to none = ¬ Leads step start to
  IsAnswer to (some path) = StartsAt path × IsWalk to path

  walk_back-IsWalk :
      (m : Predecessors) (to : ObjectId) (fuel : ℕ) (path : List ObjectId) {n : ℕ} {k : ObjectId}
      → Traced m n k
      → n ≤ fuel
      → IsWalk to (k ∷ path)
      → StartsAt (walk_back fuel m start k path) × IsWalk to (walk_back fuel m start k path)
  unfolding walk_back
  walk_back-IsWalk m to zero path origin h w = (refl, w)
  walk_back-IsWalk m to (suc fuel) path origin h w =
      let same : (start == start) ≡ true = (nat_eq_iff start start).1 refl in
      rw (walk_back, same) (refl, w)
  walk_back-IsWalk m to zero path (back {n} {p} {k} off e edge t) h w = ground arith
  walk_back-IsWalk m to (suc fuel) path (back {n} {p} {k} off e edge t) h w =
      rw (walk_back, off, e) (walk_back-IsWalk m to fuel (k ∷ path) t (omega arith) (edge, w))

  abbrev follows_ids : (x k : ObjectId) → contains (map (λ i. i) (step x)) k ≡ contains (step x) k
  follows_ids x k = ap (λ l. contains l k) (map_id (step x))

  abbrev Round : Type 0
  Round = Loop ObjectId Predecessors

  abbrev Searching : Round → Type 0
  Searching = IsSearching (λ i. i) step come_from step follows_ids start

  record IsTracing (to : ObjectId) (s : Round) : Type 0 where
    searching : Searching s
    traced :
        (k : ObjectId)
        → contains s.visited k ≡ true
        → (n : ℕ) × Traced s.found n k × (n ≤ length s.found)
    unset : (k : ObjectId) → contains s.visited k ≡ false → Maps.get k s.found ≡ none
    waits : contains s.visited to ≡ true → contains (map (λ i. i) s.queue) to ≡ true

  apart :
      (s : Round) (k : ObjectId)
      → contains s.visited start ≡ true
      → contains s.visited k ≡ false
      → (k == start) ≡ false
  apart s k h e = elim (Bool-cases (k == start)) [
    | inr off ↦ off
    | inl same ↦ ground (arith, ap (contains s.visited) ((nat_eq_iff k start).0 same))
  ]

  start-IsTracing : (to : ObjectId) → IsTracing to (start_at start [])
  unfolding Maps.get
  start-IsTracing to = record {
    searching = seed-IsSearching (λ i. i) step come_from step follows_ids start start [] refl;
    traced =
        λ k h. (zero, rw (sym ((nat_eq_iff start k).0 (ground (arith, h)))) origin, omega arith);
    unset = λ k h. refl;
    waits = λ h. h;
  }

  round-IsTracing :
      (to x : ObjectId) (rest : List ObjectId) (s : Round)
      → s.queue ≡ x ∷ rest
      → (x == to) ≡ false
      → IsTracing to s
      → IsTracing to (round (λ i. i) step come_from x rest s)
  unfolding round
  round-IsTracing to x rest s e miss t =
      let new = fresh (λ i. i) s.visited (step x) in
      let found = come_from x new s.found in
      let now = λ (k : ObjectId). contains-visit (λ i. i) s.visited (step x) k in
      let added : (k : ObjectId)
          → contains new k ≡ (contains (step x) k && not (contains s.visited k)) =
        λ k.
          rw (sym (map_id new))
            (ground (arith, contains-fresh (λ i. i) s.visited (step x) k, follows_ids x k)) in
      let more : (k p : ObjectId) → Maps.get k s.found ≡ some p → Maps.get k found ≡ some p =
        λ k p h. ground (arith, get-come_from x new s.found k, added k, t.unset k, h) in
      let at_head : contains (map (λ i. i) s.queue) x ≡ true =
        rw e (ground (arith, nat_eq_iff x x)) in
      record {
        searching =
            round-IsSearching (λ i. i) step come_from step follows_ids start x rest s e t.searching;
        traced = λ k h. elim (Bool-cases (contains s.visited k)) [
          | inl old ↦
              let (n, walk, bound) = t.traced k old in
              (
                n,
                Traced-more s.found found more walk,
                omega (arith, bound, length-come_from x new s.found),
              )
          | inr unseen ↦
              let (n, walk, bound) = t.traced x (t.searching.queued x at_head) in
              let next : contains (step x) k ≡ true =
                ground (arith, now k, unseen, follows_ids x k, h) in
              let fresh_k : contains new k ≡ true = ground (arith, added k, next, unseen) in
              (
                suc n,
                back (apart s k t.searching.source unseen)
                    (ground (arith, get-come_from x new s.found k, fresh_k)) next
                    (Traced-more s.found found more walk),
                omega (
                  arith,
                  bound,
                  grows-come_from x new s.found k fresh_k
                      (ground (arith, contains_key-get k s.found, t.unset k unseen)),
                ),
              )
        ];
        unset = λ k h.
            ground
              (arith, now k, added k, get-come_from x new s.found k, t.unset k, follows_ids x k, h);
        waits = λ h. ground (
          arith,
          h,
          now to,
          contains-fresh (λ i. i) s.visited (step x) to,
          contains-map-append (λ i. i) rest new to,
          ap (λ q. contains (map (λ i. i) q) to) e,
          t.waits,
          miss,
        );
      }

  find_path-IsAnswer :
      (us : List ObjectId) (to : ObjectId)
      → ((x k : ObjectId) → contains (step x) k ≡ true → contains us k ≡ true)
      → IsAnswer to (find_path step (suc (length us)) start to)
  unfolding find_path
  find_path-IsAnswer us to inside =
      elim (search_for_cases (λ i. i) step come_from us
        (λ x k h. inside x k (ground (arith, follows_ids x k, h))) to (IsTracing to)
        (round-IsTracing to) (suc (length us)) (start_at start [])
        (omega (arith, unseen-le-length us (start ∷ []))) (start-IsTracing to)) [
          | inl (t, x, rest, tracing, e, hit, found) ↦
              let at_head : contains (map (λ i. i) t.queue) to ≡ true =
                rw e (ground (arith, nat_eq_iff x to, hit)) in
              let (n, walk, bound) = tracing.traced to (tracing.searching.queued to at_head) in
              rw (find_path, found)
                (walk_back-IsWalk t.found to (length t.found) [] walk bound refl)
          | inr (t, tracing, e, none_found) ↦
              rw (find_path, none_found)
                (λ walk.
                  let seen =
                    complete (λ i. i) step come_from step follows_ids start t tracing.searching e
                      walk in
                  let waiting = tracing.waits seen in
                  ground (arith, waiting, ap (λ q. contains (map (λ i. i) q) to) e))
        ]

-- On any graph `directed_path_down` answers a list that begins with the first id, ends with the
-- second one and goes from each id to one that the child index lists under it; or it answers nothing,
-- and then no walk along the index leads from the first id to the second.
pub directed_path_down-IsAnswer :
    (dag : ProvenanceDag) (start to : ObjectId)
    → IsAnswer (down dag) start to (directed_path_down dag start to)
unfolding directed_path_down
directed_path_down-IsAnswer dag start to = elim (Bool-cases (start == to)) [
  | inl same ↦ rw (directed_path_down, same) (refl, (nat_eq_iff start to).0 same)
  | inr apart ↦
      rw (directed_path_down, apart)
        (find_path-IsAnswer (down dag) start (edge_ends dag) to (down-inside dag))
]
