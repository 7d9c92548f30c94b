-- ===== src/Dag/Search/Ends.antt =====
-- crates/wll-dag/src/dag.rs: the loop of the queries ends, since an id is queued once.
use wll.Base.{
  ap, ℕ, zero, suc, ◌+◌, ◌≤◌, ◌≡◌, refl, inl, inr, true, not, ◌&&◌, ◌||◌, List, [], ◌∷◌, map,
  contains, length, length-append, ◌==◌, eq_nat, if◌then◌else◌, arith, Bool-cases, List-cases,
  nat_eq_iff,
}
use wll.Types.Commitment.{ObjectId}
use wll.Dag.Search.{add, Loop, visit, fresh, round, search}

-- The ids of the list that were not visited.
abbrev pub unseen : List ObjectId → List ObjectId → ℕ
unseen [] visited = 0
unseen (u ∷ us) visited = if contains visited u then unseen us visited else suc (unseen us visited)

pub contains-add :
    (id : ObjectId) (visited : List ObjectId) (k : ObjectId)
    → contains (add id visited) k ≡ (contains visited k || id == k)
unfolding add
contains-add id visited k = elim (Bool-cases (id == k)) [
  | inl e ↦ ground (arith, ap (contains visited) ((nat_eq_iff id k).0 e))
  | inr e ↦ ground arith
]

pub unseen-le-length : (us visited : List ObjectId) → unseen us visited ≤ length us
unseen-le-length [] visited = omega arith
unseen-le-length (u ∷ us) visited = ground (arith, unseen-le-length us visited)

unseen-add :
    (us visited : List ObjectId) (id : ObjectId)
    → (unseen us (add id visited) ≤ unseen us visited)
      × (contains us id && not (contains visited id) ≡ true
          → suc (unseen us (add id visited)) ≤ unseen us visited)
unseen-add [] visited id = (omega arith, λ h. ground arith)
unseen-add (u ∷ us) visited id = elim (Bool-cases (u == id)) [
  | inl e ↦
      let same : u ≡ id = (nat_eq_iff u id).0 e in
      ground (
        arith,
        unseen-add us visited id,
        contains-add id visited u,
        ap (contains visited) same,
        nat_eq_iff id u,
      )
  | inr e ↦
      ground (
        arith,
        unseen-add us visited id,
        contains-add id visited u,
        nat_eq_iff id u,
        nat_eq_iff u id,
      )
]

module _ {X : Type 0} (id_of : X → ObjectId) where
  pub contains-visit :
      (visited : List ObjectId) (xs : List X) (k : ObjectId)
      → contains (visit id_of visited xs) k ≡ (contains visited k || contains (map id_of xs) k)
  unfolding visit
  contains-visit visited [] k = ground arith
  contains-visit visited (x ∷ xs) k =
      ground (arith, contains-visit (add (id_of x) visited) xs k, contains-add (id_of x) visited k)

  -- What is queued is what was offered and not visited before.
  pub contains-fresh :
      (visited : List ObjectId) (xs : List X) (k : ObjectId)
      → contains (map id_of (fresh id_of visited xs)) k
        ≡ (contains (map id_of xs) k && not (contains visited k))
  unfolding fresh
  contains-fresh visited [] k = refl
  contains-fresh visited (x ∷ xs) k = elim (Bool-cases (id_of x == k)) [
    | inl e ↦ ground (
      arith,
      contains-fresh (add (id_of x) visited) xs k,
      contains-add (id_of x) visited k,
      ap (contains visited) ((nat_eq_iff (id_of x) k).0 e),
    )
    | inr e ↦
        ground
          (arith, contains-fresh (add (id_of x) visited) xs k, contains-add (id_of x) visited k)
  ]

  -- Each entry that is queued makes one id of the universe seen.
  pub unseen-visit :
      (us visited : List ObjectId) (xs : List X)
      → ((k : ObjectId) → contains (map id_of xs) k ≡ true → contains us k ≡ true)
      → unseen us (visit id_of visited xs) + length (fresh id_of visited xs) ≤ unseen us visited
  unfolding visit fresh
  unseen-visit us visited [] h = omega arith
  unseen-visit us visited (x ∷ xs) h = ground (
    arith,
    unseen-visit us (add (id_of x) visited) xs (λ k at. h k (ground (arith, at))),
    unseen-add us visited (id_of x),
    h (id_of x),
    nat_eq_iff (id_of x) (id_of x),
  )

  module _ {A : Type 0} (next : X → List X) (note : X → List X → A → A) (us : List ObjectId)
      (inside : (x : X) (k : ObjectId)
        → contains (map id_of (next x)) k ≡ true
        → contains us k ≡ true) where
    -- The rounds that may be left.
    abbrev pub work : Loop X A → ℕ
    work s = unseen us s.visited + length s.queue

    pub work-round :
        (x : X) (rest : List X) (s : Loop X A)
        → work (round id_of next note x rest s) ≤ unseen us s.visited + length rest
    unfolding round
    work-round x rest s = omega (
      arith,
      unseen-visit us s.visited (next x) (inside x),
      length-append {0} rest (fresh id_of s.visited (next x)),
    )

    -- With fuel for the unseen ids and the queue, the loop runs until its queue is empty.
    pub search_ends :
        (fuel : ℕ) (s : Loop X A) → work s ≤ fuel → (search id_of next note fuel s).queue ≡ []
    unfolding search
    search_ends zero s h = elim (List-cases s.queue) [
      | inl e ↦ e
      | inr (x, rest, e) ↦ ground (arith, ap (length {0}) e)
    ]
    search_ends (suc fuel) s h = elim (List-cases s.queue) [
      | inl e ↦ rw (search, e) e
      | inr (x, rest, e) ↦
          rw (search, e)
            (search_ends fuel (round id_of next note x rest s)
              (omega (arith, work-round x rest s, ap (length {0}) e)))
    ]
