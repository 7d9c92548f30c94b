-- ===== src/Dag/Search.antt =====
-- crates/wll-dag/src/dag.rs: the breadth-first loop that the queries share. `visited` is a `HashSet`,
-- `queue` a `VecDeque` and `found` what the loop collects. A query fixes the id of an entry, the
-- entries that follow one, and what a round notes.
pub mod Ends
pub mod Reach
pub mod Target
use wll.Base.{
  ℕ, zero, suc, Bool, true, false, List, [], ◌∷◌, ◌++◌, Option, none, some, contains, ◌==◌, eq_nat,
  if◌then◌else◌,
}
use wll.Types.Commitment.{ObjectId}

-- `HashSet::insert`
unfoldable pub add : ObjectId → List ObjectId → List ObjectId
add id visited = if contains visited id then visited else id ∷ visited

pub record Loop (X A : Type 0) : Type 0 where
  pub visited : List ObjectId
  pub queue : List X
  pub found : A

module _ {X : Type 0} (id_of : X → ObjectId) where
  -- for each entry: `visited.insert(id)`
  unfoldable pub visit : List ObjectId → List X → List ObjectId
  visit visited [] = visited
  visit visited (x ∷ xs) = visit (add (id_of x) visited) xs

  -- The entries whose id was inserted, which go to the queue.
  unfoldable pub fresh : List ObjectId → List X → List X
  fresh visited [] = []
  fresh visited (x ∷ xs) =
      let rest = fresh (add (id_of x) visited) xs in
      if contains visited (id_of x) then rest else x ∷ rest

  module _ {A : Type 0} (next : X → List X) (note : X → List X → A → A) where
    -- one round, after `x` left the head of the queue
    unfoldable pub round : X → List X → Loop X A → Loop X A
    round x rest s = record {
      visited = visit s.visited (next x);
      queue = rest ++ fresh s.visited (next x);
      found = note x (fresh s.visited (next x)) s.found;
    }

    -- `while let Some(x) = queue.pop_front()`
    unfoldable pub search : ℕ → Loop X A → Loop X A
    search zero s = s
    search (suc fuel) s = elim s.queue [ [] ↦ s | x ∷ rest ↦ search fuel (round x rest s) ]

    -- `if current == to { return .. }` at the head of each round
    unfoldable pub search_for : ObjectId → ℕ → Loop X A → Option A
    unfolding round
    search_for to zero s = none
    search_for to (suc fuel) s = elim s.queue [
      | [] ↦ none
      | x ∷ rest ↦ elim (id_of x == to) [
        | true ↦ some s.found
        | false ↦ search_for to fuel (round x rest s)
      ]
    ]
