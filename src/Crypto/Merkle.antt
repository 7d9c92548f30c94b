-- ===== src/Crypto/Merkle.antt =====
-- crates/wll-crypto/src/merkle.rs: Merkle trees over object ids, and proofs of inclusion. `blake3` is
-- the hash of the third-party crate. An index out of bounds is a panic.
use wll.Base.{
  ℕ, zero, suc, ◌+◌, ◌-◌, ◌/◌, ◌%◌, ◌==◌, ◌||◌, eq_nat, Bool, true, false, List, [], ◌∷◌, ◌++◌,
  Option, none, some, if◌then◌else◌, length, get_elem?, is_empty, ltb, leb, foldl, bytes_of,
}
use wll.Base.Result.{Result, ok, ok_or, ◌>>=◌}
use wll.Types.Commitment.{ObjectId, null}
use wll.Crypto.Bytes.{as_bytes}

pub data Side : Type 0 where
  left right : Side

pub data Panic : Type 0 where
  out_of_bounds : Panic

pub record MerkleTree : Type 0 where
  pub root : ObjectId
  pub leaves : List ObjectId
  pub levels : List (List ObjectId)

pub record MerkleProof : Type 0 where
  pub leaf : ObjectId
  pub path : List (ObjectId × Side)
  pub root : ObjectId

-- `slice[i]`
abbrev pub at {ℓ} : {A : Type ℓ} → List A → ℕ → Result Panic A
at xs i = ok_or (get_elem? xs i) out_of_bounds

-- `&levels[..levels.len() - 1]`
abbrev pub but_last {ℓ} : {A : Type ℓ} → List A → List A
but_last [] = []
but_last (x ∷ []) = []
but_last (x ∷ y ∷ xs) = x ∷ but_last (y ∷ xs)

-- One round of the loop of `proof`: the sibling of a node and its side.
unfoldable pub sibling : List ObjectId → ℕ → Result Panic (ObjectId × Side)
sibling level idx = do
  let sibling_idx = if idx % 2 == 0 then idx + 1 else idx - 1
  node ← if ltb sibling_idx (length level) then at level sibling_idx else at level idx
  ok (node, if idx % 2 == 0 then right else left)

unfoldable pub walk : List (List ObjectId) → ℕ → Result Panic (List (ObjectId × Side))
walk [] idx = ok []
walk (level ∷ levels) idx = do
  step ← sibling level idx
  rest ← walk levels (idx / 2)
  ok (step ∷ rest)

unfoldable pub proof : MerkleTree → ℕ → Result Panic (Option MerkleProof)
proof t index = if leb (length t.leaves) index || is_empty t.levels then ok none else do
  path ← walk (but_last t.levels) index
  leaf ← at t.leaves index
  ok (some (record { leaf = leaf; path = path; root = t.root }))

module _ (blake3 : List ℕ → ObjectId) where
  unfoldable pub hash_pair : ObjectId → ObjectId → ObjectId
  hash_pair l r = blake3 (bytes_of "wll-merkle-v1:" ++ as_bytes l ++ as_bytes r)

  -- The round of the loop: `current.chunks(2)`, an odd node with itself.
  unfoldable pub next_level : List ObjectId → List ObjectId
  next_level [] = []
  next_level (x ∷ []) = hash_pair x x ∷ []
  next_level (x ∷ y ∷ rest) = hash_pair x y ∷ next_level rest

  -- `while current.len() > 1`: the levels that it pushes, and `current` at its end. A round makes a
  -- level of more than one node shorter, so the number of the nodes is fuel enough.
  unfoldable pub climb : ℕ → List ObjectId → List (List ObjectId) × List ObjectId
  climb zero current = ([], current)
  climb (suc fuel) current = elim (ltb 1 (length current)) [
    | true ↦
        let next : List ObjectId = next_level current in
        let above : List (List ObjectId) × List ObjectId = climb fuel next in
        (next ∷ above.0, above.1)
    | false ↦ ([], current)
  ]

  unfoldable pub from_leaves : List ObjectId → Result Panic MerkleTree
  from_leaves leaves =
      if is_empty leaves then ok (record { root = null; leaves = []; levels = [] }) else do
        let above = climb (length leaves) leaves
        root ← at above.1 0
        ok (record { root = root; leaves = leaves; levels = leaves ∷ above.0 })

  unfoldable pub step_up : ObjectId → ObjectId × Side → ObjectId
  step_up current (node, left) = hash_pair node current
  step_up current (node, right) = hash_pair current node

  unfoldable pub verify : MerkleProof → Bool
  verify p = foldl step_up p.leaf p.path == p.root
