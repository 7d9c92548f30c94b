-- ===== src/Crypto/Proofs.antt =====
-- crates/wll-crypto/src/merkle.rs: the proofs of inclusion of a tree that `from_leaves` builds.
use wll.Base.{
  ℕ, zero, suc, ◌+◌, ◌-◌, ◌/◌, ◌%◌, ◌≤◌, ◌<◌, ◌==◌, ◌≡◌, refl, ◌∙◌, eq_nat, nat_eq_iff, true, false,
  inl, inr, Bool-cases, List, [], ◌∷◌, Option, none, some, Option-cases, length, get_elem?,
  get_elem?-lt, get_elem?-none, ltb, leb, foldl, arith,
}
use wll.Base.Result.{ok}
use wll.Types.Commitment.{ObjectId, null}
use wll.Crypto.Merkle.{
  Side, left, right, but_last, MerkleTree, MerkleProof, next_level, climb, from_leaves, sibling,
  walk, proof, step_up, verify,
}

sibling-shift :
    (x y : ObjectId) (rest : List ObjectId) (i : ℕ)
    → i < length rest
    → sibling (x ∷ y ∷ rest) (suc (suc i)) ≡ sibling rest i
unfolding sibling
sibling-shift x y rest i h =
    let parity : suc (suc i) % 2 ≡ i % 2 = omega arith in
    elim (Bool-cases (i % 2 == 0)) [
      | inl even ↦
          let e : suc (suc i) + 1 ≡ suc (suc (i + 1)) = omega arith in
          rw (parity, even, e) (ground arith)
      | inr odd ↦
          let e : suc (suc i) - 1 ≡ suc (suc (i - 1)) = ground arith in
          rw (parity, odd, e) (ground arith)
    ]

single-node :
    (xs : List ObjectId) (i : ℕ) (x : ObjectId)
    → ltb 1 (length xs) ≡ false
    → get_elem? xs i ≡ some x
    → xs ≡ x ∷ []
single-node [] i x h e = ground arith
single-node (a ∷ []) zero x h e = ground arith
single-node (a ∷ []) (suc i) x h e = ground arith
single-node (a ∷ b ∷ xs) i x h e = absurd (ground arith)

module _ (blake3 : List ℕ → ObjectId) where
  length-next_level :
      (xs : List ObjectId)
      → length (next_level blake3 xs) + length (next_level blake3 xs) ≤ length xs + 1
  unfolding next_level
  length-next_level [] = omega arith
  length-next_level (x ∷ []) = omega arith
  length-next_level (x ∷ y ∷ rest) = omega (arith, length-next_level rest)

  -- The node above a node is the hash of that node with its sibling.
  next_level-sibling :
      (xs : List ObjectId) (i : ℕ) (x : ObjectId)
      → get_elem? xs i ≡ some x
      → (s : ObjectId × Side) × (sibling xs i ≡ ok s)
        × (get_elem? (next_level blake3 xs) (i / 2) ≡ some (step_up blake3 x s))
  unfolding next_level step_up sibling
  next_level-sibling [] i x e = ground arith
  next_level-sibling (a ∷ []) zero x e = ((a, right), ground arith, ground arith)
  next_level-sibling (a ∷ []) (suc i) x e = ground arith
  next_level-sibling (a ∷ b ∷ rest) zero x e = ((b, right), ground arith, ground arith)
  next_level-sibling (a ∷ b ∷ rest) (suc zero) x e = ((a, left), ground arith, ground arith)
  next_level-sibling (a ∷ b ∷ rest) (suc (suc i)) x e =
      let (s, p, q) = next_level-sibling rest i x e in
      let half : suc (suc i) / 2 ≡ suc (i / 2) = omega arith in
      (s, sibling-shift a b rest i (get_elem?-lt rest i x e) ∙ p, rw half q)

  climb-done :
      (fuel : ℕ) (xs : List ObjectId)
      → ltb 1 (length xs) ≡ false
      → climb blake3 (suc fuel) xs ≡ ([], xs)
  unfolding climb
  climb-done fuel xs h = ground arith

  climb-round :
      (fuel : ℕ) (xs : List ObjectId)
      → ltb 1 (length xs) ≡ true
      → climb blake3 (suc fuel) xs ≡ (
        next_level blake3 xs ∷ (climb blake3 fuel (next_level blake3 xs)).0,
        (climb blake3 fuel (next_level blake3 xs)).1,
      )
  unfolding climb
  climb-round fuel xs h = ground arith

  -- Enough fuel: `current` has one node at the end, and the way up from any node ends at it.
  walk-climb :
      (fuel : ℕ) (xs : List ObjectId) (i : ℕ) (x : ObjectId)
      → length xs ≤ fuel
      → get_elem? xs i ≡ some x
      → (path : List (ObjectId × Side)) × (walk (but_last (xs ∷ (climb blake3 fuel xs).0)) i
          ≡ ok path)
        × ((climb blake3 fuel xs).1 ≡ foldl (step_up blake3) x path ∷ [])
  unfolding walk
  walk-climb zero xs i x h e = absurd (omega (arith, get_elem?-lt xs i x e))
  walk-climb (suc fuel) xs i x h e = elim (Bool-cases (ltb 1 (length xs))) [
    | inr single ↦ rw (climb-done fuel xs single) ([], refl, single-node xs i x single e)
    | inl more ↦
        let (s, p, q) = next_level-sibling xs i x e in
        let short : length (next_level blake3 xs) ≤ fuel = ground (arith, length-next_level xs) in
        let (path, w, top) =
          walk-climb fuel (next_level blake3 xs) (i / 2) (step_up blake3 x s) short q in
        rw (climb-round fuel xs more, p, w) (s ∷ path, refl, top)
  ]

  tree_of : (leaves : List ObjectId) (top : ObjectId) → MerkleTree
  tree_of leaves top = record {
    root = top;
    leaves = leaves;
    levels = leaves ∷ (climb blake3 (length leaves) leaves).0;
  }

  from_leaves-tree_of :
      (x : ObjectId) (xs : List ObjectId) (top : ObjectId)
      → (climb blake3 (length (x ∷ xs)) (x ∷ xs)).1 ≡ top ∷ []
      → from_leaves blake3 (x ∷ xs) ≡ ok (tree_of (x ∷ xs) top)
  unfolding from_leaves tree_of
  from_leaves-tree_of x xs top e = rw e

  proof-tree_of :
      (leaves : List ObjectId) (top : ObjectId) (i : ℕ) (x : ObjectId)
      (path : List (ObjectId × Side))
      → get_elem? leaves i ≡ some x
      → walk (but_last (leaves ∷ (climb blake3 (length leaves) leaves).0)) i ≡ ok path
      → proof (tree_of leaves top) i ≡ ok (some (record { leaf = x; path = path; root = top }))
  unfolding proof tree_of
  proof-tree_of leaves top i x path e w =
      let inside : leb (length leaves) i ≡ false = ground (arith, get_elem?-lt leaves i x e) in
      rw (inside, w, e)

  top_node :
      (y : ObjectId) (ys : List ObjectId)
      → (top : ObjectId) × ((climb blake3 (length (y ∷ ys)) (y ∷ ys)).1 ≡ top ∷ [])
  top_node y ys =
      let (path, w, top) = walk-climb (length (y ∷ ys)) (y ∷ ys) 0 y (omega arith) refl in
      (foldl (step_up blake3) y path, top)

  -- A proof that carries the leaf and the root of the tree, and verifies; no proof where there is no leaf.
  abbrev pub Proves : MerkleTree → ℕ → Option ObjectId → Type 0
  Proves t i none = proof t i ≡ ok none
  Proves t i (some x) =
      (p : MerkleProof) × (proof t i ≡ ok (some p))
      × (verify blake3 p ≡ true)
      × (p.leaf ≡ x)
      × (p.root ≡ t.root)

  proof-beyond : (t : MerkleTree) (i : ℕ) → get_elem? t.leaves i ≡ none → proof t i ≡ ok none
  unfolding proof
  proof-beyond t i e =
      let outside : leb (length t.leaves) i ≡ true = ground (arith, get_elem?-none t.leaves i e) in
      rw outside refl

  proof-inside :
      (y : ObjectId) (ys : List ObjectId) (top : ObjectId) (i : ℕ) (x : ObjectId)
      → (climb blake3 (length (y ∷ ys)) (y ∷ ys)).1 ≡ top ∷ []
      → get_elem? (y ∷ ys) i ≡ some x
      → Proves (tree_of (y ∷ ys) top) i (some x)
  unfolding verify tree_of
  proof-inside y ys top i x at_top e =
      let (path, w, up) = walk-climb (length (y ∷ ys)) (y ∷ ys) i x (omega arith) e in
      let same : foldl (step_up blake3) x path ≡ top = ground (arith, up, at_top) in
      (
        record { leaf = x; path = path; root = top },
        proof-tree_of (y ∷ ys) top i x path e w,
        (nat_eq_iff (foldl (step_up blake3) x path) top).1 same,
        refl,
        refl,
      )

  -- A tree is built of any leaves, of none too, without a panic, and keeps them. Each place with a leaf
  -- has a proof, which carries the leaf and the root of the tree and verifies; any other place has no
  -- proof.
  pub proof-verify :
      (leaves : List ObjectId) (i : ℕ)
      → (t : MerkleTree) × (from_leaves blake3 leaves ≡ ok t)
        × (t.leaves ≡ leaves)
        × Proves t i (get_elem? leaves i)
  unfolding tree_of from_leaves
  proof-verify [] i =
      (record { root = null; leaves = []; levels = [] }, refl, refl, proof-beyond _ i refl)
  proof-verify (y ∷ ys) i =
      let (top, at_top) = top_node y ys in
      (
        tree_of (y ∷ ys) top,
        from_leaves-tree_of y ys top at_top,
        refl,
        elim (Option-cases (get_elem? (y ∷ ys) i)) [
          | inl e ↦ rw e (proof-beyond (tree_of (y ∷ ys) top) i e)
          | inr (x, e) ↦ rw e (proof-inside y ys top i x at_top e)
        ],
      )
