-- ===== src/Ledger/Folds.antt =====
-- crates/wll-ledger/src/replay.rs and projection.rs: the loops of a replay and of the projection, over
-- the receipts of a stream and from any place in it.
use wll.Base.{
  ℕ, zero, suc, ◌+◌, ◌≤◌, ◌==◌, ◌≡◌, ◌⊎◌, inl, inr, refl, sym, ap, ◌∙◌, eq_nat, nat_eq_iff, true,
  List, [], ◌∷◌, some, length, drop, get_elem?, contains, arith, Bool-cases,
}
use native.Mathlib.Nat.{zero-add, suc-add}
use wll.Types.Commitment.{Hash}
use wll.Ledger.Records.{Receipt, commitment, outcome, snapshot, SnapshotReceipt, receipt_hash}
use wll.Ledger.Validation.{Seen, note, is_anchored}
use wll.Ledger.Replay.{Replay, Latest, apply_receipt, apply_from, project, project_from, position}

pub drop-drop : {A : Type 0} (j k : ℕ) (xs : List A) → drop k (drop j xs) ≡ drop (j + k) xs
drop-drop zero k xs = rw zero-add
drop-drop (suc j) zero [] = rw suc-add
drop-drop (suc j) (suc k) [] = rw suc-add
drop-drop (suc j) k (x ∷ xs) = rw suc-add (drop-drop j k xs)

pub get_elem?-drop_add :
    {A : Type 0} (j k : ℕ) (xs : List A) → get_elem? (drop j xs) k ≡ get_elem? xs (j + k)
get_elem?-drop_add zero k xs = rw zero-add
get_elem?-drop_add (suc j) k [] = refl
get_elem?-drop_add (suc j) k (x ∷ xs) = rw suc-add (get_elem?-drop_add j k xs)

module _ {V : Type 0} where
  pub project-apply_receipt :
      (p : Latest V) (q : Replay V) (r : Receipt V)
      → p.state ≡ q.state
      → (project p r).state ≡ (apply_receipt q r).state
  unfolding project apply_receipt
  project-apply_receipt p q (commitment c) e = e
  project-apply_receipt p q (outcome o) e = ground arith
  project-apply_receipt p q (snapshot s) e = refl

  pub project_from-apply_from :
      (p : Latest V) (q : Replay V) (rs : List (Receipt V))
      → p.state ≡ q.state
      → (project_from p rs).state ≡ (apply_from q rs).state
  unfolding project_from apply_from
  project_from-apply_from p q [] e = e
  project_from-apply_from p q (r ∷ rs) e =
      project_from-apply_from (project p r) (apply_receipt q r) rs (project-apply_receipt p q r e)

  pub apply_receipt-state :
      (p q : Replay V) (r : Receipt V)
      → p.state ≡ q.state
      → (apply_receipt p r).state ≡ (apply_receipt q r).state
  unfolding apply_receipt
  apply_receipt-state p q (commitment c) e = e
  apply_receipt-state p q (outcome o) e = ground arith
  apply_receipt-state p q (snapshot s) e = refl

  pub apply_from-state :
      (p q : Replay V) (rs : List (Receipt V))
      → p.state ≡ q.state
      → (apply_from p rs).state ≡ (apply_from q rs).state
  unfolding apply_from
  apply_from-state p q [] e = e
  apply_from-state p q (r ∷ rs) e =
      apply_from-state (apply_receipt p r) (apply_receipt q r) rs (apply_receipt-state p q r e)

  pub evaluated-apply_from :
      (p : Replay V) (rs : List (Receipt V))
      → (apply_from p rs).evaluated_receipts ≡ p.evaluated_receipts + length rs
  unfolding apply_from apply_receipt
  evaluated-apply_from p [] = omega arith
  evaluated-apply_from p (commitment c ∷ rs) =
      omega (arith, evaluated-apply_from (apply_receipt p (commitment c)) rs)
  evaluated-apply_from p (outcome o ∷ rs) =
      ground (arith, evaluated-apply_from (apply_receipt p (outcome o)) rs)
  evaluated-apply_from p (snapshot s ∷ rs) =
      omega (arith, evaluated-apply_from (apply_receipt p (snapshot s)) rs)

  pub apply_receipt-snapshot :
      (p : Replay V) (s : SnapshotReceipt V) → (apply_receipt p (snapshot s)).state ≡ s.state
  unfolding apply_receipt
  apply_receipt-snapshot p s = refl

  pub first-eq : {x y : Receipt V} → some x ≡ some y → x ≡ y
  first-eq e = cc

  -- What stands before a snapshot does not matter for the state after it.
  pub apply_from-reset :
      (s : SnapshotReceipt V) (p q : Replay V) (xs : List (Receipt V)) (i : ℕ)
      → get_elem? xs i ≡ some (snapshot s)
      → q.state ≡ s.state
      → (apply_from p xs).state ≡ (apply_from q (drop (suc i) xs)).state
  unfolding apply_from
  apply_from-reset s p q [] i e k = ground arith
  apply_from-reset s p q (x ∷ xs) zero e k = apply_from-state (apply_receipt p x) q xs (
      ap (λ (t : Receipt V). (apply_receipt p t).state) (first-eq e)
      ∙ apply_receipt-snapshot p s
      ∙ sym k)
  apply_from-reset s p q (x ∷ xs) (suc i) e k = apply_from-reset s (apply_receipt p x) q xs i e k

  -- The first receipt with a hash that some receipt has.
  pub position-found :
      (h : Hash) (xs : List (Receipt V)) (k : ℕ) (r : Receipt V)
      → get_elem? xs k ≡ some r
      → receipt_hash r ≡ h
      → (j : ℕ) × (position h xs ≡ some j) × (j ≤ k)
  unfolding position
  position-found h [] k r e q = ground arith
  position-found h (x ∷ xs) zero r e q = (
    0,
    rw ((nat_eq_iff (receipt_hash x) h).1 (ap (receipt_hash {V = V}) (first-eq e) ∙ q)),
    omega arith,
  )
  position-found h (x ∷ xs) (suc k) r e q = elim (Bool-cases (receipt_hash x == h)) [
    | inl here ↦ (0, rw here, omega arith)
    | inr other ↦
        let (j, p, le) = position-found h xs k r e q in (suc j, rw (other, p), omega arith)
  ]

  pub is_anchored-snapshot :
      (v : Seen) (s : SnapshotReceipt V)
      → is_anchored v (snapshot s) ≡ true
      → (contains v.seen_receipt_hashes s.anchored_receipt_hash ≡ true)
        ⊎ (s.receipt_hash ≡ s.anchored_receipt_hash)
  unfolding is_anchored
  is_anchored-snapshot v s e = ground arith

  pub seen-note :
      (v : Seen) (r : Receipt V) (h : Hash)
      → contains (note v r).seen_receipt_hashes h ≡ true
      → (contains v.seen_receipt_hashes h ≡ true) ⊎ (receipt_hash r ≡ h)
  unfolding note
  seen-note v r h e = ground arith
