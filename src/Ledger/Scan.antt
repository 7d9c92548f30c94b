-- ===== src/Ledger/Scan.antt =====
-- The variables of the validation loops after a whole stream.
use mathlib.Core.List.{foldl-append}
use wll.Base.{
  ℕ, zero, suc, ◌+◌, ◌≡◌, refl, ◌∙◌, true, eq_nat, List, [], ◌∷◌, ◌++◌, Option, none, some, foldl,
  length, get_elem?, contains, arith,
}
use wll.Types.Commitment.{Hash}
use wll.Ledger.Records.{Receipt, CommitmentReceipt, commitment, receipt_hash}
use wll.Ledger.Memory.{last_hash}
use wll.Ledger.Validation.{Seen, unseen, note}

module _ {V : Type 0} where
  abbrev pub scan_from : Seen → List (Receipt V) → Seen
  scan_from = foldl note

  abbrev pub scan : List (Receipt V) → Seen
  scan = scan_from unseen

  pub scan-append : (xs : List (Receipt V)) (r : Receipt V) → scan (xs ++ r ∷ []) ≡ note (scan xs) r
  scan-append xs r = foldl-append note unseen xs (r ∷ [])

  index-scan_from :
      (s : Seen) (xs : List (Receipt V)) → (scan_from s xs).index ≡ s.index + length xs
  unfolding note
  index-scan_from s [] = omega arith
  index-scan_from s (x ∷ xs) = omega (arith, index-scan_from (note s x) xs)

  pub index-scan : (xs : List (Receipt V)) → (scan xs).index ≡ length xs
  index-scan xs = omega (arith, index-scan_from unseen xs)

  or_last : List (Receipt V) → Option Hash → Option Hash
  or_last [] p = p
  or_last (x ∷ xs) p = or_last xs (some (receipt_hash x))

  or_last-last_hash :
      (x : Receipt V) (xs : List (Receipt V)) (p : Option Hash)
      → or_last (x ∷ xs) p ≡ last_hash (x ∷ xs)
  unfolding or_last
  or_last-last_hash x [] p = refl
  or_last-last_hash x (y ∷ xs) p = or_last-last_hash y xs (some (receipt_hash x))

  prev-scan_from : (s : Seen) (xs : List (Receipt V)) → (scan_from s xs).prev ≡ or_last xs s.prev
  unfolding or_last note
  prev-scan_from s [] = refl
  prev-scan_from s (x ∷ xs) = prev-scan_from (note s x) xs

  pub prev-scan : (xs : List (Receipt V)) → (scan xs).prev ≡ last_hash xs
  unfolding or_last
  prev-scan [] = refl
  prev-scan (x ∷ xs) = prev-scan_from unseen (x ∷ xs) ∙ or_last-last_hash x xs none

  commitment_hashes-scan_from_mono :
      (h : Hash) (s : Seen) (xs : List (Receipt V))
      → contains s.commitment_hashes h ≡ true
      → contains (scan_from s xs).commitment_hashes h ≡ true
  unfolding note
  commitment_hashes-scan_from_mono h s [] p = p
  commitment_hashes-scan_from_mono h s (x ∷ xs) p =
      commitment_hashes-scan_from_mono h (note s x) xs (ground arith)

  seen-scan_from_mono :
      (h : Hash) (s : Seen) (xs : List (Receipt V))
      → contains s.seen_receipt_hashes h ≡ true
      → contains (scan_from s xs).seen_receipt_hashes h ≡ true
  unfolding note
  seen-scan_from_mono h s [] p = p
  seen-scan_from_mono h s (x ∷ xs) p = seen-scan_from_mono h (note s x) xs (ground arith)

  commitment_hashes-scan_from :
      (c : CommitmentReceipt) (s : Seen) (xs : List (Receipt V)) (i : ℕ)
      → get_elem? xs i ≡ some (commitment c)
      → contains (scan_from s xs).commitment_hashes c.receipt_hash ≡ true
  unfolding note
  commitment_hashes-scan_from c s [] i p = ground arith
  commitment_hashes-scan_from c s (x ∷ xs) zero p =
      commitment_hashes-scan_from_mono c.receipt_hash (note s x) xs (ground arith)
  commitment_hashes-scan_from c s (x ∷ xs) (suc i) p =
      commitment_hashes-scan_from c (note s x) xs i p

  pub commitment_hashes-scan :
      (c : CommitmentReceipt) (xs : List (Receipt V)) (i : ℕ)
      → get_elem? xs i ≡ some (commitment c)
      → contains (scan xs).commitment_hashes c.receipt_hash ≡ true
  commitment_hashes-scan c = commitment_hashes-scan_from c unseen

  seen-scan_from :
      (r : Receipt V) (s : Seen) (xs : List (Receipt V)) (i : ℕ)
      → get_elem? xs i ≡ some r
      → contains (scan_from s xs).seen_receipt_hashes (receipt_hash r) ≡ true
  unfolding note
  seen-scan_from r s [] i p = ground arith
  seen-scan_from r s (x ∷ xs) zero p =
      seen-scan_from_mono (receipt_hash r) (note s x) xs (ground arith)
  seen-scan_from r s (x ∷ xs) (suc i) p = seen-scan_from r (note s x) xs i p

  pub seen-scan :
      (r : Receipt V) (xs : List (Receipt V)) (i : ℕ)
      → get_elem? xs i ≡ some r
      → contains (scan xs).seen_receipt_hashes (receipt_hash r) ≡ true
  seen-scan r = seen-scan_from r unseen
