-- ===== src/Ledger/Found.antt =====
-- What a lookup by hash finds in a valid state.
use wll.Base.{ℕ, ◌≡◌, ap, ◌∙◌, sym, subst, some, get_elem?, arith, inl, inr, Option-cases, eq_nat}
use wll.Base.Maps
use wll.Base.Result.{ok}
use wll.Types.Commitment.{Hash, WorldlineId}
use wll.Ledger.Codec.{Codec}
use wll.Ledger.Records.{
  Receipt, CommitmentReceipt, commitment, outcome, snapshot, as_commitment, receipt_hash,
}
use wll.Ledger.Memory.{LedgerState, stream_of, find_commitment_by_hash}
use wll.Ledger.Invariant.{IsValid}

module _ {V : Type 0} where
  as_commitment-eq-some :
      (r : Receipt V) (c : CommitmentReceipt) → as_commitment r ≡ some c → r ≡ commitment c
  as_commitment-eq-some (commitment r) c e = ground arith
  as_commitment-eq-some (outcome r) c e = ground arith
  as_commitment-eq-some (snapshot r) c e = ground arith

  find-place :
      (s : LedgerState V) (h : Hash) (c : CommitmentReceipt)
      → find_commitment_by_hash h s ≡ ok c
      → (w : WorldlineId) × (i : ℕ) × (Maps.get h s.hash_index ≡ some (w, i))
        × (r : Receipt V) × (get_elem? (stream_of w s) i ≡ some r)
        × (as_commitment r ≡ some c)
  unfolding find_commitment_by_hash stream_of
  find-place s h c e = elim (Option-cases (Maps.get h s.hash_index)) [
    | inl none_there ↦ ground arith
    | inr ((w, i), p) ↦ elim (Option-cases (get_elem? (stream_of w s) i)) [
      | inl missing ↦ ground arith
      | inr (r, q) ↦ (w, i, p, r, q, ground arith)
    ]
  ]

module _ {V : Type 0} {codec : Codec V} {s : LedgerState V} (valid : IsValid codec s) where
  -- The commitment stands in the stream of its own worldline, under the hash that was asked for.
  pub find_commitment_by_hash-found :
      (h : Hash) (c : CommitmentReceipt)
      → find_commitment_by_hash h s ≡ ok c
      → (i : ℕ) × (get_elem? (stream_of c.worldline s) i ≡ some (commitment c))
        × (c.receipt_hash ≡ h)
  find_commitment_by_hash-found h c e =
      let (w, i, p, r, q, k) = find-place s h c e in
      let is_c : r ≡ commitment c = as_commitment-eq-some r c k in
      let (r', q', hash) = valid.indexed h w i p in
      let place : get_elem? (stream_of w s) i ≡ some (commitment c) = cc in
      let home : c.worldline ≡ w = valid.owned w i (commitment c) place in
      let same : r' ≡ commitment c = cc in
      (
        i,
        subst (λ v. get_elem? (stream_of v s) i ≡ some (commitment c)) (sym home) place,
        sym (ap (receipt_hash {V = V}) same) ∙ hash,
      )
