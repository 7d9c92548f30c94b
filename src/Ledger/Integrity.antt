-- ===== src/Ledger/Integrity.antt =====
-- crates/wll-ledger/src: the streams that calls of the writer leave behind, under the validators and
-- under `read_all`.
use wll.Base.{
  ℕ, ◌≡◌, refl, ◌∙◌, true, false, inl, inr, List, [], ◌∷◌, ◌++◌, arith, Bool-cases, is_empty,
}
use wll.Base.Result.{ok, err, Result-cases}
use wll.Types.Commitment.{WorldlineId}
use wll.Ledger.Codec.{Codec}
use wll.Ledger.Records.{Receipt, integrity_violation, lock_poisoned}
use wll.Ledger.Memory.{InMemoryLedger, new, stream_of}
use wll.Ledger.Reader.{read_all}
use wll.Ledger.Validation.{
  unseen, check_receipts, validate_stream, ValidationReport, is_valid, no_findings,
  inspect_receipts, report_of, stream_report,
}
use wll.Ledger.Invariant.{IsValid}
use wll.Ledger.Reports.{inspect_receipts-checked, check_receipts-inspected, Encodable}
use wll.Ledger.Run.{Call, run, run-Grows, run-poisoned, new-IsValid}

module _ {V : Type 0} where
  pub read_all-healthy :
      (w : WorldlineId) (l : InMemoryLedger V)
      → l.poisoned ≡ false
      → read_all w l ≡ ok (stream_of w l.inner)
  unfolding read_all
  read_all-healthy w l h = rw h

  read_all-poisoned :
      (w : WorldlineId) (l : InMemoryLedger V)
      → l.poisoned ≡ true
      → read_all w l ≡ err (integrity_violation 0 lock_poisoned)
  unfolding read_all
  read_all-poisoned w l h = rw h

is_empty-eq-true {ℓ} : {A : Type ℓ} (xs : List A) → is_empty xs ≡ true → xs ≡ []
is_empty-eq-true [] e = refl
is_empty-eq-true (x ∷ xs) e = cc

module _ {V : Type 0} (codec : Codec V) where
  validate_stream-IsValid :
      (w : WorldlineId) (l : InMemoryLedger V)
      → l.poisoned ≡ false
      → IsValid codec l.inner
      → validate_stream codec w l ≡ ok tt
  unfolding validate_stream
  validate_stream-IsValid w l h valid = rw (read_all-healthy w l h, valid.checked w)

  -- Whatever calls are made of a new ledger's writer, in any order and with any outcome, every stream
  -- passes validation afterwards: consecutive sequence numbers, linked and recomputable hashes, outcomes
  -- of commitments of the same stream, anchors in the same stream.
  pub validate_stream-run :
      (node_id : ℕ) (calls : List (Call V)) (w : WorldlineId)
      → validate_stream codec w (run codec calls (new node_id)) ≡ ok tt
  validate_stream-run node_id calls w =
      validate_stream-IsValid w (run codec calls (new node_id))
        (run-poisoned codec calls (new node_id))
        (run-Grows codec calls (new node_id) (new-IsValid codec node_id)).valid

  pub stream_report-validated :
      (w : WorldlineId) (l : InMemoryLedger V)
      → l.poisoned ≡ false
      → validate_stream codec w l ≡ ok tt
      → stream_report codec w l ≡ ok (report_of w (stream_of w l.inner) no_findings)
  unfolding validate_stream stream_report
  stream_report-validated w l h e =
      elim (Result-cases (check_receipts codec unseen (stream_of w l.inner))) [
        | inr (x, q) ↦ absurd (ground (arith, read_all-healthy w l h))
        | inl (v, q) ↦ rw (
          read_all-healthy w l h,
          inspect_receipts-checked codec unseen v (stream_of w l.inner) no_findings q,
        )
      ]

  -- If a stream's receipts can be encoded and its report has no violation, the validator that stops
  -- at the first fault passes it.
  pub validate_stream-reported :
      (w : WorldlineId) (l : InMemoryLedger V) (report : ValidationReport)
      → Encodable codec (stream_of w l.inner)
      → stream_report codec w l ≡ ok report
      → is_valid report ≡ true
      → validate_stream codec w l ≡ ok tt
  unfolding validate_stream stream_report report_of
  validate_stream-reported w l report en e good = elim (Bool-cases l.poisoned) [
    | inl bad ↦ absurd (ground (arith, read_all-poisoned w l bad))
    | inr h ↦
        let clean : (inspect_receipts codec unseen (stream_of w l.inner) no_findings).violations
            ≡ [] =
          is_empty-eq-true _ (ground (arith, read_all-healthy w l h)) in
        let (v, q) =
          check_receipts-inspected codec unseen (stream_of w l.inner) no_findings en clean in
        rw (read_all-healthy w l h, q)
  ]

  -- A receipt that can be read in a stream is, after any further calls, still read there, at the same
  -- place and unchanged: the list that was read is a prefix of what is read later.
  pub read_all-run :
      (node_id : ℕ) (calls more : List (Call V)) (w : WorldlineId)
      → (rs : List (Receipt V)) × (zs : List (Receipt V)) × (read_all w
            (run codec calls (new node_id))
          ≡ ok rs)
        × (read_all w (run codec more (run codec calls (new node_id))) ≡ ok (rs ++ zs))
  read_all-run node_id calls more w =
      let l : InMemoryLedger V = run codec calls (new node_id) in
      let h : l.poisoned ≡ false = run-poisoned codec calls (new node_id) in
      let valid = (run-Grows codec calls (new node_id) (new-IsValid codec node_id)).valid in
      let (zs, p) = (run-Grows codec more l valid).longer w in
      (
        stream_of w l.inner,
        zs,
        read_all-healthy w l h,
        rw (read_all-healthy w (run codec more l) (run-poisoned codec more l ∙ h), p),
      )
