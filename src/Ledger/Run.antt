-- ===== src/Ledger/Run.antt =====
-- Calls of the writer in any order, whether they succeed or fail, from a new ledger.
use wll.Base.{
  ℕ, ◌≡◌, refl, sym, String, inl, inr, List, [], ◌∷◌, ◌++◌, arith, Bool-cases, append-nil,
  append_assoc, ◌==◌, eq_nat, nat_eq_iff, ap, ◌∙◌,
}
use wll.Base.Maps
use wll.Base.Result.{Result, ok, err}
use wll.Base.Exec.{Exec}
use wll.Types.Commitment.{Hash, WorldlineId, Decision}
use wll.Ledger.Codec.{Codec, recompute_receipt_hash}
use wll.Ledger.Records.{
  Receipt, CommitmentProposal, OutcomeRecord, SnapshotInput, LedgerError, set_receipt_hash,
}
use wll.Ledger.Memory.{
  LedgerState, InMemoryLedger, new, write_lock, stream_of, append_receipt, push_receipt,
  entry_or_default,
}
use wll.Ledger.Writer.{
  append_commitment, append_outcome, append_rejection_outcome, append_snapshot, commitment_body,
  outcome_body, rejection_body, snapshot_body,
}
use wll.Ledger.Validation.{check_receipts}
use wll.Ledger.Invariant.{IsValid}
use wll.Ledger.Pushed.{Fits, stream_of-push_receipt, stream_of-entry_or_default}
use wll.Ledger.Append.{append_receipt-IsValid, append_result, append_receipt_lem}
use wll.Ledger.Bodies.{
  commitment_body-induction, outcome_body-induction, rejection_body-induction,
  snapshot_body-induction,
}

-- A call of `LedgerWriter`; the number is the wall clock reading.
pub data Call (V : Type 0) : Type 0 where
  commit : ℕ → CommitmentProposal → Decision → Hash → Call V
  record_outcome : ℕ → Hash → OutcomeRecord V → Call V
  reject : ℕ → Hash → String → Call V
  take_snapshot : ℕ → SnapshotInput V → Call V

module _ {V : Type 0} (codec : Codec V) where
  unfoldable pub perform : Call V → InMemoryLedger V → InMemoryLedger V
  perform (commit now_ms p d ph) l = (append_commitment codec now_ms p d ph l).1
  perform (record_outcome now_ms h o) l = (append_outcome codec now_ms h o l).1
  perform (reject now_ms h reason) l = (append_rejection_outcome codec now_ms h reason l).1
  perform (take_snapshot now_ms n) l = (append_snapshot codec now_ms n l).1

  unfoldable pub run : List (Call V) → InMemoryLedger V → InMemoryLedger V
  unfolding perform
  run [] l = l
  run (c ∷ cs) l = run cs (perform c l)

-- A state that comes about from `s` by some appends: it is valid, and each stream has grown at its end.
pub record Grows {V : Type 0} (codec : Codec V) (s t : LedgerState V) : Type 0 where
  pub valid : IsValid codec t
  pub longer : (w : WorldlineId) → (zs : List (Receipt V)) × (stream_of w t ≡ stream_of w s ++ zs)

module _ {V : Type 0} (codec : Codec V) where
  pub Grows-refl : (s : LedgerState V) → IsValid codec s → Grows codec s s
  Grows-refl s valid = record {
    valid = valid;
    longer = λ w. ([], sym (append-nil (stream_of w s)));
  }

  pub Grows-trans : {s t u : LedgerState V} → Grows codec s t → Grows codec t u → Grows codec s u
  Grows-trans {s} {t} {u} f g = record {
    valid = g.valid;
    longer = λ w.
        let (xs, p) = f.longer w in
        let (ys, q) = g.longer w in
        (
          xs ++ ys,
          q ∙ ap (λ (l : List (Receipt V)). l ++ ys) p ∙ append_assoc (stream_of w s) xs ys,
        );
  }

  longer-push :
      (s : LedgerState V) (w : WorldlineId) (r : Receipt V) (v : WorldlineId)
      → (zs : List (Receipt V)) × (stream_of v (push_receipt codec w r s) ≡ stream_of v s ++ zs)
  longer-push s w r v = elim (Bool-cases (w == v)) [
    | inl same ↦ (r ∷ [], rw (stream_of-push_receipt, same, (nat_eq_iff w v).0 same))
    | inr other ↦ ([], rw (stream_of-push_receipt, other, append-nil))
  ]

  longer-append_result :
      (m : Result LedgerError Hash) (w : WorldlineId) (r : Receipt V) (s : LedgerState V)
      (v : WorldlineId)
      → (zs : List (Receipt V)) × (stream_of v (append_result codec m w r s).1
          ≡ stream_of v s ++ zs)
  unfolding append_result
  longer-append_result (err e) w r s v = ([], sym (append-nil (stream_of v s)))
  longer-append_result (ok h) w r s v = elim (Bool-cases (Maps.contains_key h s.hash_index)) [
    | inl known ↦ rw known ([], sym (append-nil (stream_of v s)))
    | inr fresh ↦ rw fresh (longer-push s w (set_receipt_hash h r) v)
  ]

  append_receipt-Grows :
      (s : LedgerState V) (w : WorldlineId) (r : Receipt V)
      → IsValid codec s
      → Fits s w r
      → Grows codec s (append_receipt codec w r s).1
  append_receipt-Grows s w r valid fits = record {
    valid = append_receipt-IsValid codec w r s valid fits;
    longer = λ v.
        let (zs, p) =
          longer-append_result (recompute_receipt_hash codec r) w r (entry_or_default w s) v in
        (
          zs,
          ap (λ (t : Result LedgerError (Receipt V) × LedgerState V). stream_of v t.1)
                (append_receipt_lem codec w r s fits)
              ∙ p
              ∙ ap (λ (l : List (Receipt V)). l ++ zs) (stream_of-entry_or_default w v s),
        );
  }

  write_lock-Grows :
      {A : Type 0} (body : Exec (LedgerState V) LedgerError A) (l : InMemoryLedger V)
      → IsValid codec l.inner
      → Grows codec l.inner (body l.inner).1
      → Grows codec l.inner (write_lock body l).1.inner
  unfolding write_lock
  write_lock-Grows body l valid g = elim (Bool-cases l.poisoned) [
    | inl bad ↦ rw bad (Grows-refl l.inner valid)
    | inr good ↦ rw good g
  ]

  pub perform-Grows :
      (c : Call V) (l : InMemoryLedger V)
      → IsValid codec l.inner
      → Grows codec l.inner (perform codec c l).inner
  unfolding perform append_commitment append_outcome append_rejection_outcome append_snapshot
  perform-Grows (commit now_ms p d ph) l valid =
      write_lock-Grows (commitment_body codec l.node_id now_ms p d ph) l valid (
        commitment_body-induction codec l.node_id now_ms l.inner valid (Grows codec l.inner)
          (Grows-refl l.inner valid) (λ w r. append_receipt-Grows l.inner w r valid) p d ph)
  perform-Grows (record_outcome now_ms h o) l valid =
      write_lock-Grows (outcome_body codec l.node_id now_ms h o) l valid (
        outcome_body-induction codec l.node_id now_ms l.inner valid (Grows codec l.inner)
          (Grows-refl l.inner valid) (λ w r. append_receipt-Grows l.inner w r valid) h o)
  perform-Grows (reject now_ms h reason) l valid =
      write_lock-Grows (rejection_body codec l.node_id now_ms h reason) l valid (
        rejection_body-induction codec l.node_id now_ms l.inner valid (Grows codec l.inner)
          (Grows-refl l.inner valid) (λ w r. append_receipt-Grows l.inner w r valid) h reason)
  perform-Grows (take_snapshot now_ms n) l valid =
      write_lock-Grows (snapshot_body codec l.node_id now_ms n) l valid (
        snapshot_body-induction codec l.node_id now_ms l.inner valid (Grows codec l.inner)
          (Grows-refl l.inner valid) (λ w r. append_receipt-Grows l.inner w r valid) n)

  pub run-Grows :
      (cs : List (Call V)) (l : InMemoryLedger V)
      → IsValid codec l.inner
      → Grows codec l.inner (run codec cs l).inner
  unfolding run
  run-Grows [] l valid = Grows-refl l.inner valid
  run-Grows (c ∷ cs) l valid =
      let g = perform-Grows c l valid in Grows-trans g (run-Grows cs (perform codec c l) g.valid)

  pub new-IsValid : (node_id : ℕ) → IsValid codec (new {V = V} node_id).inner
  unfolding stream_of Maps.get check_receipts
  new-IsValid node_id = record {
    checked = λ w. refl;
    owned = λ w i r p. ground arith;
    indexed = λ h w i p. ground arith;
    recorded = λ w i r p. ground arith;
  }

  write_lock-poisoned :
      {A : Type 0} (body : Exec (LedgerState V) LedgerError A) (l : InMemoryLedger V)
      → (write_lock body l).1.poisoned ≡ l.poisoned
  unfolding write_lock
  write_lock-poisoned body l = elim (Bool-cases l.poisoned) [
    | inl bad ↦ rw bad
    | inr good ↦ rw good
  ]

  perform-poisoned : (c : Call V) (l : InMemoryLedger V) → (perform codec c l).poisoned ≡ l.poisoned
  unfolding perform append_commitment append_outcome append_rejection_outcome append_snapshot
  perform-poisoned (commit now_ms p d ph) l = write_lock-poisoned _ l
  perform-poisoned (record_outcome now_ms h o) l = write_lock-poisoned _ l
  perform-poisoned (reject now_ms h reason) l = write_lock-poisoned _ l
  perform-poisoned (take_snapshot now_ms n) l = write_lock-poisoned _ l

  pub run-poisoned :
      (cs : List (Call V)) (l : InMemoryLedger V) → (run codec cs l).poisoned ≡ l.poisoned
  unfolding run
  run-poisoned [] l = refl
  run-poisoned (c ∷ cs) l = run-poisoned cs (perform codec c l) ∙ perform-poisoned c l
