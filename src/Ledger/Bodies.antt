-- ===== src/Ledger/Bodies.antt =====
-- crates/wll-ledger/src/memory.rs: the bodies of the four appends, under the lock.
use wll.Base.{
  ℕ, ◌==◌, ◌≡◌, refl, sym, subst, ap, String, inl, inr, eq_nat, nat_eq_iff, some, get_elem?, arith,
  Bool-cases, Option-cases,
}
use wll.Base.Maps
use wll.Base.Result.{Result, Result-cases}
use wll.Base.Exec.{lift, ◌>>=◌, bind-lift-state}
use wll.Types.Commitment.{Hash, WorldlineId, Decision, is_accepted, is_rejected}
use wll.Ledger.Codec.{Codec, hash_json}
use wll.Ledger.Records.{
  Receipt, LedgerError, CommitmentProposal, CommitmentReceipt, OutcomeRecord, OutcomeReceipt,
  SnapshotInput, commitment, outcome, snapshot, receipt_hash,
}
use wll.Ledger.Memory.{
  LedgerState, stream_of, stream_position, find_commitment_by_hash, append_receipt,
  expect_commitment, expect_outcome, expect_snapshot,
}
use wll.Ledger.Writer.{
  Position, new_commitment, new_outcome, new_rejection, new_snapshot, rejection_metadata,
  commitment_body, outcome_body, rejection_body, snapshot_body,
}
use wll.Ledger.Validation.{is_attributed, is_anchored}
use wll.Ledger.Scan.{commitment_hashes-scan, seen-scan}
use wll.Ledger.Invariant.{IsValid}
use wll.Ledger.Pushed.{Fits}
use wll.Ledger.Found.{find_commitment_by_hash-found}

module _ {V : Type 0} (codec : Codec V) (node_id now_ms : ℕ) (s : LedgerState V) where
  pub new_commitment-Fits :
      (p : CommitmentProposal) (d : Decision) (ph h : Hash)
      → Fits s p.worldline
          (commitment (new_commitment p d ph h (stream_position now_ms p.worldline node_id s)))
  unfolding new_commitment stream_position is_attributed is_anchored
  new_commitment-Fits p d ph h = record {
    belongs = refl;
    next_seq = refl;
    linked = refl;
    attributed = λ g. refl;
    anchored = λ g. refl;
  }

  -- An outcome that names a commitment of the stream fits.
  pub outcome-Fits :
      (c : CommitmentReceipt) (o : OutcomeReceipt V) (i : ℕ)
      → get_elem? (stream_of c.worldline s) i ≡ some (commitment c)
      → o.commitment_receipt_hash ≡ c.receipt_hash
      → o.worldline ≡ c.worldline
      → (o.seq, o.prev_hash, o.timestamp) ≡ stream_position now_ms c.worldline node_id s
      → Fits s c.worldline (outcome o)
  unfolding stream_position is_attributed is_anchored
  outcome-Fits c o i p k l q = record {
    belongs = l;
    next_seq = ap (λ (t : Position). t.0) q;
    linked = ap (λ (t : Position). t.1) q;
    attributed = λ g. rw k (commitment_hashes-scan c (stream_of c.worldline s) i p);
    anchored = λ g. refl;
  }

  -- A snapshot whose anchor stands in the stream fits.
  pub new_snapshot-Fits :
      (n : SnapshotInput V) (h : Hash) (i : ℕ) (r : Receipt V)
      → get_elem? (stream_of n.worldline s) i ≡ some r
      → receipt_hash r ≡ n.anchored_receipt_hash
      → Fits s n.worldline
          (snapshot (new_snapshot n h (stream_position now_ms n.worldline node_id s)))
  unfolding new_snapshot stream_position is_attributed is_anchored
  new_snapshot-Fits n h i r p k = record {
    belongs = refl;
    next_seq = refl;
    linked = refl;
    attributed = λ g. refl;
    anchored = λ g. ground (arith, k, seen-scan r (stream_of n.worldline s) i p);
  }

-- A body ends in the state that it began with, or appends one receipt that fits: what holds of the
-- first, and of the second, holds of its end.
module _ {V : Type 0} (codec : Codec V) (node_id now_ms : ℕ) (s : LedgerState V)
    (valid : IsValid codec s) (P : LedgerState V → Type 0) (stay : P s)
    (grow : (w : WorldlineId) (r : Receipt V) → Fits s w r → P (append_receipt codec w r s).1) where
  -- An append of a receipt that fits, and then a pure step.
  append_then-induction :
      {A : Type 0} (w : WorldlineId) (r : Receipt V) (f : Receipt V → Result LedgerError A)
      → Fits s w r
      → P ((append_receipt codec w r >>= λ a. lift (f a)) s).1
  append_then-induction w r f fits =
      subst P (sym (bind-lift-state (append_receipt codec w r) f s)) (grow w r fits)

  pub commitment_body-induction :
      (p : CommitmentProposal) (d : Decision) (ph : Hash)
      → P (commitment_body codec node_id now_ms p d ph s).1
  unfolding commitment_body
  commitment_body-induction p d ph = elim (Result-cases (hash_json codec (codec.proposal_json p))) [
    | inr (e, q) ↦ rw q stay
    | inl (h, q) ↦ rw q (
        append_then-induction p.worldline _ expect_commitment
          (new_commitment-Fits codec node_id now_ms s p d ph h))
  ]

  pub outcome_body-induction :
      (h : Hash) (o : OutcomeRecord V) → P (outcome_body codec node_id now_ms h o s).1
  unfolding outcome_body
  outcome_body-induction h o = elim (Result-cases (find_commitment_by_hash h s)) [
    | inr (e, q) ↦ rw q stay
    | inl (c, q) ↦ rw q (elim (Bool-cases (is_accepted c.decision)) [
      | inr bad ↦ rw bad stay
      | inl good ↦ rw good (
          let (i, place, hash) = find_commitment_by_hash-found valid h c q in
          append_then-induction c.worldline _ expect_outcome (
            unfold new_outcome in
            outcome-Fits codec node_id now_ms s c _ i place (sym hash) refl refl))
    ])
  ]

  pub rejection_body-induction :
      (h : Hash) (reason : String) → P (rejection_body codec node_id now_ms h reason s).1
  unfolding rejection_body
  rejection_body-induction h reason = elim (Result-cases (find_commitment_by_hash h s)) [
    | inr (e, q) ↦ rw q stay
    | inl (c, q) ↦ rw q (elim (Bool-cases (is_rejected c.decision)) [
      | inr bad ↦ rw bad stay
      | inl good ↦
          rw good
            (elim (Result-cases
              (hash_json codec (codec.metadata_json (rejection_metadata reason)))) [
                | inr (e, k) ↦ rw k stay
                | inl (g, k) ↦ rw k (
                    let (i, place, hash) = find_commitment_by_hash-found valid h c q in
                    append_then-induction c.worldline _ expect_outcome (
                      unfold new_rejection in
                      outcome-Fits codec node_id now_ms s c _ i place (sym hash) refl refl))
              ])
    ])
  ]

  pub snapshot_body-induction : (n : SnapshotInput V) → P (snapshot_body codec node_id now_ms n s).1
  unfolding snapshot_body
  snapshot_body-induction n = elim (Option-cases (Maps.get n.anchored_receipt_hash s.hash_index)) [
    | inl missing ↦ rw missing stay
    | inr ((w, i), q) ↦ rw q (elim (Bool-cases (w == n.worldline)) [
      | inr other ↦ rw other stay
      | inl same ↦ rw same (elim (Result-cases (hash_json codec (codec.state_json n.state))) [
        | inr (e, k) ↦ rw k stay
        | inl (g, k) ↦ rw k (
            let (r, p, hash) = valid.indexed n.anchored_receipt_hash w i q in
            append_then-induction n.worldline _ expect_snapshot (
              new_snapshot-Fits codec node_id now_ms s n g i r
                (subst (λ v. get_elem? (stream_of v s) i ≡ some r)
                  ((nat_eq_iff w n.worldline).0 same) p)
                hash))
      ])
    ])
  ]
