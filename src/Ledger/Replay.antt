-- ===== src/Ledger/Replay.antt =====
-- crates/wll-ledger/src/replay.rs and projection.rs: the state that a stream's receipts build up.
use wll.Base.{
  ℕ, suc, ◌+◌, ◌==◌, eq_nat, Bool, List, [], ◌∷◌, Option, none, some, String, if◌then◌else◌, length,
  drop, get_last?, map,
}
use wll.Base.Maps
use wll.Base.Maps.{BTreeMap, HashMap}
use wll.Base.Result.{Result, ok, ok_or, ◌>>=◌}
use wll.Types.Temporal.{TemporalAnchor}
use wll.Types.Commitment.{Hash, WorldlineId, CommitmentId, ReceiptKind, is_accepted}
use wll.Ledger.Memory.{InMemoryLedger}
use wll.Ledger.Reader.{read_all}
use wll.Ledger.Records.{
  Receipt, commitment, outcome, snapshot, ReceiptRef, receipt_ref, receipt_hash, StateUpdate,
  SnapshotReceipt, LedgerError, missing_snapshot_anchor,
}

pub record ReplayResult (V : Type 0) : Type 0 where
  pub worldline : WorldlineId
  pub applied_outcomes : ℕ
  pub evaluated_receipts : ℕ
  pub state : BTreeMap V

pub record LatestStateProjection (V : Type 0) : Type 0 where
  pub worldline : WorldlineId
  pub head : Option ReceiptRef
  pub latest_commitment : Option CommitmentId
  pub trajectory_length : ℕ
  pub last_updated : Option TemporalAnchor
  pub state : BTreeMap V

-- The variables of the loop of `apply_receipts`.
pub record Replay (V : Type 0) : Type 0 where
  pub applied_outcomes : ℕ
  pub evaluated_receipts : ℕ
  pub state : BTreeMap V

-- The variables of the loop of `latest_state`.
pub record Latest (V : Type 0) : Type 0 where
  pub state : BTreeMap V
  pub latest_commitment : Option CommitmentId
  pub last_updated : Option TemporalAnchor

module _ {V : Type 0} where
  -- `for update in &outcome.state_updates { state.insert(..) }`
  unfoldable pub apply_updates : BTreeMap V → List (StateUpdate V) → BTreeMap V
  apply_updates state [] = state
  apply_updates state (u ∷ us) = apply_updates (Maps.insert_sorted u.key u.value state) us

  unfoldable pub apply_receipt : Replay V → Receipt V → Replay V
  apply_receipt p (outcome o) =
      if o.accepted
      then record p {
        applied_outcomes = p.applied_outcomes + 1;
        evaluated_receipts = p.evaluated_receipts + 1;
        state = apply_updates p.state o.state_updates;
      }
      else record p { evaluated_receipts = p.evaluated_receipts + 1 }
  apply_receipt p (snapshot s) = record p {
    evaluated_receipts = p.evaluated_receipts + 1;
    state = s.state;
  }
  apply_receipt p (commitment c) = record p { evaluated_receipts = p.evaluated_receipts + 1 }

  unfoldable pub apply_from : Replay V → List (Receipt V) → Replay V
  apply_from p [] = p
  apply_from p (r ∷ rs) = apply_from (apply_receipt p r) rs

  unfoldable pub apply_receipts : WorldlineId → BTreeMap V → List (Receipt V) → ℕ → ReplayResult V
  apply_receipts w state receipts start_index =
      let p : Replay V =
        apply_from (record { applied_outcomes = 0; evaluated_receipts = 0; state = state })
          (drop start_index receipts) in
      record {
        worldline = w;
        applied_outcomes = p.applied_outcomes;
        evaluated_receipts = p.evaluated_receipts;
        state = p.state;
      }

  unfoldable pub replay_from_genesis :
      WorldlineId → InMemoryLedger V → Result LedgerError (ReplayResult V)
  replay_from_genesis w l = do receipts ← read_all w l; ok (apply_receipts w [] receipts 0)

  -- `receipts.iter().position(|r| r.receipt_hash() == hash)`
  unfoldable pub position : Hash → List (Receipt V) → Option ℕ
  position h [] = none
  position h (r ∷ rs) =
      let rest = elim (position h rs) as (λ _. Option ℕ) [ none ↦ none | some i ↦ some (suc i) ] in
      if receipt_hash r == h then some 0 else rest

  unfoldable pub replay_from_snapshot :
      SnapshotReceipt V → InMemoryLedger V → Result LedgerError (ReplayResult V)
  replay_from_snapshot s l = do
    receipts ← read_all s.worldline l
    anchor_index ← ok_or (position s.anchored_receipt_hash receipts) missing_snapshot_anchor
    ok (apply_receipts s.worldline s.state receipts (anchor_index + 1))

  -- `state_eq` is `==` on `BTreeMap<String, Value>`, whose equality of values is serde_json's.
  unfoldable pub verify_snapshot_convergence :
      (BTreeMap V → BTreeMap V → Bool)
      → SnapshotReceipt V
      → InMemoryLedger V
      → Result LedgerError Bool
  verify_snapshot_convergence state_eq s l = do
    full ← replay_from_genesis s.worldline l
    tail ← replay_from_snapshot s l
    ok (state_eq full.state tail.state)

  unfoldable pub project : Latest V → Receipt V → Latest V
  project p (commitment c) = record p {
    latest_commitment = some c.commitment_id;
    last_updated = some c.timestamp;
  }
  project p (outcome o) =
      if o.accepted
      then record p {
        state = apply_updates p.state o.state_updates;
        last_updated = some o.timestamp;
      }
      else record p { last_updated = some o.timestamp }
  project p (snapshot s) = record p { state = s.state; last_updated = some s.timestamp }

  unfoldable pub project_from : Latest V → List (Receipt V) → Latest V
  project_from p [] = p
  project_from p (r ∷ rs) = project_from (project p r) rs

  unfoldable pub latest_state :
      WorldlineId → InMemoryLedger V → Result LedgerError (LatestStateProjection V)
  latest_state w l = do
    receipts ← read_all w l
    let p =
        project_from (record { state = []; latest_commitment = none; last_updated = none }) receipts
    ok (record {
      worldline = w;
      head = elim (get_last? receipts) [ none ↦ none | some r ↦ some (receipt_ref r) ];
      latest_commitment = p.latest_commitment;
      trajectory_length = length receipts;
      last_updated = p.last_updated;
      state = p.state;
    })

-- The line that `AuditIndexEntry::summary` prints, with its numbers.
pub data Summary : Type 0 where
  intent : String → Summary
  effects_and_proofs : ℕ → ℕ → Summary
  rejected_outcome : Summary
  anchored_at : Hash → Summary

pub record AuditIndexEntry : Type 0 where
  pub seq : ℕ
  pub receipt_hash : Hash
  pub kind : ReceiptKind
  pub timestamp : TemporalAnchor
  pub commitment_id : Option CommitmentId
  pub accepted : Option Bool
  pub summary : Summary

pub record AuditIndexProjection : Type 0 where
  pub worldline : WorldlineId
  pub entries : List AuditIndexEntry

module _ {V : Type 0} where
  unfoldable pub commitments_by_hash :
      HashMap Hash CommitmentId → List (Receipt V) → HashMap Hash CommitmentId
  commitments_by_hash m [] = m
  commitments_by_hash m (commitment c ∷ rs) =
      commitments_by_hash (Maps.insert c.receipt_hash c.commitment_id m) rs
  commitments_by_hash m (outcome o ∷ rs) = commitments_by_hash m rs
  commitments_by_hash m (snapshot s ∷ rs) = commitments_by_hash m rs

  unfoldable pub audit_entry : HashMap Hash CommitmentId → Receipt V → AuditIndexEntry
  audit_entry m (commitment c) = record {
    seq = c.seq;
    receipt_hash = c.receipt_hash;
    kind = ReceiptKind.commitment;
    timestamp = c.timestamp;
    commitment_id = some c.commitment_id;
    accepted = some (is_accepted c.decision);
    summary = intent c.intent;
  }
  audit_entry m (outcome o) = record {
    seq = o.seq;
    receipt_hash = o.receipt_hash;
    kind = ReceiptKind.outcome;
    timestamp = o.timestamp;
    commitment_id = Maps.get o.commitment_receipt_hash m;
    accepted = some o.accepted;
    summary =
        if o.accepted
        then effects_and_proofs (length o.effects) (length o.proofs)
        else rejected_outcome;
  }
  audit_entry m (snapshot s) = record {
    seq = s.seq;
    receipt_hash = s.receipt_hash;
    kind = ReceiptKind.snapshot;
    timestamp = s.timestamp;
    commitment_id = none;
    accepted = none;
    summary = anchored_at s.anchored_receipt_hash;
  }

  unfoldable pub audit_index :
      WorldlineId → InMemoryLedger V → Result LedgerError AuditIndexProjection
  audit_index w l = do
    receipts ← read_all w l
    ok (record {
      worldline = w;
      entries = map (audit_entry (commitments_by_hash [] receipts)) receipts;
    })
