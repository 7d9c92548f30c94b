-- ===== src/Ledger/Writer.antt =====
-- crates/wll-ledger/src/memory.rs, `impl LedgerWriter for InMemoryLedger`: the four appends. Each is
-- the body under the lock, then the method.
use wll.Base.{ℕ, ◌==◌, not, eq_nat, true, false, [], Option, String}
use wll.Base.Maps
use wll.Base.Maps.{BTreeMap}
use wll.Base.Result.{ok_or, fail_if}
use wll.Base.Exec.{Exec, lift, gets, ◌>>=◌, ◌>>◌}
use wll.Types.Temporal.{TemporalAnchor}
use wll.Types.Commitment.{Hash, WorldlineId, Decision, is_accepted, is_rejected}
use wll.Ledger.Codec.{Codec, hash_json, outcome_hash}
use wll.Ledger.Memory.{
  LedgerState, InMemoryLedger, write_lock, stream_position, find_commitment_by_hash, append_receipt,
  expect_commitment, expect_outcome, expect_snapshot,
}
use wll.Ledger.Records.{
  CommitmentProposal, CommitmentReceipt, OutcomeRecord, OutcomeReceipt, SnapshotInput,
  SnapshotReceipt, commitment, outcome, snapshot, LedgerError, commitment_not_accepted,
  commitment_not_rejected, missing_snapshot_anchor,
}

abbrev pub Position : Type 0
Position = ℕ × Option Hash × TemporalAnchor

-- The receipts as they are built, their own hash still to be computed.
unfoldable pub new_commitment :
    CommitmentProposal → Decision → Hash → Hash → Position → CommitmentReceipt
new_commitment p decision policy_hash proposal_hash (seq, prev_hash, timestamp) = record {
  worldline = p.worldline;
  seq = seq;
  receipt_hash = 0;
  prev_hash = prev_hash;
  timestamp = timestamp;
  proposal_hash = proposal_hash;
  commitment_id = p.commitment_id;
  class = p.class;
  intent = p.intent;
  requested_caps = p.requested_caps;
  evidence = p.evidence;
  decision = decision;
  policy_hash = policy_hash;
}

abbrev pub rejection_metadata : String → BTreeMap String
rejection_metadata reason = Maps.insert_sorted "rejection_reason" reason []

module _ {V : Type 0} where
  unfoldable pub new_outcome :
      WorldlineId → Hash → OutcomeRecord V → Hash → Position → OutcomeReceipt V
  new_outcome w commitment_receipt_hash o outcome_hash (seq, prev_hash, timestamp) = record {
    worldline = w;
    seq = seq;
    receipt_hash = 0;
    prev_hash = prev_hash;
    timestamp = timestamp;
    commitment_receipt_hash = commitment_receipt_hash;
    outcome_hash = outcome_hash;
    accepted = true;
    effects = o.effects;
    proofs = o.proofs;
    state_updates = o.state_updates;
    metadata = o.metadata;
  }

  unfoldable pub new_rejection :
      WorldlineId → Hash → BTreeMap String → Hash → Position → OutcomeReceipt V
  new_rejection w commitment_receipt_hash metadata outcome_hash (seq, prev_hash, timestamp) =
      record {
        worldline = w;
        seq = seq;
        receipt_hash = 0;
        prev_hash = prev_hash;
        timestamp = timestamp;
        commitment_receipt_hash = commitment_receipt_hash;
        outcome_hash = outcome_hash;
        accepted = false;
        effects = [];
        proofs = [];
        state_updates = [];
        metadata = metadata;
      }

  unfoldable pub new_snapshot : SnapshotInput V → Hash → Position → SnapshotReceipt V
  new_snapshot s state_hash (seq, prev_hash, timestamp) = record {
    worldline = s.worldline;
    seq = seq;
    receipt_hash = 0;
    prev_hash = prev_hash;
    timestamp = timestamp;
    anchored_receipt_hash = s.anchored_receipt_hash;
    state_hash = state_hash;
    state = s.state;
  }

module _ {V : Type 0} (codec : Codec V) (node_id now_ms : ℕ) where
  unfoldable pub commitment_body :
      CommitmentProposal → Decision → Hash → Exec (LedgerState V) LedgerError CommitmentReceipt
  commitment_body p decision policy_hash = do
    proposal_hash ← lift (hash_json codec (codec.proposal_json p))
    position ← gets (stream_position now_ms p.worldline node_id)
    r ←
        append_receipt codec p.worldline
          (commitment (new_commitment p decision policy_hash proposal_hash position))
    lift (expect_commitment r)

  unfoldable pub outcome_body :
      Hash → OutcomeRecord V → Exec (LedgerState V) LedgerError (OutcomeReceipt V)
  outcome_body commitment_receipt_hash o = do
    found ← gets (find_commitment_by_hash commitment_receipt_hash)
    c ← lift found
    lift (fail_if (not (is_accepted c.decision)) commitment_not_accepted)
    position ← gets (stream_position now_ms c.worldline node_id)
    r ← append_receipt codec c.worldline (
        outcome (new_outcome c.worldline commitment_receipt_hash o (outcome_hash codec o) position))
    lift (expect_outcome r)

  unfoldable pub rejection_body :
      Hash → String → Exec (LedgerState V) LedgerError (OutcomeReceipt V)
  rejection_body commitment_receipt_hash reason = do
    found ← gets (find_commitment_by_hash commitment_receipt_hash)
    c ← lift found
    lift (fail_if (not (is_rejected c.decision)) commitment_not_rejected)
    position ← gets (stream_position now_ms c.worldline node_id)
    let metadata = rejection_metadata reason
    outcome_hash ← lift (hash_json codec (codec.metadata_json metadata))
    r ←
        append_receipt codec c.worldline (
          outcome
            (new_rejection c.worldline commitment_receipt_hash metadata outcome_hash position))
    lift (expect_outcome r)

  unfoldable pub snapshot_body :
      SnapshotInput V → Exec (LedgerState V) LedgerError (SnapshotReceipt V)
  snapshot_body s = do
    found ← gets (λ st. Maps.get s.anchored_receipt_hash st.hash_index)
    anchor ← lift (ok_or found missing_snapshot_anchor)
    lift (fail_if (not (anchor.0 == s.worldline)) missing_snapshot_anchor)
    position ← gets (stream_position now_ms s.worldline node_id)
    state_hash ← lift (hash_json codec (codec.state_json s.state))
    r ← append_receipt codec s.worldline (snapshot (new_snapshot s state_hash position))
    lift (expect_snapshot r)

module _ {V : Type 0} (codec : Codec V) (now_ms : ℕ) where
  unfoldable pub append_commitment :
      CommitmentProposal → Decision → Hash → Exec (InMemoryLedger V) LedgerError CommitmentReceipt
  append_commitment p decision policy_hash l =
      write_lock (commitment_body codec l.node_id now_ms p decision policy_hash) l

  unfoldable pub append_outcome :
      Hash → OutcomeRecord V → Exec (InMemoryLedger V) LedgerError (OutcomeReceipt V)
  append_outcome h o l = write_lock (outcome_body codec l.node_id now_ms h o) l

  unfoldable pub append_rejection_outcome :
      Hash → String → Exec (InMemoryLedger V) LedgerError (OutcomeReceipt V)
  append_rejection_outcome h reason l =
      write_lock (rejection_body codec l.node_id now_ms h reason) l

  unfoldable pub append_snapshot :
      SnapshotInput V → Exec (InMemoryLedger V) LedgerError (SnapshotReceipt V)
  append_snapshot s l = write_lock (snapshot_body codec l.node_id now_ms s) l
