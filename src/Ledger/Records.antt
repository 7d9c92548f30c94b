-- ===== src/Ledger/Records.antt =====
-- crates/wll-ledger/src/records.rs and error.rs: receipts, their inputs and the errors. `V` stands
-- for serde_json's `Value`.
use wll.Base.{ℕ, Bool, String, List, Option, none, some}
use wll.Base.Maps.{BTreeMap}
use wll.Types.Temporal.{TemporalAnchor}
use wll.Types.Commitment.{
  Hash, WorldlineId, CommitmentId, CommitmentClass, Decision, EvidenceBundle, ReceiptKind,
}

pub record CommitmentProposal : Type 0 where
  pub worldline : WorldlineId
  pub commitment_id : CommitmentId
  pub class : CommitmentClass
  pub intent : String
  pub requested_caps : List String
  pub targets : List WorldlineId
  pub evidence : EvidenceBundle
  pub nonce : ℕ

pub record CommitmentReceipt : Type 0 where
  pub worldline : WorldlineId
  pub seq : ℕ
  pub receipt_hash : Hash
  pub prev_hash : Option Hash
  pub timestamp : TemporalAnchor
  pub proposal_hash : Hash
  pub commitment_id : CommitmentId
  pub class : CommitmentClass
  pub intent : String
  pub requested_caps : List String
  pub evidence : EvidenceBundle
  pub decision : Decision
  pub policy_hash : Hash

pub record EffectSummary : Type 0 where
  pub kind : String
  pub target : String
  pub description : String

pub record ProofRef : Type 0 where
  pub uri : String
  pub digest : Hash

pub record StateUpdate (V : Type 0) : Type 0 where
  pub key : String
  pub value : V

pub record OutcomeRecord (V : Type 0) : Type 0 where
  pub effects : List EffectSummary
  pub proofs : List ProofRef
  pub state_updates : List (StateUpdate V)
  pub metadata : BTreeMap String

pub record OutcomeReceipt (V : Type 0) : Type 0 where
  pub worldline : WorldlineId
  pub seq : ℕ
  pub receipt_hash : Hash
  pub prev_hash : Option Hash
  pub timestamp : TemporalAnchor
  pub commitment_receipt_hash : Hash
  pub outcome_hash : Hash
  pub accepted : Bool
  pub effects : List EffectSummary
  pub proofs : List ProofRef
  pub state_updates : List (StateUpdate V)
  pub metadata : BTreeMap String

pub record SnapshotInput (V : Type 0) : Type 0 where
  pub worldline : WorldlineId
  pub anchored_receipt_hash : Hash
  pub state : BTreeMap V

pub record SnapshotReceipt (V : Type 0) : Type 0 where
  pub worldline : WorldlineId
  pub seq : ℕ
  pub receipt_hash : Hash
  pub prev_hash : Option Hash
  pub timestamp : TemporalAnchor
  pub anchored_receipt_hash : Hash
  pub state_hash : Hash
  pub state : BTreeMap V

pub data Receipt (V : Type 0) : Type 0 where
  commitment : CommitmentReceipt → Receipt V
  outcome : OutcomeReceipt V → Receipt V
  snapshot : SnapshotReceipt V → Receipt V

pub record ReceiptRef : Type 0 where
  pub worldline : WorldlineId
  pub seq : ℕ
  pub receipt_hash : Hash

module _ {V : Type 0} where
  abbrev pub kind : Receipt V → ReceiptKind
  kind (commitment r) = ReceiptKind.commitment
  kind (outcome r) = ReceiptKind.outcome
  kind (snapshot r) = ReceiptKind.snapshot

  abbrev pub worldline : Receipt V → WorldlineId
  worldline (commitment r) = r.worldline
  worldline (outcome r) = r.worldline
  worldline (snapshot r) = r.worldline

  abbrev pub seq : Receipt V → ℕ
  seq (commitment r) = r.seq
  seq (outcome r) = r.seq
  seq (snapshot r) = r.seq

  abbrev pub receipt_hash : Receipt V → Hash
  receipt_hash (commitment r) = r.receipt_hash
  receipt_hash (outcome r) = r.receipt_hash
  receipt_hash (snapshot r) = r.receipt_hash

  abbrev pub prev_hash : Receipt V → Option Hash
  prev_hash (commitment r) = r.prev_hash
  prev_hash (outcome r) = r.prev_hash
  prev_hash (snapshot r) = r.prev_hash

  abbrev pub timestamp : Receipt V → TemporalAnchor
  timestamp (commitment r) = r.timestamp
  timestamp (outcome r) = r.timestamp
  timestamp (snapshot r) = r.timestamp

  abbrev pub as_commitment : Receipt V → Option CommitmentReceipt
  as_commitment (commitment r) = some r
  as_commitment _ = none

  abbrev pub as_outcome : Receipt V → Option (OutcomeReceipt V)
  as_outcome (outcome r) = some r
  as_outcome _ = none

  abbrev pub as_snapshot : Receipt V → Option (SnapshotReceipt V)
  as_snapshot (snapshot r) = some r
  as_snapshot _ = none

  abbrev pub set_receipt_hash : Hash → Receipt V → Receipt V
  set_receipt_hash h (commitment r) = commitment (record r { receipt_hash = h })
  set_receipt_hash h (outcome r) = outcome (record r { receipt_hash = h })
  set_receipt_hash h (snapshot r) = snapshot (record r { receipt_hash = h })

  abbrev pub receipt_ref : Receipt V → ReceiptRef
  receipt_ref r = record { worldline = worldline r; seq = seq r; receipt_hash = receipt_hash r }

-- The texts that `IntegrityViolation` carries, with the numbers that they print.
pub data Reason : Type 0 where
  seq_mismatch : ℕ → ℕ → Reason
  link_mismatch hash_mismatch unattributed_outcome unanchored_snapshot : Reason
  append_out_of_order : ℕ → Reason
  append_link_mismatch lock_poisoned : Reason
  -- the panic of `unreachable!()`
  unreachable : Reason

pub data LedgerError : Type 0 where
  integrity_violation : ℕ → Reason → LedgerError
  missing_commitment_receipt commitment_not_accepted commitment_not_rejected : LedgerError
  missing_snapshot_anchor hash_collision : LedgerError
  invalid_range : ℕ → ℕ → LedgerError
  serialization : String → LedgerError
  worldline_not_found : LedgerError
  store_error : String → LedgerError
