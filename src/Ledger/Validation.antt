-- ===== src/Ledger/Validation.antt =====
-- The two validators of a stream: `InMemoryLedger::validate_stream` of
-- crates/wll-ledger/src/memory.rs, which stops at the first fault, and `StreamValidator` of
-- crates/wll-ledger/src/validation.rs, which collects the faults.
use wll.Base.{
  ℕ, ◌+◌, ◌==◌, not, eq_nat, eq_option, Bool, true, false, List, [], ◌∷◌, ◌++◌, Option, none, some,
  if◌then◌else◌, length, is_empty, contains,
}
use wll.Base.Result.{Result, ok, err, fail_if, ◌>>=◌, ◌>>◌}
use wll.Types.Commitment.{Hash, WorldlineId}
use wll.Ledger.Codec.{Codec, recompute_receipt_hash}
use wll.Ledger.Memory.{InMemoryLedger}
use wll.Ledger.Reader.{read_all, worldlines}
use wll.Ledger.Records.{
  Receipt, commitment, outcome, snapshot, seq, prev_hash, receipt_hash, LedgerError,
  integrity_violation, seq_mismatch, link_mismatch, hash_mismatch, unattributed_outcome,
  unanchored_snapshot,
}

-- The loop's variables before a receipt: its index, `receipts[index - 1].receipt_hash()` from
-- index 1 on, and the two sets of hashes.
pub record Seen : Type 0 where
  pub index : ℕ
  pub prev : Option Hash
  pub seen_receipt_hashes : List Hash
  pub commitment_hashes : List Hash

abbrev pub unseen : Seen
unseen = record { index = 0; prev = none; seen_receipt_hashes = []; commitment_hashes = [] }

module _ {V : Type 0} where
  -- The loop's variables after a receipt.
  unfoldable pub note : Seen → Receipt V → Seen
  note s r = record {
    index = s.index + 1;
    prev = some (receipt_hash r);
    seen_receipt_hashes = receipt_hash r ∷ s.seen_receipt_hashes;
    commitment_hashes = elim r [
      | commitment c ↦ c.receipt_hash ∷ s.commitment_hashes
      | _ ↦ s.commitment_hashes
    ];
  }

  -- Does an outcome name a commitment that was seen, and a snapshot a receipt that was seen?
  unfoldable pub is_attributed : Seen → Receipt V → Bool
  is_attributed s (commitment c) = true
  is_attributed s (outcome o) = contains s.commitment_hashes o.commitment_receipt_hash
  is_attributed s (snapshot n) = true

  unfoldable pub is_anchored : Seen → Receipt V → Bool
  is_anchored s (commitment c) = true
  is_anchored s (outcome o) = true
  is_anchored s (snapshot n) =
      contains (n.receipt_hash ∷ s.seen_receipt_hashes) n.anchored_receipt_hash

module _ {V : Type 0} (codec : Codec V) where
  -- The body of the loop of `InMemoryLedger::validate_stream`.
  unfoldable pub check_receipt : Seen → Receipt V → Result LedgerError Seen
  check_receipt s r = do
    fail_if (not (seq r == s.index + 1))
        (integrity_violation (seq r) (seq_mismatch (s.index + 1) (seq r)))
    fail_if (not (prev_hash r == s.prev)) (integrity_violation (seq r) link_mismatch)
    computed_hash ← recompute_receipt_hash codec r
    fail_if (not (computed_hash == receipt_hash r)) (integrity_violation (seq r) hash_mismatch)
    fail_if (not (is_attributed s r)) (integrity_violation (seq r) unattributed_outcome)
    fail_if (not (is_anchored s r)) (integrity_violation (seq r) unanchored_snapshot)
    ok (note s r)

  unfoldable pub check_receipts : Seen → List (Receipt V) → Result LedgerError Seen
  check_receipts s [] = ok s
  check_receipts s (r ∷ rs) = check_receipt s r >>= λ s'. check_receipts s' rs

  unfoldable pub validate_stream : WorldlineId → InMemoryLedger V → Result LedgerError (Unit {0})
  validate_stream w l = do receipts ← read_all w l; _ ← check_receipts unseen receipts; ok tt

pub data ViolationKind : Type 0 where
  sequence_gap hash_chain_break hash_mismatched unattributed unanchored : ViolationKind

pub record Violation : Type 0 where
  pub seq : ℕ
  pub kind : ViolationKind

pub record ValidationReport : Type 0 where
  pub worldline : WorldlineId
  pub receipt_count : ℕ
  pub hash_chain_valid : Bool
  pub sequence_monotonic : Bool
  pub outcomes_attributed : Bool
  pub snapshots_anchored : Bool
  pub violations : List Violation

abbrev pub is_valid : ValidationReport → Bool
is_valid report = is_empty report.violations

-- The variables of the loop of `StreamValidator::validate_stream`, beside the sets.
pub record Findings : Type 0 where
  pub hash_chain_valid : Bool
  pub sequence_monotonic : Bool
  pub outcomes_attributed : Bool
  pub snapshots_anchored : Bool
  pub violations : List Violation

abbrev pub no_findings : Findings
no_findings = record {
  hash_chain_valid = true;
  sequence_monotonic = true;
  outcomes_attributed = true;
  snapshots_anchored = true;
  violations = [];
}

abbrev pub found : ℕ → ViolationKind → List Violation → List Violation
found seq kind vs = vs ++ record { seq = seq; kind = kind } ∷ []

unfoldable pub note_sequence : Bool → ℕ → Findings → Findings
note_sequence good seq f =
    if good
    then f
    else record f { sequence_monotonic = false; violations = found seq sequence_gap f.violations }

unfoldable pub note_link : Bool → ℕ → Findings → Findings
note_link good seq f =
    if good
    then f
    else record f { hash_chain_valid = false; violations = found seq hash_chain_break f.violations }

-- A receipt that cannot be encoded is passed over.
unfoldable pub note_hash : Result LedgerError Hash → Hash → ℕ → Findings → Findings
note_hash (ok computed) receipt_hash seq f =
    if computed == receipt_hash
    then f
    else record f { hash_chain_valid = false; violations = found seq hash_mismatched f.violations }
note_hash (err e) receipt_hash seq f = f

unfoldable pub note_attribution : Bool → ℕ → Findings → Findings
note_attribution good seq f =
    if good
    then f
    else record f { outcomes_attributed = false; violations = found seq unattributed f.violations }

unfoldable pub note_anchor : Bool → ℕ → Findings → Findings
note_anchor good seq f =
    if good
    then f
    else record f { snapshots_anchored = false; violations = found seq unanchored f.violations }

module _ {V : Type 0} where
  unfoldable pub report_of : WorldlineId → List (Receipt V) → Findings → ValidationReport
  report_of w receipts f = record {
    worldline = w;
    receipt_count = length receipts;
    hash_chain_valid = f.hash_chain_valid;
    sequence_monotonic = f.sequence_monotonic;
    outcomes_attributed = f.outcomes_attributed;
    snapshots_anchored = f.snapshots_anchored;
    violations = f.violations;
  }

module _ {V : Type 0} (codec : Codec V) where
  -- The body of the loop of `StreamValidator::validate_stream`.
  unfoldable pub inspect : Seen → Receipt V → Findings → Findings
  inspect s r f = note_anchor (is_anchored s r) (seq r) (
      note_attribution (is_attributed s r) (seq r) (
        note_hash (recompute_receipt_hash codec r) (receipt_hash r) (seq r) (
          note_link (prev_hash r == s.prev) (seq r)
            (note_sequence (seq r == s.index + 1) (seq r) f))))

  unfoldable pub inspect_receipts : Seen → List (Receipt V) → Findings → Findings
  inspect_receipts s [] f = f
  inspect_receipts s (r ∷ rs) f = inspect_receipts (note s r) rs (inspect s r f)

  -- `StreamValidator::validate_stream`, over the in-memory reader
  unfoldable pub stream_report :
      WorldlineId → InMemoryLedger V → Result LedgerError ValidationReport
  stream_report w l = do
    receipts ← read_all w l
    ok (report_of w receipts (inspect_receipts unseen receipts no_findings))

  unfoldable pub reports_of :
      List WorldlineId → InMemoryLedger V → Result LedgerError (List ValidationReport)
  reports_of [] l = ok []
  reports_of (w ∷ ws) l = do
    report ← stream_report w l
    reports ← reports_of ws l
    ok (report ∷ reports)

  unfoldable pub validate_all : InMemoryLedger V → Result LedgerError (List ValidationReport)
  validate_all l = do ws ← worldlines l; reports_of ws l
