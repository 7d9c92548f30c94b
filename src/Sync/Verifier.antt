-- ===== src/Sync/Verifier.antt =====
-- crates/wll-sync/src/verifier.rs: the check of received receipts. A violation has the numbers that
-- its text prints.
pub mod Streams
use wll.Base.{
  ℕ, ◌+◌, Bool, true, false, not, List, [], ◌∷◌, ◌++◌, Option, none, some, length, is_empty, ◌==◌,
  eq_nat, eq_option, if◌then◌else◌,
}
use wll.Types.Commitment.{Hash, WorldlineId}
use wll.Ledger.Records.{Receipt, worldline, seq, prev_hash, receipt_hash}

pub data Violation : Type 0 where
  wrong_worldline : ℕ → Violation
  -- the sequence number and the one that was expected
  gap : ℕ → ℕ → Violation
  prev_hash_mismatch : ℕ → Violation

pub record VerificationReport : Type 0 where
  pub worldline : WorldlineId
  pub receipts_verified : ℕ
  pub chain_valid : Bool
  pub violations : List Violation

-- The loop's variables.
pub record Checked : Type 0 where
  pub last_hash : Option Hash
  pub last_seq : Option ℕ
  pub violations : List Violation

abbrev pub unchecked : Checked
unchecked = record { last_hash = none; last_seq = none; violations = [] }

abbrev pub report_if : Bool → Violation → List Violation → List Violation
report_if bad v vs = if bad then vs ++ v ∷ [] else vs

-- `if let Some(ps) = prev_seq`
unfoldable pub check_seq : Option ℕ → ℕ → List Violation → List Violation
check_seq none n vs = vs
check_seq (some last) n vs = report_if (not (n == last + 1)) (gap n (last + 1)) vs

module _ {V : Type 0} where
  unfoldable pub check_received : WorldlineId → Checked → Receipt V → Checked
  unfolding check_seq
  check_received w c r = record {
    last_hash = some (receipt_hash r);
    last_seq = some (seq r);
    violations = report_if (not (prev_hash r == c.last_hash)) (prev_hash_mismatch (seq r)) (
        check_seq c.last_seq (seq r)
          (report_if (not (worldline r == w)) (wrong_worldline (seq r)) c.violations));
  }

  unfoldable pub check_all : WorldlineId → Checked → List (Receipt V) → Checked
  check_all w c [] = c
  check_all w c (r ∷ rs) = check_all w (check_received w c r) rs

  unfoldable pub verify_received_receipts : List (Receipt V) → WorldlineId → VerificationReport
  unfolding check_all
  verify_received_receipts receipts w =
      let c = check_all w unchecked receipts in
      record {
        worldline = w;
        receipts_verified = length receipts;
        chain_valid = is_empty c.violations;
        violations = c.violations;
      }
