-- ===== src/Sync/Tests.antt =====
-- A ledger with a codec that reads the sequence number, the worldline and the link of a receipt.
use wll.Base.{ℕ, ◌+◌, ◌*◌, ◌≡◌, true, List, [], ◌∷◌, Option, none, some, foldl, length}
use wll.Base.Result.{ok}
use wll.Types.Commitment.{Hash, accepted, CommitmentClass}
use wll.Ledger.Codec.{Codec}
use wll.Ledger.Records.{Receipt, CommitmentProposal, seq, prev_hash, worldline}
use wll.Ledger.Memory.{new}
use wll.Ledger.Reader.{read_all}
use wll.Ledger.Run.{Call, commit, run}
use wll.Sync.Verifier.{verify_received_receipts}
use wll.Sync.Verifier.Streams.{verify_received_receipts-run}

abbrev link : Option Hash → ℕ
link none = 0
link (some h) = h + 1

abbrev codec : Codec ℕ
codec = record {
  blake3 = foldl (λ h b. h * 3 + b) 1;
  receipt_json = λ r. ok (seq r ∷ worldline r ∷ link (prev_hash r) ∷ []);
  proposal_json = λ p. ok (p.nonce ∷ []);
  metadata_json = λ m. ok [];
  state_json = λ m. ok [];
  outcome_json = λ o. ok [];
}

abbrev change : ℕ → CommitmentProposal
change nonce = record {
  worldline = 8;
  commitment_id = nonce;
  class = CommitmentClass.read_only;
  intent = "sync";
  requested_caps = [];
  targets = [];
  evidence = record { references = []; digest = 0 };
  nonce = nonce;
}

abbrev calls : List (Call ℕ)
calls = commit 3 (change 6) accepted 0 ∷ commit 4 (change 7) accepted 0 ∷ []

verify_received_receipts-run_example :
    (rs : List (Receipt ℕ)) × (read_all 8 (run codec calls (new 2)) ≡ ok rs)
    × (verify_received_receipts rs 8 ≡ record {
      worldline = 8;
      receipts_verified = length rs;
      chain_valid = true;
      violations = [];
    })
verify_received_receipts-run_example = verify_received_receipts-run codec 2 calls 8
