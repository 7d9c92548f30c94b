-- ===== src/Ledger/Codec.antt =====
-- What the ledger takes from other packages: BLAKE3, and serde_json's encoder at each type that the
-- ledger encodes. The encoder may fail, with the text of its error.
use wll.Base.{ℕ, String, List, [], ◌++◌, bytes_of}
use wll.Base.Maps.{BTreeMap}
use wll.Base.Result.{Result, ok, err, ◌>>=◌, map_err}
use wll.Types.Commitment.{Hash}
use wll.Ledger.Records.{
  CommitmentProposal, OutcomeRecord, Receipt, LedgerError, serialization, set_receipt_hash,
}

abbrev pub Bytes : Type 0
Bytes = List ℕ

pub record Codec (V : Type 0) : Type 0 where
  pub blake3 : Bytes → Hash
  pub receipt_json : Receipt V → Result String Bytes
  pub proposal_json : CommitmentProposal → Result String Bytes
  pub metadata_json : BTreeMap String → Result String Bytes
  pub state_json : BTreeMap V → Result String Bytes
  pub outcome_json : OutcomeRecord V → Result String Bytes

module _ {V : Type 0} (codec : Codec V) where
  -- `hash_json`, after the encoder
  unfoldable pub hash_json : Result String Bytes → Result LedgerError Hash
  hash_json encoded = do bytes ← map_err serialization encoded; ok (codec.blake3 bytes)

  unfoldable pub recompute_receipt_hash : Receipt V → Result LedgerError Hash
  recompute_receipt_hash r = do
    encoded ← map_err serialization (codec.receipt_json (set_receipt_hash 0 r))
    ok (codec.blake3 (bytes_of "wll-receipt-v1:" ++ encoded))

  -- `serde_json::to_vec(self).unwrap_or_default()`
  unfoldable pub outcome_hash : OutcomeRecord V → Hash
  outcome_hash o = codec.blake3 (elim (codec.outcome_json o) [ ok bytes ↦ bytes | err _ ↦ [] ])
