-- ===== src/Crypto/Chain.antt =====
-- crates/wll-crypto/src/chain.rs: the verifier of a hash chain.
pub mod Places
use wll.Base.{ℕ, ◌+◌, ◌==◌, not, eq_nat, List, [], ◌∷◌, ◌++◌, Option, none, some, bytes_of}
use wll.Base.Maps.{is_some}
use wll.Base.Result.{Result, ok, err, fail_if, ◌>>◌}
use wll.Types.Commitment.{Hash}
use wll.Crypto.Bytes.{as_bytes}

-- `trait HasReceiptHash`, by what its three methods return
pub record ChainReceipt : Type 0 where
  pub receipt_hash : Hash
  pub prev_hash : Option Hash
  pub payload_bytes : List ℕ

pub data ChainError : Type 0 where
  genesis_has_prev_hash : ChainError
  broken_link missing_prev_hash hash_mismatch : ℕ → ChainError

abbrev pub prev_bytes : Option Hash → List ℕ
prev_bytes none = []
prev_bytes (some prev) = as_bytes prev

module _ (blake3 : List ℕ → Hash) where
  unfoldable pub compute_hash : List ℕ → Option Hash → Hash
  compute_hash payload prev_hash =
      blake3 (bytes_of "wll-receipt-v1:" ++ prev_bytes prev_hash ++ payload)

  -- `match receipts[i].prev_hash()`
  unfoldable pub check_link : ℕ → Hash → Option Hash → Result ChainError (Unit {0})
  check_link i expected_prev none = err (missing_prev_hash i)
  check_link i expected_prev (some prev) = fail_if (not (prev == expected_prev)) (broken_link i)

  -- The rounds of the loop from index `i` on, after a receipt with the hash `expected_prev`.
  unfoldable pub verify_from : ℕ → Hash → List ChainReceipt → Result ChainError (Unit {0})
  verify_from i expected_prev [] = ok tt
  verify_from i expected_prev (r ∷ rs) = do
    check_link i expected_prev r.prev_hash
    fail_if (not (compute_hash r.payload_bytes (some expected_prev) == r.receipt_hash))
        (hash_mismatch i)
    verify_from (i + 1) r.receipt_hash rs

  unfoldable pub verify_chain : List ChainReceipt → Result ChainError (Unit {0})
  verify_chain [] = ok tt
  verify_chain (r ∷ rs) = do
    fail_if (is_some r.prev_hash) genesis_has_prev_hash
    fail_if (not (compute_hash r.payload_bytes none == r.receipt_hash)) (hash_mismatch 0)
    verify_from 1 r.receipt_hash rs
