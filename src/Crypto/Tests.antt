-- ===== src/Crypto/Tests.antt =====
-- A Merkle tree of three leaves, with a small hash in place of BLAKE3.
use wll.Base.{ℕ, ◌+◌, ◌*◌, ◌%◌, ◌≡◌, ◌↔◌, List, [], ◌∷◌, some, none, foldl}
use wll.Base.Result.{ok}
use wll.Types.Commitment.{ObjectId}
use wll.Crypto.Merkle.{MerkleTree, from_leaves}
use wll.Crypto.Proofs.{Proves, proof-verify}
use wll.Crypto.Chain.{ChainReceipt, compute_hash, verify_chain}
use wll.Crypto.Chain.Places.{AllLinked, verify_chain-AllLinked}

abbrev digest : List ℕ → ObjectId
digest bytes = foldl (λ h b. (h * 31 + b) % 1000003) 7 bytes

abbrev three_leaves : List ObjectId
three_leaves = 11 ∷ 22 ∷ 33 ∷ []

proof-verify_example :
    (t : MerkleTree) × (from_leaves digest three_leaves ≡ ok t)
    × (t.leaves ≡ three_leaves)
    × Proves digest t 2 (some 33)
proof-verify_example = proof-verify digest three_leaves 2

-- Two receipts, the second with a link that does not fit.
abbrev two_receipts : List ChainReceipt
two_receipts =
    record {
      receipt_hash = compute_hash digest (1 ∷ []) none;
      prev_hash = none;
      payload_bytes = 1 ∷ [];
    }
    ∷ record { receipt_hash = 3; prev_hash = some 9; payload_bytes = [] }
    ∷ []

verify_chain-AllLinked_example :
    (verify_chain digest two_receipts ≡ ok tt) ↔ AllLinked digest none two_receipts
verify_chain-AllLinked_example = verify_chain-AllLinked digest two_receipts
