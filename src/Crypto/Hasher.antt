-- ===== src/Crypto/Hasher.antt =====
-- crates/wll-crypto/src/hasher.rs: hashes with a tag of the kind of data in front. `blake3` is the
-- hash function of the BLAKE3 library.
use Prim.Native.String.{String}
use wll.Base.{ℕ, Bool, List, ◌++◌, bytes_of, ◌==◌, eq_nat}
use wll.Types.Commitment.{Hash, ObjectId}

pub record ContentHasher : Type 0 where
  pub domain : String

abbrev pub blob_hasher : ContentHasher
blob_hasher = record { domain = "wll-blob-v1" }

abbrev pub tree_hasher : ContentHasher
tree_hasher = record { domain = "wll-tree-v1" }

abbrev pub receipt_hasher : ContentHasher
receipt_hasher = record { domain = "wll-receipt-v1" }

abbrev pub commit_hasher : ContentHasher
commit_hasher = record { domain = "wll-commit-v1" }

module _ (blake3 : List ℕ → Hash) where
  unfoldable pub hash : ContentHasher → List ℕ → ObjectId
  hash hasher content = blake3 (bytes_of hasher.domain ++ bytes_of ":" ++ content)

  unfoldable pub verify : ContentHasher → List ℕ → ObjectId → Bool
  unfolding hash
  verify hasher content expected = hash hasher content == expected
