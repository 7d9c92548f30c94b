-- ===== src/Crypto/Bytes.antt =====
-- `as_bytes` of a 32-byte hash, which the development keeps as a big-endian number.
use wll.Base.{ℕ, zero, suc, ◌/◌, ◌%◌, List, [], ◌∷◌, ◌++◌}
use wll.Types.Commitment.{Hash}

unfoldable pub be_bytes : ℕ → ℕ → List ℕ
be_bytes zero n = []
be_bytes (suc k) n = be_bytes k (n / 256) ++ n % 256 ∷ []

unfoldable pub as_bytes : Hash → List ℕ
unfolding be_bytes
as_bytes = be_bytes 32
