-- ===== src/Crypto.antt =====
-- crates/wll-crypto: Merkle trees and the verifier of hash chains.
pub mod Bytes
pub mod Merkle
pub mod Proofs
pub mod Hasher
pub mod Chain
pub mod Tests
