-- ===== src/Lib.antt =====
-- The WorldLine Ledger (WLL): receipts of commitments, outcomes and snapshots, in one hash-linked stream
-- per worldline, with the crates around it that order, name, gate and prove them.
--
-- Parts, and the files that model them:
-- Types: crates/wll-types/src. Temporal has TemporalAnchor, its order and `advance`; Commitment has the
-- identifiers, classes and decisions. A 32-byte hash is a big-endian number, a UUID likewise.
-- Crypto: crates/wll-crypto/src/merkle.rs (Merkle), chain.rs (Chain) and hasher.rs (Hasher). BLAKE3 is a function that the
-- definitions take. The proofs are in Proofs and Chain/Places.
-- Fabric: crates/wll-fabric/src/hlc.rs (Hlc): the clock is a state that `now` and `update` pass on, with
-- the wall clock reading as an argument; the u32 counter wraps as in a release build. wal.rs (Wal): the
-- log is the bytes of its file, with bincode and crc32fast as the functions of a codec. The proofs are in
-- Hlc/Monotone, Wal/Recovery and Wal/Checkpoint.
-- Ledger: crates/wll-ledger/src. Records has records.rs and error.rs; Codec has what is taken from BLAKE3
-- and serde_json; Memory, Writer and Reader have memory.rs, a method being one step under its lock, from
-- ledger to ledger, that keeps what was written before an error; Validation has `validate_stream` of
-- memory.rs and the StreamValidator of validation.rs; Replay has replay.rs and projection.rs. Run makes
-- any calls of the writer in order. Scan, Pushed, Invariant, Append, Found, Bodies, Reports and Folds carry
-- the lemmas, and Integrity, Lookup, Commits, Effects and Converge the theorems.
-- Refs: crates/wll-refs/src. Names has names.rs and error.rs; Memory has types.rs and memory.rs, with a
-- flag for each poisoned lock. The proofs are in Names/Rules and Memory/Kept.
-- Gate: crates/wll-gate/src. Stage has stage.rs, error.rs, config.rs and the types of stages/policy.rs;
-- Stages has the three built-in stages; Pipeline has gate.rs, with any list of stages. Rules says what
-- each rule and scope of a policy asks, apart from the code. The proofs are in Rules, Judges and Default
-- (the standard pipeline) and Recorded (any pipeline).
-- Dag: crates/wll-dag/src. Node has node.rs, audit.rs and error.rs; dag.rs is in Graph (growth, validation
-- and pruning), Search (the breadth-first loop that the queries share), Paths and Queries. Run makes any
-- calls of `add_node` and `checkpoint`. The proofs are in Graph/Edges (the invariant), Graph/Sound,
-- Graph/Added, Graph/Retained, Graph/Trimmed and Graph/Pruned, Search/Ends, Search/Reach and Search/Target, Paths/Edges,
-- Paths/Predecessors and Paths/Traced, Queries/Total, Queries/Latest, Queries/Reached and Queries/Audited.
-- Store: crates/wll-store/src. Object has object.rs and error.rs, Memory has memory.rs and the batches of
-- traits.rs. The proofs are in Memory/Addressed.
-- Index: crates/wll-index/src. Entry has entry.rs, status.rs and error.rs; Staging has index.rs, with the
-- in-memory store that it works on as a part of its state. Staging/Keyed and Staging/Sound make any calls,
-- with what callers write into the flags of the public entries, and keep the entries sound; Staging/Classes is about the status, Staging/Restored and Staging/Trees about
-- written trees.
-- Diff: crates/wll-diff/src/state_diff.rs is in State, with any type of values that has an equality test. The
-- proofs are in State/Patched.
-- Sync: crates/wll-sync/src. Negotiation has negotiation.rs, Verifier has verifier.rs; Verifier/Streams is
-- about the streams of the ledger.
-- Pack: the variable-length integers of crates/wll-pack/src/writer.rs are in Varint, entry.rs is in Entry,
-- the index of a pack in memory (crates/wll-pack/src/index.rs) is in Index. The proofs are in Varint/Inverse, Index/Sorted and
-- Index/Found. The binary search of the standard library is a search for the first equal id, which on a slice
-- without duplicates has the same answer.
-- Base: Booleans and tests, lists, maps as association lists, results and stateful computations.
-- The Tests of each part hold concrete runs.
--
-- Interaction: the writer of the ledger takes the decision and the policy hash that the gate makes, and
-- stamps receipts in the order of Types.Temporal; validators, replays and projections read the ledger
-- through its reader. Refs point at receipt hashes. The index writes blobs and trees to the store and reads
-- them back; the store takes its ids from the hasher of Crypto.
--
-- Bounds and fuel: the building of a Merkle tree runs on fuel, the number of the leaves, since each round
-- makes a level of more than one node shorter; recovery of a log runs on the length of its file, since
-- each round reads at least a header; a search of the graph runs on the number of the ends of its edges
-- and one more, since an id is queued once; an integer of 64 bits is encoded in ten rounds of seven. The sequence numbers (u64) and list lengths (usize)
-- count things in memory and are natural numbers without a bound; the counters of the time stamps are u32
-- with their wrap or saturation written out.
--
-- Not modelled: printing, logging, elapsed times, serde encodings, UUID and key generation, and the
-- crates wll-protocol, wll-sdk, wll-server, wll-cli and wll-merge; the events and the subscribers of
-- wll-fabric, failures of its files and the modes of syncing them; the signer of wll-crypto; the
-- receipt and snapshot objects of wll-store; trees and blobs in wll-diff; refspecs and remotes in wll-
-- sync; pack files and the bytes of their index in wll-pack; the topological order and the bytes of wll-dag. Texts
-- of errors are data with the numbers and names that they print. A lock is a flag that says whether it
-- is poisoned; interleavings are the orders of whole method calls. The iteration order of a HashMap is
-- the order of insertion.
pub mod Base
pub mod Types
pub mod Crypto
pub mod Fabric
pub mod Ledger
pub mod Refs
pub mod Gate
pub mod Dag
pub mod Store
pub mod Index
pub mod Diff
pub mod Sync
pub mod Pack
