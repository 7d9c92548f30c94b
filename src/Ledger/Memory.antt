-- ===== src/Ledger/Memory.antt =====
-- crates/wll-ledger/src/memory.rs: the in-memory ledger and its writer. A method takes the lock for
-- its whole body, so it is one step from ledger to ledger; `now_ms` is the wall clock reading that it
-- makes. `u64` sequence numbers count the receipts of a `Vec` in memory, and do not wrap.
use wll.Base.{
  ℕ, ◌+◌, ◌==◌, not, min, eq_nat, eq_option, Bool, false, List, [], ◌∷◌, ◌++◌, Option, none, some,
  if◌then◌else◌, length, get_elem?, get_last?, ltb,
}
use wll.Base.Maps
use wll.Base.Maps.{HashMap}
use wll.Base.Result.{Result, ok, err, ok_or, fail_if}
use wll.Base.Exec.{Exec, pure, lift, gets, modify, ◌>>=◌, ◌>>◌}
use wll.Types.Temporal
use wll.Types.Temporal.{TemporalAnchor, u32_mod}
use wll.Types.Commitment.{Hash, WorldlineId}
use wll.Ledger.Codec.{Codec, recompute_receipt_hash}
use wll.Ledger.Records.{
  CommitmentReceipt, OutcomeReceipt, SnapshotReceipt, Receipt, commitment, outcome, snapshot, seq,
  prev_hash, receipt_hash, timestamp, set_receipt_hash, as_commitment, LedgerError,
  integrity_violation, missing_commitment_receipt, hash_collision, append_out_of_order,
  append_link_mismatch, lock_poisoned, unreachable,
}

pub record LedgerState (V : Type 0) : Type 0 where
  pub streams : HashMap WorldlineId (List (Receipt V))
  pub hash_index : HashMap Hash (WorldlineId × ℕ)

-- `poisoned`: a thread has panicked while it held the write lock.
pub record InMemoryLedger (V : Type 0) : Type 0 where
  pub node_id : ℕ
  pub poisoned : Bool
  pub inner : LedgerState V

abbrev pub new : {V : Type 0} → ℕ → InMemoryLedger V
new node_id = record {
  node_id = node_id;
  poisoned = false;
  inner = record { streams = []; hash_index = [] };
}

module _ {V : Type 0} where
  -- `streams.get(w).cloned().unwrap_or_default()`
  unfoldable pub stream_of : WorldlineId → LedgerState V → List (Receipt V)
  stream_of w s = elim (Maps.get w s.streams) [ none ↦ [] | some stream ↦ stream ]

  -- `stream.last().map(Receipt::receipt_hash)`
  abbrev pub last_hash : List (Receipt V) → Option Hash
  last_hash stream = elim (get_last? stream) [ none ↦ none | some r ↦ some (receipt_hash r) ]

  -- `self.inner.write()`
  unfoldable pub write_lock :
      {A : Type 0} → Exec (LedgerState V) LedgerError A → Exec (InMemoryLedger V) LedgerError A
  write_lock body l =
      if l.poisoned
      then (err (integrity_violation 0 lock_poisoned), l)
      else ((body l.inner).0, record l { inner = (body l.inner).1 })

  unfoldable pub next_anchor : ℕ → Option (Receipt V) → ℕ → TemporalAnchor
  next_anchor now_ms none node_id = Temporal.now now_ms node_id
  next_anchor now_ms (some previous) node_id =
      let prev : TemporalAnchor = timestamp previous in
      if ltb prev.physical_ms now_ms
      then Temporal.new now_ms 0 node_id
      else Temporal.new prev.physical_ms (min (prev.logical + 1) 4294967295) node_id

  -- sequence number, previous hash and time stamp of the next receipt of a stream
  unfoldable pub stream_position :
      ℕ → WorldlineId → ℕ → LedgerState V → ℕ × Option Hash × TemporalAnchor
  unfolding next_anchor
  stream_position now_ms w node_id s =
      let stream : List (Receipt V) = stream_of w s in
      (length stream + 1, last_hash stream, next_anchor now_ms (get_last? stream) node_id)

  unfoldable pub find_commitment_by_hash :
      Hash → LedgerState V → Result LedgerError CommitmentReceipt
  find_commitment_by_hash h s = elim (Maps.get h s.hash_index) [
    | none ↦ err missing_commitment_receipt
    | some (w, index) ↦ elim (Maps.get w s.streams) [
      | none ↦ err missing_commitment_receipt
      | some stream ↦ elim (get_elem? stream index) [
        | none ↦ err missing_commitment_receipt
        | some r ↦ ok_or (as_commitment r) missing_commitment_receipt
      ]
    ]
  ]

  -- `streams.entry(w).or_default()`
  unfoldable pub entry_or_default : WorldlineId → LedgerState V → LedgerState V
  unfolding stream_of
  entry_or_default w s = record s { streams = Maps.insert w (stream_of w s) s.streams }

module _ {V : Type 0} (codec : Codec V) where
  -- `stream.push(receipt)`, and the entry of the hash index that finds it
  unfoldable pub push_receipt : WorldlineId → Receipt V → LedgerState V → LedgerState V
  unfolding stream_of
  push_receipt w r s = record {
    streams = Maps.insert w (stream_of w s ++ r ∷ []) s.streams;
    hash_index = Maps.insert (receipt_hash r) (w, length (stream_of w s)) s.hash_index;
  }

  unfoldable pub append_receipt :
      WorldlineId → Receipt V → Exec (LedgerState V) LedgerError (Receipt V)
  append_receipt w r = do
    modify (entry_or_default w)
    stream ← gets (stream_of w)
    let expected_seq = length stream + 1
    lift (
        fail_if (not (seq r == expected_seq))
          (integrity_violation (seq r) (append_out_of_order expected_seq)))
    let expected_prev = last_hash stream
    lift (
        fail_if (not (prev_hash r == expected_prev))
          (integrity_violation (seq r) append_link_mismatch))
    h ← lift (recompute_receipt_hash codec r)
    index ← gets (λ s. s.hash_index)
    lift (fail_if (Maps.contains_key h index) hash_collision)
    modify (push_receipt w (set_receipt_hash h r))
    pure (set_receipt_hash h r)

module _ {V : Type 0} where
  -- `match receipt { Receipt::Commitment(c) => Ok(c), _ => unreachable!() }`, and its two like
  abbrev pub expect_commitment : Receipt V → Result LedgerError CommitmentReceipt
  expect_commitment (commitment c) = ok c
  expect_commitment _ = err (integrity_violation 0 unreachable)

  abbrev pub expect_outcome : Receipt V → Result LedgerError (OutcomeReceipt V)
  expect_outcome (outcome o) = ok o
  expect_outcome _ = err (integrity_violation 0 unreachable)

  abbrev pub expect_snapshot : Receipt V → Result LedgerError (SnapshotReceipt V)
  expect_snapshot (snapshot s) = ok s
  expect_snapshot _ = err (integrity_violation 0 unreachable)
