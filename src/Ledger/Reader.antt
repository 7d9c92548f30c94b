-- ===== src/Ledger/Reader.antt =====
-- crates/wll-ledger/src/memory.rs, `impl LedgerReader for InMemoryLedger`, and
-- crates/wll-ledger/src/traits.rs: the queries.
use wll.Base.{
  ℕ, ◌-◌, ◌==◌, ◌||◌, min, eq_nat, List, [], Option, none, some, if◌then◌else◌, length, get_elem?,
  get_last?, take, drop, ltb, leb,
}
use wll.Base.Maps
use wll.Base.Sort.{sort_by}
use wll.Base.Result.{Result, ok, err}
use wll.Types.Commitment.{Hash, WorldlineId, short_id}
use wll.Ledger.Memory.{LedgerState, InMemoryLedger, stream_of}
use wll.Ledger.Records.{
  Receipt, ReceiptRef, receipt_ref, LedgerError, integrity_violation, invalid_range, lock_poisoned,
}

module _ {V : Type 0} where
  -- `self.inner.read()`
  unfoldable pub read_lock :
      {A : Type 0} → (LedgerState V → A) → InMemoryLedger V → Result LedgerError A
  read_lock body l =
      if l.poisoned then err (integrity_violation 0 lock_poisoned) else ok (body l.inner)

  unfoldable pub head : WorldlineId → InMemoryLedger V → Result LedgerError (Option ReceiptRef)
  unfolding read_lock
  head w = read_lock λ s. elim (Maps.get w s.streams) [
    | none ↦ none
    | some stream ↦ elim (get_last? stream) [ none ↦ none | some r ↦ some (receipt_ref r) ]
  ]

  -- `stream[start..end_exclusive]`, from the sequence numbers
  unfoldable pub slice_range : ℕ → ℕ → List (Receipt V) → List (Receipt V)
  slice_range from_seq to_seq stream =
      let start : ℕ = from_seq - 1 in
      if leb (length stream) start
      then []
      else take (min to_seq (length stream) - start) (drop start stream)

  unfoldable pub read_range :
      WorldlineId → ℕ → ℕ → InMemoryLedger V → Result LedgerError (List (Receipt V))
  unfolding read_lock
  read_range w from_seq to_seq l =
      if from_seq == 0 || to_seq == 0 || ltb to_seq from_seq
      then err (invalid_range from_seq to_seq)
      else read_lock
          (λ s. elim (Maps.get w s.streams) [
            | none ↦ []
            | some stream ↦ slice_range from_seq to_seq stream
          ])
          l

  unfoldable pub read_all : WorldlineId → InMemoryLedger V → Result LedgerError (List (Receipt V))
  unfolding read_lock
  read_all w = read_lock (stream_of w)

  unfoldable pub get_by_hash : Hash → InMemoryLedger V → Result LedgerError (Option (Receipt V))
  unfolding read_lock
  get_by_hash h = read_lock λ s. elim (Maps.get h s.hash_index) [
    | none ↦ none
    | some (w, index) ↦ elim (Maps.get w s.streams) [
      | none ↦ none
      | some stream ↦ get_elem? stream index
    ]
  ]

  unfoldable pub worldlines : InMemoryLedger V → Result LedgerError (List WorldlineId)
  unfolding read_lock sort_by
  worldlines = read_lock λ s. sort_by (λ a b. leb (short_id a) (short_id b)) (Maps.keys s.streams)

  unfoldable pub receipt_count : WorldlineId → InMemoryLedger V → Result LedgerError ℕ
  unfolding read_lock
  receipt_count w =
      read_lock λ s. elim (Maps.get w s.streams) [ none ↦ 0 | some stream ↦ length stream ]
