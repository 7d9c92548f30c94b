-- ===== src/Ledger/Append.antt =====
-- crates/wll-ledger/src/memory.rs: `append_receipt` of a receipt that fits the end of its stream.
use wll.Base.{
  ◌+◌, ◌≡◌, refl, inl, inr, eq_nat, eq_option, option_eq_iff, if◌then◌else◌, length, arith,
  Bool-cases,
}
use wll.Base.Maps
use wll.Base.Result.{Result, ok, err}
use wll.Types.Commitment.{Hash, WorldlineId}
use wll.Ledger.Codec.{Codec, recompute_receipt_hash}
use wll.Ledger.Records.{Receipt, LedgerError, hash_collision, set_receipt_hash, seq, prev_hash}
use wll.Ledger.Memory.{
  LedgerState, stream_of, last_hash, entry_or_default, push_receipt, append_receipt,
}
use wll.Ledger.Invariant.{
  IsValid, entry_or_default-Fits, entry_or_default-IsValid, push_receipt-IsValid,
}
use wll.Ledger.Pushed.{Fits}

module _ {V : Type 0} (codec : Codec V) where
  unfoldable pub append_result :
      Result LedgerError Hash
      → WorldlineId
      → Receipt V
      → LedgerState V
      → Result LedgerError (Receipt V) × LedgerState V
  append_result (err e) w r s = (err e, s)
  append_result (ok h) w r s =
      if Maps.contains_key h s.hash_index
      then (err hash_collision, s)
      else (ok (set_receipt_hash h r), push_receipt codec w (set_receipt_hash h r) s)

  append_touched :
      (w : WorldlineId) (r : Receipt V) (s : LedgerState V)
      → seq r ≡ length (stream_of w (entry_or_default w s)) + 1
      → prev_hash r ≡ last_hash (stream_of w (entry_or_default w s))
      → append_receipt codec w r s
        ≡ append_result (recompute_receipt_hash codec r) w r (entry_or_default w s)
  unfolding append_receipt append_result
  append_touched w r s p q =
      ground (arith, option_eq_iff (prev_hash r) (last_hash (stream_of w (entry_or_default w s))))

  pub append_receipt_lem :
      (w : WorldlineId) (r : Receipt V) (s : LedgerState V)
      → Fits s w r
      → append_receipt codec w r s
        ≡ append_result (recompute_receipt_hash codec r) w r (entry_or_default w s)
  append_receipt_lem w r s fits =
      let f : Fits (entry_or_default w s) w r = entry_or_default-Fits codec w s r fits in
      append_touched w r s f.next_seq f.linked

  append_result-IsValid :
      (m : Result LedgerError Hash) (w : WorldlineId) (r : Receipt V) (s : LedgerState V)
      → recompute_receipt_hash codec r ≡ m
      → IsValid codec s
      → Fits s w r
      → IsValid codec (append_result m w r s).1
  unfolding append_result
  append_result-IsValid (err e) w r s p valid fits = valid
  append_result-IsValid (ok h) w r s p valid fits =
      elim (Bool-cases (Maps.contains_key h s.hash_index)) [
        | inl known ↦ rw known valid
        | inr fresh ↦ rw fresh (push_receipt-IsValid codec s w r h valid fits p fresh)
      ]

  -- Whatever comes of it, the ledger stays valid.
  pub append_receipt-IsValid :
      (w : WorldlineId) (r : Receipt V) (s : LedgerState V)
      → IsValid codec s
      → Fits s w r
      → IsValid codec (append_receipt codec w r s).1
  append_receipt-IsValid w r s valid fits = rw (append_receipt_lem w r s fits) (
      append_result-IsValid (recompute_receipt_hash codec r) w r (entry_or_default w s) refl
        (entry_or_default-IsValid codec w s valid) (entry_or_default-Fits codec w s r fits))
