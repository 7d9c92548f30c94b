-- ===== src/Sync/Verifier/Streams.antt =====
-- crates/wll-sync/src/verifier.rs with crates/wll-ledger/src/memory.rs: a stream of the ledger that is
-- sent as a whole passes the check at the other end.
use wll.Base.{
  ap, ℕ, ◌+◌, suc, zero, ◌≡◌, refl, sym, ◌⊎◌, inl, inr, true, List, [], ◌∷◌, none, some, length,
  get_elem?, eq_nat, eq_option, nat_eq_iff, option_eq_iff, arith,
}
use wll.Base.Result.{ok, Result-cases, ok_inj}
use wll.Types.Commitment.{WorldlineId}
use wll.Ledger.Codec.{Codec}
use wll.Ledger.Records.{Receipt, worldline, seq, prev_hash}
use wll.Ledger.Memory.{new, stream_of}
use wll.Ledger.Reader.{read_all}
use wll.Ledger.Validation.{Seen, unseen, note, check_receipt, check_receipts}
use wll.Ledger.Run.{Call, run, run-Grows, run-poisoned, new-IsValid}
use wll.Ledger.Integrity.{read_all-healthy}
use wll.Sync.Verifier.{
  Checked, unchecked, check_seq, check_received, check_all, verify_received_receipts,
}

module _ {V : Type 0} (codec : Codec V) where
  -- What the ledger's own check has asked of a receipt that it passes.
  passed :
      (v v' : Seen) (r : Receipt V)
      → check_receipt codec v r ≡ ok v'
      → (seq r ≡ v.index + 1) × (prev_hash r ≡ v.prev) × (v' ≡ note v r)
  unfolding check_receipt
  passed v v' r h = ground (arith, option_eq_iff (prev_hash r) v.prev, h)

  -- The check at the other end has seen what the ledger's check has seen, and found nothing.
  record IsAgreed (v : Seen) (c : Checked) : Type 0 where
    same_hash : c.last_hash ≡ v.prev
    same_seq : (c.last_seq ≡ none) ⊎ (c.last_seq ≡ some v.index)
    clean : c.violations ≡ []

  check_received-IsAgreed :
      (w : WorldlineId) (v v' : Seen) (c : Checked) (r : Receipt V)
      → check_receipt codec v r ≡ ok v'
      → worldline r ≡ w
      → IsAgreed v c
      → IsAgreed v' (check_received w c r)
  unfolding check_received check_seq note
  check_received-IsAgreed w v v' c r h own a =
      let (next, linked, noted) = passed v v' r h in
      rw noted record {
        same_hash = refl;
        same_seq = inr (ap some next);
        clean = ground (
          arith,
          a.clean,
          a.same_seq,
          a.same_hash,
          next,
          linked,
          own,
          nat_eq_iff (worldline r) w,
          nat_eq_iff (seq r) (v.index + 1),
          option_eq_iff (prev_hash r) c.last_hash,
        );
      }

  check_all-IsAgreed :
      (w : WorldlineId) (rs : List (Receipt V)) (v v' : Seen) (c : Checked)
      → check_receipts codec v rs ≡ ok v'
      → ((i : ℕ) (r : Receipt V) → get_elem? rs i ≡ some r → worldline r ≡ w)
      → IsAgreed v c
      → IsAgreed v' (check_all w c rs)
  unfolding check_all check_receipts
  check_all-IsAgreed w [] v v' c h own a = rw (sym (ok_inj h)) a
  check_all-IsAgreed w (r ∷ rs) v v' c h own a = elim (Result-cases (check_receipt codec v r)) [
    | inr (x, e) ↦ ground (arith, rw e at h)
    | inl (u, e) ↦
        check_all-IsAgreed w rs u v' (check_received w c r) (rw e at h) (λ i s at. own (suc i) s at)
          (check_received-IsAgreed w v u c r e (own zero r refl) a)
  ]

  -- After any writer calls on a new ledger, the whole stream of a worldline can be read, and the
  -- check of received receipts passes all of it: it counts every receipt and finds no violation.
  pub verify_received_receipts-run :
      (node_id : ℕ) (calls : List (Call V)) (w : WorldlineId)
      → (rs : List (Receipt V)) × (read_all w (run codec calls (new node_id)) ≡ ok rs)
        × (verify_received_receipts rs w ≡ record {
          worldline = w;
          receipts_verified = length rs;
          chain_valid = true;
          violations = [];
        })
  unfolding verify_received_receipts
  verify_received_receipts-run node_id calls w =
      let l = run codec calls (new node_id) in
      let valid = (run-Grows codec calls (new node_id) (new-IsValid codec node_id)).valid in
      let agreed =
        check_all-IsAgreed w (stream_of w l.inner) unseen _ unchecked (valid.checked w)
          (valid.owned w) record { same_hash = refl; same_seq = inl refl; clean = refl } in
      (
        stream_of w l.inner,
        read_all-healthy w l (run-poisoned codec calls (new node_id)),
        rw agreed.clean refl,
      )
