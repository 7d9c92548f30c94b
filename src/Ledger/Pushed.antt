-- ===== src/Ledger/Pushed.antt =====
-- crates/wll-ledger/src/memory.rs: a receipt for the end of a stream, and the state after it is pushed.
use wll.Base.{
  ℕ, ◌+◌, ◌≡◌, refl, sym, true, ◌==◌, eq_nat, eq_option, nat_eq_iff, [], ◌∷◌, ◌++◌, some,
  if◌then◌else◌, length, get_elem?, arith, Bool-cases, inl, inr, ◌⊎◌, get_elem?-append_left,
  get_elem?-append_last, get_elem?-append_cases,
}
use wll.Base.Maps
use wll.Base.Maps.{get-insert, contains_key-get}
use wll.Types.Commitment.{Hash, WorldlineId}
use wll.Ledger.Codec.{Codec}
use wll.Ledger.Records.{
  Receipt, commitment, outcome, snapshot, worldline, seq, prev_hash, receipt_hash, set_receipt_hash,
}
use wll.Ledger.Memory.{LedgerState, stream_of, last_hash, entry_or_default, push_receipt}
use wll.Ledger.Validation.{is_attributed, is_anchored}
use wll.Ledger.Scan.{scan}

module _ {V : Type 0} where
  -- `r` is built for the end of the stream of `w`; its own hash is still open.
  pub record Fits (s : LedgerState V) (w : WorldlineId) (r : Receipt V) : Type 0 where
    pub belongs : worldline r ≡ w
    pub next_seq : seq r ≡ length (stream_of w s) + 1
    pub linked : prev_hash r ≡ last_hash (stream_of w s)
    pub attributed : (h : Hash) → is_attributed (scan (stream_of w s)) (set_receipt_hash h r) ≡ true
    pub anchored : (h : Hash) → is_anchored (scan (stream_of w s)) (set_receipt_hash h r) ≡ true

  pub worldline-set_receipt_hash :
      (h : Hash) (r : Receipt V) → worldline (set_receipt_hash h r) ≡ worldline r
  worldline-set_receipt_hash h (commitment r) = refl
  worldline-set_receipt_hash h (outcome r) = refl
  worldline-set_receipt_hash h (snapshot r) = refl

  pub seq-set_receipt_hash : (h : Hash) (r : Receipt V) → seq (set_receipt_hash h r) ≡ seq r
  seq-set_receipt_hash h (commitment r) = refl
  seq-set_receipt_hash h (outcome r) = refl
  seq-set_receipt_hash h (snapshot r) = refl

  pub prev_hash-set_receipt_hash :
      (h : Hash) (r : Receipt V) → prev_hash (set_receipt_hash h r) ≡ prev_hash r
  prev_hash-set_receipt_hash h (commitment r) = refl
  prev_hash-set_receipt_hash h (outcome r) = refl
  prev_hash-set_receipt_hash h (snapshot r) = refl

  pub receipt_hash-set_receipt_hash :
      (h : Hash) (r : Receipt V) → receipt_hash (set_receipt_hash h r) ≡ h
  receipt_hash-set_receipt_hash h (commitment r) = refl
  receipt_hash-set_receipt_hash h (outcome r) = refl
  receipt_hash-set_receipt_hash h (snapshot r) = refl

  pub stream_of-entry_or_default :
      (w v : WorldlineId) (s : LedgerState V) → stream_of v (entry_or_default w s) ≡ stream_of v s
  unfolding entry_or_default
  stream_of-entry_or_default w v s =
      ground (arith, get-insert w v (stream_of w s) s.streams, nat_eq_iff w v)

  pub stream_of-push_receipt :
      (codec : Codec V) (w v : WorldlineId) (r : Receipt V) (s : LedgerState V)
      → stream_of v (push_receipt codec w r s)
        ≡ (if w == v then stream_of w s ++ r ∷ [] else stream_of v s)
  unfolding push_receipt
  stream_of-push_receipt codec w v r s =
      ground (arith, get-insert w v (stream_of w s ++ r ∷ []) s.streams)

  pub hash_index-push_receipt :
      (codec : Codec V) (w : WorldlineId) (r : Receipt V) (s : LedgerState V) (h : Hash)
      → Maps.get h (push_receipt codec w r s).hash_index ≡ (
          if receipt_hash r == h then some (w, length (stream_of w s)) else Maps.get h s.hash_index)
  unfolding push_receipt
  hash_index-push_receipt codec w r s h =
      get-insert (receipt_hash r) h (w, length (stream_of w s)) s.hash_index

module _ {V : Type 0} (codec : Codec V) (s : LedgerState V) (w : WorldlineId) (r : Receipt V) where
  -- What a stream holds after a push: what it held, or the new receipt at the end of `w`.
  pub get_elem?-push_cases :
      (v : WorldlineId) (i : ℕ) (q : Receipt V)
      → get_elem? (stream_of v (push_receipt codec w r s)) i ≡ some q
      → (get_elem? (stream_of v s) i ≡ some q) ⊎ ((v ≡ w) × (i ≡ length (stream_of w s)) × (q ≡ r))
  get_elem?-push_cases v i q = elim (Bool-cases (w == v)) [
    | inl same ↦
        rw (stream_of-push_receipt, same)
          λ p.
            let e : w ≡ v = (nat_eq_iff w v).0 same in
            elim (get_elem?-append_cases (stream_of w s) r i q p) [
              | inl old ↦ inl (rw (← e) old)
              | inr new ↦ inr (sym e, new.0, new.1)
            ]
    | inr other ↦ rw (stream_of-push_receipt, other) λ p. inl p
  ]

  pub get_elem?-push_old :
      (v : WorldlineId) (i : ℕ) (q : Receipt V)
      → get_elem? (stream_of v s) i ≡ some q
      → get_elem? (stream_of v (push_receipt codec w r s)) i ≡ some q
  get_elem?-push_old v i q p = elim (Bool-cases (w == v)) [
    | inl same ↦
        rw (stream_of-push_receipt, same)
          (get_elem?-append_left (stream_of w s) (r ∷ []) i q (rw ((nat_eq_iff w v).0 same) p))
    | inr other ↦ rw (stream_of-push_receipt, other) p
  ]

  pub get_elem?-push_new :
      get_elem? (stream_of w (push_receipt codec w r s)) (length (stream_of w s)) ≡ some r
  get_elem?-push_new =
      rw (stream_of-push_receipt, (nat_eq_iff w w).1 refl) (get_elem?-append_last (stream_of w s) r)
