-- ===== src/Ledger/Invariant.antt =====
-- crates/wll-ledger/src/memory.rs: the invariant of the state. Each stream passes the checks of the
-- validator and belongs to its worldline, and the hash index lists the receipts of the streams.
use wll.Base.{
  ℕ, ◌+◌, ◌≡◌, refl, ◌∙◌, ap, true, false, ◌==◌, eq_nat, eq_option, nat_eq_iff, option_eq_iff, List,
  [], ◌∷◌, ◌++◌, some, get_elem?, arith, Bool-cases, inl, inr,
}
use wll.Base.Maps
use wll.Base.Maps.{get-insert, contains_key-get}
use wll.Base.Result.{ok, err, ◌>>=◌}
use wll.Types.Commitment.{Hash, WorldlineId}
use wll.Ledger.Codec.{Codec, recompute_receipt_hash}
use wll.Ledger.Records.{
  Receipt, commitment, outcome, snapshot, worldline, seq, prev_hash, receipt_hash, set_receipt_hash,
}
use wll.Ledger.Memory.{LedgerState, stream_of, entry_or_default, push_receipt}
use wll.Ledger.Validation.{
  Seen, unseen, note, is_attributed, is_anchored, check_receipt, check_receipts,
}
use wll.Ledger.Scan.{scan, scan-append, index-scan, prev-scan}
use wll.Ledger.Pushed.{
  Fits, worldline-set_receipt_hash, seq-set_receipt_hash, prev_hash-set_receipt_hash,
  receipt_hash-set_receipt_hash, stream_of-entry_or_default, stream_of-push_receipt,
  hash_index-push_receipt, get_elem?-push_cases, get_elem?-push_old, get_elem?-push_new,
}

module _ {V : Type 0} (codec : Codec V) where
  pub record IsValid (s : LedgerState V) : Type 0 where
    pub checked :
        (w : WorldlineId) → check_receipts codec unseen (stream_of w s) ≡ ok (scan (stream_of w s))
    pub owned :
        (w : WorldlineId) (i : ℕ) (r : Receipt V)
        → get_elem? (stream_of w s) i ≡ some r
        → worldline r ≡ w
    pub indexed :
        (h : Hash) (w : WorldlineId) (i : ℕ)
        → Maps.get h s.hash_index ≡ some (w, i)
        → (r : Receipt V) × (get_elem? (stream_of w s) i ≡ some r) × (receipt_hash r ≡ h)
    pub recorded :
        (w : WorldlineId) (i : ℕ) (r : Receipt V)
        → get_elem? (stream_of w s) i ≡ some r
        → Maps.get (receipt_hash r) s.hash_index ≡ some (w, i)

module _ {V : Type 0} (codec : Codec V) where
  pub recompute-set_receipt_hash :
      (h : Hash) (r : Receipt V)
      → recompute_receipt_hash codec (set_receipt_hash h r) ≡ recompute_receipt_hash codec r
  unfolding recompute_receipt_hash
  recompute-set_receipt_hash h (commitment r) = refl
  recompute-set_receipt_hash h (outcome r) = refl
  recompute-set_receipt_hash h (snapshot r) = refl

  pub check_receipts-append :
      (s : Seen) (xs : List (Receipt V)) (r : Receipt V)
      → check_receipts codec s (xs ++ r ∷ [])
        ≡ (check_receipts codec s xs >>= λ s'. check_receipt codec s' r)
  unfolding check_receipts
  check_receipts-append s [] r = elim (check_receipt codec s r) as (λ m. (m >>= λ s'. ok s') ≡ m) [
    | ok a ↦ refl
    | err e ↦ refl
  ]
  check_receipts-append s (x ∷ xs) r =
      elim (check_receipt codec s x)
        as (λ m.
          (m >>= λ s'. check_receipts codec s' (xs ++ r ∷ []))
          ≡ ((m >>= λ s'. check_receipts codec s' xs) >>= λ s'. check_receipt codec s' r)) [
            | ok a ↦ check_receipts-append a xs r
            | err e ↦ refl
          ]

  pub check_receipt_ok :
      (v : Seen) (r : Receipt V)
      → seq r ≡ v.index + 1
      → prev_hash r ≡ v.prev
      → recompute_receipt_hash codec r ≡ ok (receipt_hash r)
      → is_attributed v r ≡ true
      → is_anchored v r ≡ true
      → check_receipt codec v r ≡ ok (note v r)
  unfolding check_receipt
  check_receipt_ok v r p q e a b = ground (arith, option_eq_iff (prev_hash r) v.prev)

  -- A receipt that fits, with the hash that is computed for it, passes the check.
  pub check_receipt-Fits :
      (s : LedgerState V) (w : WorldlineId) (r : Receipt V) (h : Hash)
      → Fits s w r
      → recompute_receipt_hash codec r ≡ ok h
      → check_receipt codec (scan (stream_of w s)) (set_receipt_hash h r)
        ≡ ok (note (scan (stream_of w s)) (set_receipt_hash h r))
  check_receipt-Fits s w r h f e =
      let xs : List (Receipt V) = stream_of w s in
      check_receipt_ok (scan xs) (set_receipt_hash h r)
        (omega (arith, seq-set_receipt_hash h r, index-scan xs, f.next_seq))
        (cc (prev_hash-set_receipt_hash h r, prev-scan xs, f.linked))
        (cc (recompute-set_receipt_hash h r, receipt_hash-set_receipt_hash h r, e)) (f.attributed h)
        (f.anchored h)

  module _ (s : LedgerState V) (w : WorldlineId) (r : Receipt V) (h : Hash) where
    push-checked :
        IsValid codec s
        → Fits s w r
        → recompute_receipt_hash codec r ≡ ok h
        → (v : WorldlineId)
        → check_receipts codec unseen (stream_of v (push_receipt codec w (set_receipt_hash h r) s))
          ≡ ok (scan (stream_of v (push_receipt codec w (set_receipt_hash h r) s)))
    push-checked valid fits e v = elim (Bool-cases (w == v)) [
      | inl same ↦
          rw (stream_of-push_receipt, same, check_receipts-append, scan-append, valid.checked w)
            (check_receipt-Fits s w r h fits e)
      | inr other ↦ rw (stream_of-push_receipt, other) (valid.checked v)
    ]

    push-owned :
        IsValid codec s
        → Fits s w r
        → (v : WorldlineId) (i : ℕ) (q : Receipt V)
        → get_elem? (stream_of v (push_receipt codec w (set_receipt_hash h r) s)) i ≡ some q
        → worldline q ≡ v
    push-owned valid fits v i q p =
        elim (get_elem?-push_cases codec s w (set_receipt_hash h r) v i q p) [
          | inl old ↦ valid.owned v i q old
          | inr new ↦
              cc (new.0, ap (worldline {V = V}) new.2, worldline-set_receipt_hash h r, fits.belongs)
        ]

    push-indexed :
        IsValid codec s
        → (g : Hash) (v : WorldlineId) (i : ℕ)
        → Maps.get g (push_receipt codec w (set_receipt_hash h r) s).hash_index ≡ some (v, i)
        → (q : Receipt V) × (get_elem?
              (stream_of v (push_receipt codec w (set_receipt_hash h r) s))
              i
            ≡ some q)
          × (receipt_hash q ≡ g)
    push-indexed valid g v i = elim (Bool-cases (h == g)) [
      | inl same ↦
          rw (hash_index-push_receipt, receipt_hash-set_receipt_hash, same)
            λ e. (
              set_receipt_hash h r,
              ground (arith, get_elem?-push_new codec s w (set_receipt_hash h r)),
              receipt_hash-set_receipt_hash h r ∙ (nat_eq_iff h g).0 same,
            )
      | inr other ↦
          rw (hash_index-push_receipt, receipt_hash-set_receipt_hash, other)
            λ e.
              let (q, p, k) = valid.indexed g v i e in
              (q, get_elem?-push_old codec s w (set_receipt_hash h r) v i q p, k)
    ]

    push-recorded :
        IsValid codec s
        → Maps.contains_key h s.hash_index ≡ false
        → (v : WorldlineId) (i : ℕ) (q : Receipt V)
        → get_elem? (stream_of v (push_receipt codec w (set_receipt_hash h r) s)) i ≡ some q
        → Maps.get (receipt_hash q) (push_receipt codec w (set_receipt_hash h r) s).hash_index
          ≡ some (v, i)
    push-recorded valid fresh v i q p =
        rw (hash_index-push_receipt, receipt_hash-set_receipt_hash)
          (elim (get_elem?-push_cases codec s w (set_receipt_hash h r) v i q p) [
            | inl old ↦ ground (arith, valid.recorded v i q old, contains_key-get h s.hash_index)
            | inr new ↦ ground (
              arith,
              ap (receipt_hash {V = V}) new.2,
              receipt_hash-set_receipt_hash h r,
              nat_eq_iff h (receipt_hash q),
            )
          ])

    pub push_receipt-IsValid :
        IsValid codec s
        → Fits s w r
        → recompute_receipt_hash codec r ≡ ok h
        → Maps.contains_key h s.hash_index ≡ false
        → IsValid codec (push_receipt codec w (set_receipt_hash h r) s)
    push_receipt-IsValid valid fits e fresh = record {
      checked = push-checked valid fits e;
      owned = push-owned valid fits;
      indexed = push-indexed valid;
      recorded = push-recorded valid fresh;
    }

  hash_index-entry_or_default :
      (w : WorldlineId) (s : LedgerState V) → (entry_or_default w s).hash_index ≡ s.hash_index
  unfolding entry_or_default
  hash_index-entry_or_default w s = refl

  -- An empty stream more, or less, does not matter.
  pub entry_or_default-IsValid :
      (w : WorldlineId) (s : LedgerState V) → IsValid codec s → IsValid codec (entry_or_default w s)
  entry_or_default-IsValid w s valid = record {
    checked = λ v. rw stream_of-entry_or_default (valid.checked v);
    owned = λ v i r. rw stream_of-entry_or_default (valid.owned v i r);
    indexed =
        λ g v i. rw (stream_of-entry_or_default, hash_index-entry_or_default) (valid.indexed g v i);
    recorded = λ v i r.
        rw (stream_of-entry_or_default, hash_index-entry_or_default) (valid.recorded v i r);
  }

  pub entry_or_default-Fits :
      (w : WorldlineId) (s : LedgerState V) (r : Receipt V)
      → Fits s w r
      → Fits (entry_or_default w s) w r
  entry_or_default-Fits w s r fits = record {
    belongs = fits.belongs;
    next_seq = rw stream_of-entry_or_default fits.next_seq;
    linked = rw stream_of-entry_or_default fits.linked;
    attributed = λ h. rw stream_of-entry_or_default (fits.attributed h);
    anchored = λ h. rw stream_of-entry_or_default (fits.anchored h);
  }
