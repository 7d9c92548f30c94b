-- ===== src/Ledger/Lookup.antt =====
-- crates/wll-ledger/src/memory.rs: queries by hash and by range.
use wll.Base.{
  ℕ, zero, suc, ◌+◌, ◌-◌, ◌≤◌, ◌<◌, min, ◌≡◌, ◌↔◌, refl, ap, ◌∙◌, sym, subst, false, inl, inr, List,
  [], ◌∷◌, none, some, get_elem?, length, take, drop, arith, Bool-cases, Option-cases, eq_nat,
  if◌then◌else◌, ltb, leb,
}
use native.Mathlib.Nat.{zero-add, suc-add}
use wll.Base.Maps
use wll.Base.Result.{ok}
use wll.Types.Commitment.{Hash, WorldlineId}
use wll.Ledger.Codec.{Codec}
use wll.Ledger.Records.{Receipt, receipt_hash, worldline}
use wll.Ledger.Memory.{InMemoryLedger, new, stream_of}
use wll.Ledger.Reader.{read_all, read_range, slice_range, get_by_hash}
use wll.Ledger.Invariant.{IsValid}
use wll.Ledger.Integrity.{read_all-healthy}
use wll.Ledger.Run.{Call, run, run-Grows, run-poisoned, new-IsValid}

module _ {V : Type 0} where
  get_by_hash-stream_of :
      (h : Hash) (l : InMemoryLedger V) (w : WorldlineId) (i : ℕ)
      → l.poisoned ≡ false
      → Maps.get h l.inner.hash_index ≡ some (w, i)
      → get_by_hash h l ≡ ok (get_elem? (stream_of w l.inner) i)
  unfolding get_by_hash stream_of
  get_by_hash-stream_of h l w i k e = ground arith

  get_by_hash-none :
      (h : Hash) (l : InMemoryLedger V)
      → l.poisoned ≡ false
      → Maps.get h l.inner.hash_index ≡ none
      → get_by_hash h l ≡ ok none
  unfolding get_by_hash
  get_by_hash-none h l k e = ground arith

module _ {V : Type 0} (codec : Codec V) (l : InMemoryLedger V) (healthy : l.poisoned ≡ false)
    (valid : IsValid codec l.inner) where
  get_by_hash-at :
      (w : WorldlineId) (i : ℕ) (r : Receipt V)
      → get_elem? (stream_of w l.inner) i ≡ some r
      → get_by_hash (receipt_hash r) l ≡ ok (some r)
  get_by_hash-at w i r p =
      rw (get_by_hash-stream_of (receipt_hash r) l w i healthy (valid.recorded w i r p), p)

  get_by_hash-found :
      (h : Hash) (r : Receipt V)
      → get_by_hash h l ≡ ok (some r)
      → (i : ℕ) × (get_elem? (stream_of (worldline r) l.inner) i ≡ some r) × (receipt_hash r ≡ h)
  get_by_hash-found h r e = elim (Option-cases (Maps.get h l.inner.hash_index)) [
    | inl missing ↦ absurd (ground (arith, get_by_hash-none h l healthy missing))
    | inr ((w, i), q) ↦
        let (r', p, k) = valid.indexed h w i q in
        let same : r' ≡ r = ground (arith, get_by_hash-stream_of h l w i healthy q) in
        let here : get_elem? (stream_of w l.inner) i ≡ some r = cc in
        (
          i,
          subst (λ v. get_elem? (stream_of v l.inner) i ≡ some r) (sym (valid.owned w i r here))
              here,
          sym (ap (receipt_hash {V = V}) same) ∙ k,
        )
  ]

-- After any calls of a new ledger's writer, a lookup by hash finds a receipt exactly if it stands in
-- the stream of its own worldline and has that hash.
pub get_by_hash-run :
    {V : Type 0} (codec : Codec V) (node_id : ℕ) (calls : List (Call V)) (h : Hash) (r : Receipt V)
    → (get_by_hash h (run codec calls (new node_id)) ≡ ok (some r)) ↔ (
        (i : ℕ) × (rs : List (Receipt V)) × (read_all (worldline r) (run codec calls (new node_id))
          ≡ ok rs)
        × (get_elem? rs i ≡ some r)
        × (receipt_hash r ≡ h))
get_by_hash-run {V} codec node_id calls h r =
    let l : InMemoryLedger V = run codec calls (new node_id) in
    let healthy : l.poisoned ≡ false = run-poisoned codec calls (new node_id) in
    let valid = (run-Grows codec calls (new node_id) (new-IsValid codec node_id)).valid in
    (
      λ e.
          let (i, p, k) = get_by_hash-found codec l healthy valid h r e in
          (i, stream_of (worldline r) l.inner, read_all-healthy (worldline r) l healthy, p, k),
      λ (i, rs, e, p, k).
          let same : rs ≡ stream_of (worldline r) l.inner =
            ground (arith, read_all-healthy (worldline r) l healthy) in
          subst (λ g. get_by_hash g l ≡ ok (some r)) k
            (get_by_hash-at codec l healthy valid (worldline r) i r
              (subst (λ xs. get_elem? xs i ≡ some r) same p)),
    )

module _ {A : Type 0} where
  get_elem?-take : (n i : ℕ) (xs : List A) → i < n → get_elem? (take n xs) i ≡ get_elem? xs i
  get_elem?-take zero i xs h = absurd (omega arith)
  get_elem?-take (suc n) i [] h = refl
  get_elem?-take (suc n) zero (x ∷ xs) h = refl
  get_elem?-take (suc n) (suc i) (x ∷ xs) h = get_elem?-take n i xs (omega arith)

  get_elem?-take_out : (n i : ℕ) (xs : List A) → n ≤ i → get_elem? (take n xs) i ≡ none
  get_elem?-take_out zero i xs h = refl
  get_elem?-take_out (suc n) i [] h = refl
  get_elem?-take_out (suc n) zero (x ∷ xs) h = absurd (omega arith)
  get_elem?-take_out (suc n) (suc i) (x ∷ xs) h = get_elem?-take_out n i xs (omega arith)

  get_elem?-drop : (n i : ℕ) (xs : List A) → get_elem? (drop n xs) i ≡ get_elem? xs (n + i)
  get_elem?-drop zero i xs = rw zero-add
  get_elem?-drop (suc n) i [] = refl
  get_elem?-drop (suc n) i (x ∷ xs) = rw suc-add (get_elem?-drop n i xs)

  get_elem?-out : (xs : List A) (i : ℕ) → length xs ≤ i → get_elem? xs i ≡ none
  get_elem?-out [] i h = refl
  get_elem?-out (x ∷ xs) zero h = absurd (omega arith)
  get_elem?-out (x ∷ xs) (suc i) h = get_elem?-out xs i (omega arith)

module _ {V : Type 0} (from_seq to_seq : ℕ) (xs : List (Receipt V)) where
  -- `end_exclusive - start`, the number of receipts that a range takes
  abbrev room : ℕ
  room = min to_seq (length xs) - (from_seq - 1)

  get_elem?-slice_range :
      (i : ℕ)
      → 0 < from_seq
      → from_seq ≤ to_seq
      → get_elem? (slice_range from_seq to_seq xs) i
        ≡ (if ltb i (to_seq + 1 - from_seq) then get_elem? xs (from_seq - 1 + i) else none)
  unfolding slice_range
  get_elem?-slice_range i p q = elim (Bool-cases (leb (length xs) (from_seq - 1))) [
    | inl out ↦ rw out (ground (arith, get_elem?-out xs (from_seq - 1 + i)))
    | inr inside ↦ rw inside (elim (Bool-cases (ltb i room)) [
      | inl here ↦
          rw (get_elem?-take room i (drop (from_seq - 1) xs) (ground arith), get_elem?-drop)
            (ground arith)
      | inr beyond ↦
          rw (get_elem?-take_out room i (drop (from_seq - 1) xs) (ground arith))
            (ground (arith, get_elem?-out xs (from_seq - 1 + i)))
    ])
  ]

slice_range-nil : {V : Type 0} (from_seq to_seq : ℕ) → slice_range {V = V} from_seq to_seq [] ≡ []
unfolding slice_range
slice_range-nil from_seq to_seq = ground arith

-- On a ledger whose lock is not poisoned, a range with 0 < from ≤ to is read, and it is place by place
-- the part of the stream from number `from` to number `to`, as far as the stream goes.
pub read_range-places :
    {V : Type 0} (w : WorldlineId) (from_seq to_seq i : ℕ) (l : InMemoryLedger V)
    → l.poisoned ≡ false
    → 0 < from_seq
    → from_seq ≤ to_seq
    → (rs : List (Receipt V)) × (read_range w from_seq to_seq l ≡ ok rs)
      × (get_elem? rs i ≡ (
          if ltb i (to_seq + 1 - from_seq)
          then get_elem? (stream_of w l.inner) (from_seq - 1 + i)
          else none))
unfolding read_range stream_of
read_range-places {V} w from_seq to_seq i l h p q = (
  slice_range from_seq to_seq (stream_of w l.inner),
  ground (arith, slice_range-nil {V = V} from_seq to_seq),
  get_elem?-slice_range from_seq to_seq (stream_of w l.inner) i p q,
)
