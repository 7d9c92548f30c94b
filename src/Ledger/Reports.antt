-- ===== src/Ledger/Reports.antt =====
-- crates/wll-ledger/src/memory.rs and validation.rs: the loops of the two validators side by side.
use wll.Base.{
  inl, inr, ℕ, ◌+◌, ◌≡◌, ◌≢◌, refl, subst, ap, ◌∙◌, true, false, ◌==◌, eq_nat, eq_option,
  nat_eq_iff, option_eq_iff, List, [], ◌∷◌, arith, Bool,
}
use wll.Base.Result.{Result, ok, err, ◌>>=◌, Result-cases}
use wll.Types.Commitment.{Hash}
use wll.Ledger.Codec.{Codec, recompute_receipt_hash}
use wll.Ledger.Records.{Receipt, LedgerError, seq, prev_hash, receipt_hash}
use wll.Ledger.Validation.{
  Seen, note, is_attributed, is_anchored, check_receipt, check_receipts, Findings, ViolationKind,
  Violation, hash_mismatched, found, note_sequence, note_link, note_hash, note_attribution,
  note_anchor, inspect, inspect_receipts,
}
use wll.Ledger.Invariant.{check_receipt_ok}

found-ne-nil : (n : ℕ) (k : ViolationKind) (vs : List Violation) → found n k vs ≢ []
found-ne-nil n k [] e = cc
found-ne-nil n k (v ∷ vs) e = cc

note_sequence-nil :
    (good : Bool) (n : ℕ) (f : Findings)
    → (note_sequence good n f).violations ≡ []
    → (good ≡ true) × (f.violations ≡ [])
unfolding note_sequence
note_sequence-nil true n f e = (refl, e)
note_sequence-nil false n f e = absurd (found-ne-nil n _ f.violations e)

note_link-nil :
    (good : Bool) (n : ℕ) (f : Findings)
    → (note_link good n f).violations ≡ []
    → (good ≡ true) × (f.violations ≡ [])
unfolding note_link
note_link-nil true n f e = (refl, e)
note_link-nil false n f e = absurd (found-ne-nil n _ f.violations e)

note_attribution-nil :
    (good : Bool) (n : ℕ) (f : Findings)
    → (note_attribution good n f).violations ≡ []
    → (good ≡ true) × (f.violations ≡ [])
unfolding note_attribution
note_attribution-nil true n f e = (refl, e)
note_attribution-nil false n f e = absurd (found-ne-nil n _ f.violations e)

note_anchor-nil :
    (good : Bool) (n : ℕ) (f : Findings)
    → (note_anchor good n f).violations ≡ []
    → (good ≡ true) × (f.violations ≡ [])
unfolding note_anchor
note_anchor-nil true n f e = (refl, e)
note_anchor-nil false n f e = absurd (found-ne-nil n _ f.violations e)

-- A hash is passed over or is the computed one.
abbrev pub HashFits : Result LedgerError Hash → Hash → Type 0
HashFits (ok g) h = g ≡ h
HashFits (err e) h = Unit

note_hash-nil :
    (m : Result LedgerError Hash) (h : Hash) (n : ℕ) (f : Findings)
    → (note_hash m h n f).violations ≡ []
    → HashFits m h × (f.violations ≡ [])
unfolding note_hash
note_hash-nil (err x) h n f e = (tt, e)
note_hash-nil (ok g) h n f e = ground (arith, found-ne-nil n hash_mismatched f.violations)

note_sequence-true : (good : Bool) (n : ℕ) (f : Findings) → good ≡ true → note_sequence good n f ≡ f
unfolding note_sequence
note_sequence-true good n f e = rw e

note_link-true : (good : Bool) (n : ℕ) (f : Findings) → good ≡ true → note_link good n f ≡ f
unfolding note_link
note_link-true good n f e = rw e

note_attribution-true :
    (good : Bool) (n : ℕ) (f : Findings) → good ≡ true → note_attribution good n f ≡ f
unfolding note_attribution
note_attribution-true good n f e = rw e

note_anchor-true : (good : Bool) (n : ℕ) (f : Findings) → good ≡ true → note_anchor good n f ≡ f
unfolding note_anchor
note_anchor-true good n f e = rw e

note_hash-fits :
    (m : Result LedgerError Hash) (h : Hash) (n : ℕ) (f : Findings)
    → HashFits m h
    → note_hash m h n f ≡ f
unfolding note_hash
note_hash-fits (err x) h n f e = refl
note_hash-fits (ok g) h n f e = rw ((nat_eq_iff g h).1 e)

module _ {V : Type 0} (codec : Codec V) where
  -- What a passed check says of its receipt.
  pub record Passes (v : Seen) (r : Receipt V) : Type 0 where
    pub in_sequence : (seq r == v.index + 1) ≡ true
    pub linked : (prev_hash r == v.prev) ≡ true
    pub hashed : HashFits (recompute_receipt_hash codec r) (receipt_hash r)
    pub attributed : is_attributed v r ≡ true
    pub anchored : is_anchored v r ≡ true

  inspect-nil :
      (v : Seen) (r : Receipt V) (f : Findings)
      → (inspect codec v r f).violations ≡ []
      → Passes v r × (f.violations ≡ [])
  unfolding inspect
  inspect-nil v r f e =
      let (anchored, e₁) = note_anchor-nil _ _ _ e in
      let (attributed, e₂) = note_attribution-nil _ _ _ e₁ in
      let (hashed, e₃) = note_hash-nil _ _ _ _ e₂ in
      let (linked, e₄) = note_link-nil _ _ _ e₃ in
      let (in_sequence, e₅) = note_sequence-nil _ _ _ e₄ in
      (
        record {
          in_sequence = in_sequence;
          linked = linked;
          hashed = hashed;
          attributed = attributed;
          anchored = anchored;
        },
        e₅,
      )

  inspect-Passes : (v : Seen) (r : Receipt V) (f : Findings) → Passes v r → inspect codec v r f ≡ f
  unfolding inspect
  inspect-Passes v r f p =
      note_anchor-true _ _ _ p.anchored
      ∙ note_attribution-true _ _ _ p.attributed
      ∙ note_hash-fits _ _ _ _ p.hashed
      ∙ note_link-true _ _ _ p.linked
      ∙ note_sequence-true _ _ _ p.in_sequence

  pub check_receipt-Passes :
      (v v' : Seen) (r : Receipt V) → check_receipt codec v r ≡ ok v' → Passes v r × (v' ≡ note v r)
  unfolding check_receipt
  check_receipt-Passes v v' r e = elim (Result-cases (recompute_receipt_hash codec r)) [
    | inr (x, q) ↦ ground arith
    | inl (h, q) ↦ (
      record {
        in_sequence = ground arith;
        linked = ground arith;
        hashed = rw q (ground arith);
        attributed = ground arith;
        anchored = ground arith;
      },
      ground arith,
    )
  ]

  Passes-check_receipt :
      (v : Seen) (r : Receipt V) (h : Hash)
      → recompute_receipt_hash codec r ≡ ok h
      → Passes v r
      → check_receipt codec v r ≡ ok (note v r)
  Passes-check_receipt v r h q p =
      let same : h ≡ receipt_hash r = rw q at p.hashed in
      check_receipt_ok codec v r ((nat_eq_iff _ _).0 p.in_sequence)
        ((option_eq_iff (prev_hash r) v.prev).0 p.linked) (cc) p.attributed p.anchored

  -- If no check fails, nothing is found.
  pub inspect_receipts-checked :
      (v v' : Seen) (rs : List (Receipt V)) (f : Findings)
      → check_receipts codec v rs ≡ ok v'
      → inspect_receipts codec v rs f ≡ f
  unfolding check_receipts inspect_receipts
  inspect_receipts-checked v v' [] f e = refl
  inspect_receipts-checked v v' (r ∷ rs) f e = elim (Result-cases (check_receipt codec v r)) [
    | inr (x, q) ↦ cc (e, ap (λ m. m >>= λ s'. check_receipts codec s' rs) q)
    | inl (u, q) ↦
        let (p, next) = check_receipt-Passes v u r q in
        let rest : check_receipts codec (note v r) rs ≡ ok v' =
          subst (λ x. check_receipts codec x rs ≡ ok v') next (rw q at e) in
        rw (inspect-Passes v r f p) (inspect_receipts-checked (note v r) v' rs f rest)
  ]

  inspect_receipts-nil :
      (v : Seen) (rs : List (Receipt V)) (f : Findings)
      → (inspect_receipts codec v rs f).violations ≡ []
      → f.violations ≡ []
  unfolding inspect_receipts
  inspect_receipts-nil v [] f e = e
  inspect_receipts-nil v (r ∷ rs) f e =
      (inspect-nil v r f (inspect_receipts-nil (note v r) rs (inspect codec v r f) e)).1

  -- Every receipt of the list can be encoded.
  abbrev pub Encodable : List (Receipt V) → Type 0
  Encodable [] = Unit
  Encodable (r ∷ rs) = ((h : Hash) × (recompute_receipt_hash codec r ≡ ok h)) × Encodable rs

  -- If nothing is found and every receipt can be encoded, no check fails.
  pub check_receipts-inspected :
      (v : Seen) (rs : List (Receipt V)) (f : Findings)
      → Encodable rs
      → (inspect_receipts codec v rs f).violations ≡ []
      → (v' : Seen) × (check_receipts codec v rs ≡ ok v')
  unfolding check_receipts inspect_receipts
  check_receipts-inspected v [] f en e = (v, refl)
  check_receipts-inspected v (r ∷ rs) f en e =
      let clean = inspect_receipts-nil (note v r) rs (inspect codec v r f) e in
      let p = (inspect-nil v r f clean).0 in
      rw (Passes-check_receipt v r en.0.0 en.0.1 p)
        (check_receipts-inspected (note v r) rs (inspect codec v r f) en.1 e)
