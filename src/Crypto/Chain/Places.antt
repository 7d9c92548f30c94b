-- ===== src/Crypto/Chain/Places.antt =====
-- crates/wll-crypto/src/chain.rs: what the verifier says of a chain, place by place.
use wll.Base.{
  ℕ, zero, suc, ◌+◌, ◌==◌, ◌≡◌, ◌↔◌, inl, inr, refl, sym, ap, ◌∙◌, not, eq_nat, nat_eq_iff, Bool,
  true, false, List, [], ◌∷◌, Option, none, some, arith, Bool-cases, get_elem?,
}
use wll.Base.Maps.{is_some}
use wll.Base.Result.{Result, ok, err, fail_if, ◌>>◌}
use wll.Types.Commitment.{Hash}
use wll.Crypto.Chain.{
  ChainReceipt, ChainError, compute_hash, check_link, verify_from, verify_chain,
  genesis_has_prev_hash, hash_mismatch,
}

-- The hash of the receipt in front of place `i`, where the chain stands behind `before`.
abbrev pub hash_before : Option Hash → List ChainReceipt → ℕ → Option Hash
hash_before before rs zero = before
hash_before before [] (suc i) = none
hash_before before (r ∷ rs) (suc i) = hash_before (some r.receipt_hash) rs i

-- The two checks of a round and the rest of the loop.
round_iff :
    (l : Result ChainError (Unit {0})) (b : Bool) (e : ChainError)
    (m : Result ChainError (Unit {0}))
    → (l >> (fail_if (not b) e >> m) ≡ ok tt) ↔ ((l ≡ ok tt) × (b ≡ true) × (m ≡ ok tt))
round_iff (err x) b e m = ground arith
round_iff (ok _) false e m = ground arith
round_iff (ok _) true e m = (λ h. (refl, refl, h), λ h. h.2)

module _ (blake3 : List ℕ → Hash) where
  -- The receipt links to the hash `before`, and its own hash is what its content gives.
  abbrev pub IsLinked : Option Hash → ChainReceipt → Type 0
  IsLinked before r =
      (r.prev_hash ≡ before) × (compute_hash blake3 r.payload_bytes r.prev_hash ≡ r.receipt_hash)

  abbrev pub LinkedAt : Option Hash → Option ChainReceipt → Type 0
  LinkedAt before none = Unit {0}
  LinkedAt before (some r) = IsLinked before r

  -- Every place of a chain that stands behind `before`.
  abbrev pub AllLinked : Option Hash → List ChainReceipt → Type 0
  AllLinked before rs = (i : ℕ) → LinkedAt (hash_before before rs i) (get_elem? rs i)

  AllLinked-cons :
      (before : Option Hash) (r : ChainReceipt) (rs : List ChainReceipt)
      → IsLinked before r
      → AllLinked (some r.receipt_hash) rs
      → AllLinked before (r ∷ rs)
  AllLinked-cons before r rs here rest zero = here
  AllLinked-cons before r rs here rest (suc i) = rest i

  -- The first check of a round.
  check_link_iff :
      (i : ℕ) (expected : Hash) (prev : Option Hash)
      → (check_link blake3 i expected prev ≡ ok tt) ↔ (prev ≡ some expected)
  unfolding check_link
  check_link_iff i expected none = ground arith
  check_link_iff i expected (some h) = elim (Bool-cases (h == expected)) [
    | inl e ↦ ground (arith, nat_eq_iff h expected, e)
    | inr e ↦ ground (arith, nat_eq_iff h expected, e)
  ]

  -- Both checks of a round.
  IsLinked-round :
      (i : ℕ) (expected : Hash) (r : ChainReceipt)
      → ((check_link blake3 i expected r.prev_hash ≡ ok tt)
          × ((compute_hash blake3 r.payload_bytes (some expected) == r.receipt_hash) ≡ true))
        ↔ IsLinked (some expected) r
  IsLinked-round i expected r = (
    λ (l, h). (
      (check_link_iff i expected r.prev_hash).0 l,
      ap (compute_hash blake3 r.payload_bytes) ((check_link_iff i expected r.prev_hash).0 l)
          ∙ (nat_eq_iff _ _).0 h,
    ),
    λ (l, h). (
      (check_link_iff i expected r.prev_hash).1 l,
      (nat_eq_iff _ _).1 (ap (compute_hash blake3 r.payload_bytes) (sym l) ∙ h),
    ),
  )

  no_prev_iff :
      (prev : Option Hash) → (fail_if (is_some prev) genesis_has_prev_hash ≡ ok tt) ↔ (prev ≡ none)
  no_prev_iff none = (λ _. refl, λ _. refl)
  no_prev_iff (some h) = ground arith

  IsLinked-genesis :
      (r : ChainReceipt)
      → ((fail_if (is_some r.prev_hash) genesis_has_prev_hash ≡ ok tt)
          × ((compute_hash blake3 r.payload_bytes none == r.receipt_hash) ≡ true))
        ↔ IsLinked none r
  IsLinked-genesis r = (
    λ (l, h). (
      (no_prev_iff r.prev_hash).0 l,
      ap (compute_hash blake3 r.payload_bytes) ((no_prev_iff r.prev_hash).0 l)
          ∙ (nat_eq_iff _ _).0 h,
    ),
    λ (l, h). (
      (no_prev_iff r.prev_hash).1 l,
      (nat_eq_iff _ _).1 (ap (compute_hash blake3 r.payload_bytes) (sym l) ∙ h),
    ),
  )

  verify_from_iff :
      (i : ℕ) (expected : Hash) (rs : List ChainReceipt)
      → (verify_from blake3 i expected rs ≡ ok tt) ↔ AllLinked (some expected) rs
  unfolding verify_from
  verify_from_iff i expected [] = (λ _ j. tt, λ _. refl)
  verify_from_iff i expected (r ∷ rs) =
      let round =
        round_iff (check_link blake3 i expected r.prev_hash)
          (compute_hash blake3 r.payload_bytes (some expected) == r.receipt_hash) (hash_mismatch i)
          (verify_from blake3 (i + 1) r.receipt_hash rs) in
      let rest = verify_from_iff (i + 1) r.receipt_hash rs in
      let here = IsLinked-round i expected r in
      (
        λ e.
            let (l, h, m) = round.0 e in
            AllLinked-cons (some expected) r rs (here.0 (l, h)) (rest.0 m),
        λ a. let (l, h) = here.1 (a 0) in round.1 (l, h, rest.1 (λ j. a (suc j))),
      )

  -- A chain passes exactly if every receipt, at every place, links to the hash of the receipt in front
  -- of it, the first to none, and has the hash that its payload and its link give.
  pub verify_chain-AllLinked :
      (rs : List ChainReceipt) → (verify_chain blake3 rs ≡ ok tt) ↔ AllLinked none rs
  unfolding verify_chain
  verify_chain-AllLinked [] = (λ _ j. tt, λ _. refl)
  verify_chain-AllLinked (r ∷ rs) =
      let round =
        round_iff (fail_if (is_some r.prev_hash) genesis_has_prev_hash)
          (compute_hash blake3 r.payload_bytes none == r.receipt_hash) (hash_mismatch 0)
          (verify_from blake3 1 r.receipt_hash rs) in
      let rest = verify_from_iff 1 r.receipt_hash rs in
      let here = IsLinked-genesis r in
      (
        λ e. let (l, h, m) = round.0 e in AllLinked-cons none r rs (here.0 (l, h)) (rest.0 m),
        λ a. let (l, h) = here.1 (a 0) in round.1 (l, h, rest.1 (λ j. a (suc j))),
      )
