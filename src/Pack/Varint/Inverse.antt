-- ===== src/Pack/Varint/Inverse.antt =====
-- crates/wll-pack/src/writer.rs: decoding undoes encoding.
use native.Mathlib.Numerals.{towards_suc}
use wll.Base.{
  ap, ℕ, zero, suc, ◌+◌, ◌*◌, ◌/◌, ◌%◌, ◌^◌, ◌<◌, ◌≤◌, ltb, ◌≡◌, ◌∙◌, refl, inl, inr, true, false,
  List, [], ◌∷◌, ◌++◌, length, ◌==◌, eq_nat, leb, arith, Bool-cases,
}
use wll.Base.Result.{ok}
use wll.Pack.Varint.{continued, encode_rounds, encode_varint, decode_from, decode_varint}

pow_add_seven : (s : ℕ) → 2 ^ (s + 7) ≡ 128 * 2 ^ s
pow_add_seven s = simp towards_suc (omega arith)

parts : (value : ℕ) → value ≡ value / 128 * 128 + value % 128
parts value = omega arith

count : (i n : ℕ) → i + 1 + n ≡ i + suc n
count i n = omega arith

zeros : (n : ℕ) → 0 + n * 2 ^ 0 ≡ n
zeros n = omega arith

plus_zero : (n : ℕ) → 0 + n ≡ n
plus_zero n = omega arith

length-encode_rounds : (rounds value : ℕ) → length (encode_rounds rounds value) ≤ rounds
unfolding encode_rounds
length-encode_rounds zero value = omega arith
length-encode_rounds (suc rounds) value = ground (arith, length-encode_rounds rounds (value / 128))

encode_last : (rounds value : ℕ) → value < 128 → encode_rounds (suc rounds) value ≡ value ∷ []
unfolding encode_rounds
encode_last rounds value h =
    let e : value % 128 ≡ value = omega arith in
    let z : (value / 128 == 0) ≡ true = ground arith in rw (encode_rounds, z) (ap (λ b. b ∷ []) e)

encode_more :
    (rounds value : ℕ)
    → 128 ≤ value
    → encode_rounds (suc rounds) value
      ≡ continued (value % 128) ∷ encode_rounds rounds (value / 128)
unfolding encode_rounds
encode_more rounds value h =
    let z : (value / 128 == 0) ≡ false = ground arith in rw (encode_rounds, z) refl

decode_last :
    (acc shift i byte : ℕ) (bytes : List ℕ)
    → byte < 128
    → byte * 2 ^ shift < 2 ^ 64
    → decode_from acc shift i (byte ∷ bytes) ≡ ok (acc + byte * 2 ^ shift, i + 1)
unfolding decode_from
decode_last acc shift i byte bytes h b =
    let z : (byte / 128 % 2 == 0) ≡ true = ground arith in
    let e : byte % 128 ≡ byte = omega arith in
    let m : byte % 128 * 2 ^ shift % 2 ^ 64 ≡ byte * 2 ^ shift =
      omega (arith, ap (λ (t : ℕ). t * 2 ^ shift) e) in
    rw (decode_from, z) (ap (λ x. ok (acc + x, i + 1)) m)

decode_more :
    (acc shift i low : ℕ) (bytes : List ℕ)
    → low < 128
    → low * 2 ^ shift < 2 ^ 64
    → shift + 7 < 64
    → decode_from acc shift i (continued low ∷ bytes)
      ≡ decode_from (acc + low * 2 ^ shift) (shift + 7) (i + 1) bytes
unfolding decode_from
decode_more acc shift i low bytes h b s =
    let z : ((low + 128) / 128 % 2 == 0) ≡ false = ground arith in
    let t : leb 64 (shift + 7) ≡ false = ground arith in
    let e : (low + 128) % 128 ≡ low = omega arith in
    let m : (low + 128) % 128 * 2 ^ shift % 2 ^ 64 ≡ low * 2 ^ shift =
      omega (arith, ap (λ (x : ℕ). x * 2 ^ shift) e) in
    rw (decode_from, z, t) (ap (λ x. decode_from (acc + x) (shift + 7) (i + 1) bytes) m)

decode_from-encode_rounds :
    (rounds value acc shift i : ℕ) (rest : List ℕ)
    → shift + 7 * rounds ≡ 63
    → value * 2 ^ shift < 2 ^ 64
    → decode_from acc shift i (encode_rounds (suc rounds) value ++ rest)
      ≡ ok (acc + value * 2 ^ shift, i + length (encode_rounds (suc rounds) value))
decode_from-encode_rounds zero value acc shift i rest e b =
    let s : shift ≡ 63 = omega arith in
    let small : value < 128 = omega (arith, ap (λ (n : ℕ). value * 2 ^ n) s) in
    rw (encode_last zero value small) (decode_last acc shift i value rest small b)
decode_from-encode_rounds (suc rounds) value acc shift i rest e b =
    elim (Bool-cases (ltb value 128)) [
      | inl less ↦
          let small : value < 128 = ground arith in
          rw (encode_last (suc rounds) value small) (decode_last acc shift i value rest small b)
      | inr more ↦
          let big : 128 ≤ value = ground arith in
          let split : value * 2 ^ shift
              ≡ value / 128 * (128 * 2 ^ shift) + value % 128 * 2 ^ shift =
            omega (arith, ap (λ (t : ℕ). t * 2 ^ shift) (parts value)) in
          let next : value / 128 * 2 ^ (shift + 7) ≡ value / 128 * (128 * 2 ^ shift) =
            ap (λ (t : ℕ). value / 128 * t) (pow_add_seven shift) in
          let low : value % 128 * 2 ^ shift < 2 ^ 64 = omega (arith, split) in
          let high : value / 128 * 2 ^ (shift + 7) < 2 ^ 64 = omega (arith, split, next) in
          let sum : acc + value % 128 * 2 ^ shift + value / 128 * 2 ^ (shift + 7)
              ≡ acc + value * 2 ^ shift =
            omega (arith, split, next) in
          let ih =
            decode_from-encode_rounds rounds (value / 128) (acc + value % 128 * 2 ^ shift)
              (shift + 7) (i + 1) rest (omega (arith, e)) high in
          rw (encode_more (suc rounds) value big) (
            decode_more acc shift i (value % 128) (encode_rounds (suc rounds) (value / 128) ++ rest)
              (omega arith) low (omega (arith, e))
            ∙ ih
            ∙ λ j. ok (sum j, count i (length (encode_rounds (suc rounds) (value / 128))) j))
    ]

-- A `u64` is decoded from its bytes, whatever follows them, with the number of these bytes, of which
-- there are at most ten.
pub decode_varint-encode_varint :
    (value : ℕ) (rest : List ℕ)
    → value < 2 ^ 64
    → (decode_varint (encode_varint value ++ rest) ≡ ok (value, length (encode_varint value)))
      × (length (encode_varint value) ≤ 10)
unfolding decode_varint encode_varint
decode_varint-encode_varint value rest h =
    let one : value * 2 ^ 0 ≡ value = omega arith in
    (
      decode_from-encode_rounds 9 value 0 0 0 rest refl (omega (arith, one)) ∙ λ j.
          ok (zeros value j, plus_zero (length (encode_rounds 10 value)) j),
      length-encode_rounds 10 value,
    )
