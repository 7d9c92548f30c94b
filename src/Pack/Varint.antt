-- ===== src/Pack/Varint.antt =====
-- crates/wll-pack/src/writer.rs: integers of variable length, seven bits to a byte, the lowest first.
-- A `u64` takes ten rounds at most.
pub mod Inverse
use wll.Base.{
  ℕ, zero, suc, ◌+◌, ◌*◌, ◌/◌, ◌%◌, ◌^◌, Bool, true, false, List, [], ◌∷◌, ◌==◌, eq_nat, leb,
  if◌then◌else◌,
}
use wll.Base.Result.{Result, ok, err}

-- `CorruptEntry` at offset 0, by its reason
pub data PackError : Type 0 where
  varint_overflow truncated_varint : PackError

-- `byte |= 0x80` on seven bits
abbrev pub continued : ℕ → ℕ
continued byte = byte + 128

unfoldable pub encode_rounds : ℕ → ℕ → List ℕ
encode_rounds zero value = []
encode_rounds (suc rounds) value =
    let rest = encode_rounds rounds (value / 128) in
    if value / 128 == 0 then value % 128 ∷ [] else continued (value % 128) ∷ rest

unfoldable pub encode_varint : ℕ → List ℕ
unfolding encode_rounds
encode_varint value = encode_rounds 10 value

-- The bits that come in lie above those that are there, so that `|` adds; a shift to the left drops
-- what leaves the 64 bits.
unfoldable pub decode_from : ℕ → ℕ → ℕ → List ℕ → Result PackError (ℕ × ℕ)
decode_from value shift i [] = err truncated_varint
decode_from value shift i (byte ∷ bytes) =
    let sum : ℕ = value + (byte % 128) * 2 ^ shift % 2 ^ 64 in
    let rest = decode_from sum (shift + 7) (i + 1) bytes in
    if byte / 128 % 2 == 0
    then ok (sum, i + 1)
    else if leb 64 (shift + 7)
    then err varint_overflow
    else rest

unfoldable pub decode_varint : List ℕ → Result PackError (ℕ × ℕ)
unfolding decode_from
decode_varint bytes = decode_from 0 0 0 bytes
