-- ===== src/Fabric/Wal/Recovery.antt =====
-- crates/wll-fabric/src/wal.rs: what recovery reads back.
use wll.Base.{
  ℕ, zero, suc, ◌+◌, ◌/◌, ◌%◌, ◌^◌, ◌≤◌, ◌<◌, ◌≡◌, refl, sym, ap, ◌∙◌, eq_nat, nat_eq_iff, List, [],
  ◌∷◌, ◌++◌, some, length, take, drop, arith, append-nil, append_assoc, length-append,
}
use wll.Base.Result.{ok}
use wll.Fabric.Wal.{
  Bytes, WalCodec, WriteAheadLog, WalRetention, new, to_le_bytes, from_le_bytes, record_of, append,
  decode, recover_from, recover,
}

from_le_bytes-to_le_bytes :
    (n : ℕ)
    → n < 2 ^ 32
    → from_le_bytes (n % 256) (n / 256 % 256) (n / 65536 % 256) (n / 16777216 % 256) ≡ n
unfolding from_le_bytes
from_le_bytes-to_le_bytes n h = omega arith

take-append : {A : Type 0} (xs ys : List A) → take (length xs) (xs ++ ys) ≡ xs
take-append [] ys = refl
take-append (x ∷ xs) ys = ap (λ zs. x ∷ zs) (take-append xs ys)

pub drop-append : {A : Type 0} (xs ys : List A) → drop (length xs) (xs ++ ys) ≡ ys
drop-append [] ys = refl
drop-append (x ∷ xs) ys = drop-append xs ys

length-take : {A : Type 0} (n : ℕ) (xs : List A) → n < length xs → length (take n xs) < length xs
length-take zero (x ∷ xs) h = omega arith
length-take (suc n) (x ∷ xs) h = omega (arith, length-take n xs (omega (arith, h)))
length-take n [] h = absurd (omega (arith, h))

module _ {Event : Type 0} (codec : WalCodec Event) where
  -- The codec writes the event as `payload`, which is not empty and fits a `u32`, and reads it back.
  pub record IsStored (event : Event) (payload : Bytes) : Type 0 where
    pub written : codec.serialize event ≡ ok payload
    pub read : codec.deserialize payload ≡ some event
    pub some_bytes : 0 < length payload
    pub fits : length payload < 2 ^ 32
    pub crc_fits : codec.crc32 payload < 2 ^ 32

  decode-stored :
      (event : Event) (payload : Bytes)
      → codec.deserialize payload ≡ some event
      → decode codec (codec.crc32 payload) payload ≡ event ∷ []
  unfolding decode
  decode-stored event payload e =
      rw ((nat_eq_iff (codec.crc32 payload) (codec.crc32 payload)).1 refl, e) refl

  recover_from-record_of :
      (fuel : ℕ) (event : Event) (payload rest : Bytes)
      → IsStored event payload
      → recover_from codec (suc fuel) (record_of codec payload ++ rest)
        ≡ event ∷ recover_from codec fuel rest
  unfolding recover_from record_of to_le_bytes
  recover_from-record_of fuel event payload rest s =
      let small : length payload % 2 ^ 32 ≡ length payload = omega (arith, s.fits) in
      let len =
        from_le_bytes-to_le_bytes (length payload % 2 ^ 32) (omega (arith, s.fits)) ∙ small in
      let crc = from_le_bytes-to_le_bytes (codec.crc32 payload) s.crc_fits in
      rw
        (
          len,
          crc,
          take-append payload rest,
          drop-append payload rest,
          decode-stored event payload s.read,
        )
        (ground (arith, length-append payload rest, s.some_bytes))

  -- A record that a crash has cut short is not read.
  recover_from-torn :
      (fuel k : ℕ) (payload : Bytes)
      → k < 8 + length payload
      → length payload < 2 ^ 32
      → recover_from codec fuel (take k (record_of codec payload)) ≡ []
  unfolding recover_from record_of to_le_bytes
  recover_from-torn zero k payload h fits = refl
  recover_from-torn (suc fuel) zero payload h fits = refl
  recover_from-torn (suc fuel) (suc zero) payload h fits = refl
  recover_from-torn (suc fuel) (suc (suc zero)) payload h fits = refl
  recover_from-torn (suc fuel) (suc (suc (suc zero))) payload h fits = refl
  recover_from-torn (suc fuel) (suc (suc (suc (suc zero)))) payload h fits = refl
  recover_from-torn (suc fuel) (suc (suc (suc (suc (suc zero))))) payload h fits = refl
  recover_from-torn (suc fuel) (suc (suc (suc (suc (suc (suc zero)))))) payload h fits = refl
  recover_from-torn (suc fuel) (suc (suc (suc (suc (suc (suc (suc zero))))))) payload h fits = refl
  recover_from-torn (suc fuel) (suc (suc (suc (suc (suc (suc (suc (suc j)))))))) payload h fits =
      let small : length payload % 2 ^ 32 ≡ length payload = omega arith in
      let len = from_le_bytes-to_le_bytes (length payload % 2 ^ 32) (omega arith) ∙ small in
      rw (len) (ground (arith, length-take j payload (omega (arith, h))))

  abbrev pub AllStored : List Event → Type 0
  AllStored [] = Unit {0}
  AllStored (e ∷ es) = ((payload : Bytes) × IsStored e payload) × AllStored es

  -- The bytes of the records.
  abbrev pub log : (es : List Event) → AllStored es → Bytes
  log [] s = []
  log (e ∷ es) s = record_of codec s.0.0 ++ log es s.1

  unfoldable pub append_all : List Event → WriteAheadLog → WriteAheadLog
  append_all [] w = w
  append_all (e ∷ es) w = append_all es (append codec e w).1

  append-file :
      (e : Event) (payload : Bytes) (w : WriteAheadLog)
      → codec.serialize e ≡ ok payload
      → (append codec e w).1.file ≡ w.file ++ record_of codec payload
  unfolding append
  append-file e payload w h = rw h refl

  pub append_all-file :
      (es : List Event) (s : AllStored es) (w : WriteAheadLog)
      → (append_all es w).file ≡ w.file ++ log es s
  unfolding append_all
  append_all-file [] s w = sym (append-nil w.file)
  append_all-file (e ∷ es) s w =
      append_all-file es s.1 (append codec e w).1
      ∙ ap (λ bytes. bytes ++ log es s.1) (append-file e s.0.0 w s.0.1.written)
      ∙ append_assoc w.file (record_of codec s.0.0) (log es s.1)

  pub length-record_of : (payload : Bytes) → length (record_of codec payload) ≡ 8 + length payload
  unfolding record_of to_le_bytes
  length-record_of payload = omega arith

  pub recover_from-log :
      (es : List Event) (s : AllStored es) (fuel k : ℕ) (payload : Bytes)
      → k < 8 + length payload
      → length payload < 2 ^ 32
      → length (log es s) ≤ fuel
      → recover_from codec fuel (log es s ++ take k (record_of codec payload)) ≡ es
  recover_from-log [] s fuel k payload h fits enough = recover_from-torn fuel k payload h fits
  recover_from-log (e ∷ es) s zero k payload h fits enough = absurd (
      omega
        (arith, enough, length-append (record_of codec s.0.0) (log es s.1), length-record_of s.0.0))
  recover_from-log (e ∷ es) s (suc fuel) k payload h fits enough =
      ap (recover_from codec (suc fuel)) (append_assoc (record_of codec s.0.0) (log es s.1) _)
      ∙ recover_from-record_of fuel e s.0.0 (log es s.1 ++ take k (record_of codec payload)) s.0.1
      ∙ ap (λ xs. e ∷ xs)
          (recover_from-log es s.1 fuel k payload h fits (
            omega (
              arith,
              enough,
              length-append (record_of codec s.0.0) (log es s.1),
              length-record_of s.0.0,
            )))

  -- If events that the codec stores are appended to a new log, and a crash then leaves any proper
  -- part of one more record behind them, recovery reads exactly these events, in their order.
  pub recover-append_all :
      (es : List Event) (retention : WalRetention) (k : ℕ) (payload : Bytes)
      → AllStored es
      → k < 8 + length payload
      → length payload < 2 ^ 32
      → recover codec (record (append_all es (new retention)) {
        file = (append_all es (new retention)).file ++ take k (record_of codec payload);
      })
        ≡ es
  unfolding recover
  recover-append_all es retention k payload s h fits = rw (append_all-file es s (new retention)) (
      recover_from-log es s _ k payload h fits
        (omega (arith, length-append (log es s) (take k (record_of codec payload)))))
