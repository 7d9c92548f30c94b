-- ===== src/Fabric/Wal.antt =====
-- crates/wll-fabric/src/wal.rs: the write-ahead log. The file is the list of its bytes, and reads and
-- writes of it do not fail; `bincode` and `crc32fast` are the functions of a codec, which may refuse
-- an event or a payload. A method that takes the mutex is one step.
pub mod Recovery
pub mod Checkpoint
use wll.Base.{
  ℕ, zero, suc, ◌+◌, ◌*◌, ◌/◌, ◌%◌, ◌^◌, ◌==◌, ◌||◌, eq_nat, Bool, true, false, List, [], ◌∷◌, ◌++◌,
  Option, none, some, String, if◌then◌else◌, length, take, drop, ltb, leb,
}
use wll.Base.Result.{Result, ok, err, map_err}
use wll.Base.Exec.{Exec, lift, gets, modify, pure, ◌>>=◌, ◌>>◌}

abbrev pub Bytes : Type 0
Bytes = List ℕ

pub record WalCodec (Event : Type 0) : Type 0 where
  pub serialize : Event → Result String Bytes
  pub deserialize : Bytes → Option Event
  pub crc32 : Bytes → ℕ

pub data FabricError : Type 0 where
  io serialization wal_path_not_found : String → FabricError
  -- offset, expected and actual checksum
  crc_mismatch : ℕ → ℕ → ℕ → FabricError
  -- offset and length
  invalid_entry_length : ℕ → ℕ → FabricError
  shutdown subscriber_closed no_subscribers : FabricError
  -- the local and the received time, and the bound on their distance
  clock_drift : ℕ → ℕ → ℕ → FabricError
  -- the offset that was asked for, and the current one
  invalid_checkpoint : ℕ → ℕ → FabricError

pub data WalRetention : Type 0 where
  delete_on_checkpoint keep_all : WalRetention

pub record WriteAheadLog : Type 0 where
  pub file : Bytes
  pub offset : ℕ
  pub retention : WalRetention

-- `n.to_le_bytes()` of a `u32`
unfoldable pub to_le_bytes : ℕ → Bytes
to_le_bytes n = n % 256 ∷ n / 256 % 256 ∷ n / 65536 % 256 ∷ n / 16777216 % 256 ∷ []

-- `u32::from_le_bytes([a, b, c, d])`
unfoldable pub from_le_bytes : ℕ → ℕ → ℕ → ℕ → ℕ
from_le_bytes a b c d = a + 256 * b + 65536 * c + 16777216 * d

abbrev pub header_size : ℕ
header_size = 8

-- `WriteAheadLog::open` of a file with these bytes
abbrev pub open_log : Bytes → WalRetention → WriteAheadLog
open_log file retention = record { file = file; offset = length file; retention = retention }

-- of a file that did not exist
abbrev pub new : WalRetention → WriteAheadLog
new retention = open_log [] retention

module _ {Event : Type 0} (codec : WalCodec Event) where
  -- The header and the payload, as they are written; `payload.len() as u32` wraps.
  unfoldable pub record_of : Bytes → Bytes
  record_of payload =
      to_le_bytes (length payload % 2 ^ 32) ++ (to_le_bytes (codec.crc32 payload) ++ payload)

  unfoldable pub append : Event → Exec WriteAheadLog FabricError ℕ
  append event = do
    payload ← lift (map_err serialization (codec.serialize event))
    entry_offset ← gets (λ w. w.offset)
    modify (λ w. record w {
      file = w.file ++ record_of payload;
      offset = w.offset + (header_size + length payload);
    })
    pure entry_offset

  -- The entry of a payload: none if the checksum or the decoder refuses it.
  unfoldable pub decode : ℕ → Bytes → List Event
  decode expected_crc payload =
      if codec.crc32 payload == expected_crc
      then elim (codec.deserialize payload) [ none ↦ [] | some event ↦ event ∷ [] ]
      else []

  -- The rounds of the loop on what the file has from `offset` on. A round takes more than a header, so
  -- the length of the file is fuel enough.
  unfoldable pub recover_from : ℕ → Bytes → List Event
  recover_from zero rest = []
  recover_from (suc fuel) (a ∷ b ∷ c ∷ d ∷ e ∷ f ∷ g ∷ h ∷ rest) =
      let len : ℕ = from_le_bytes a b c d in
      let later = recover_from fuel (drop len rest) in
      if len == 0 || ltb (length rest) len
      then []
      else decode (from_le_bytes e f g h) (take len rest) ++ later
  recover_from (suc fuel) _ = []

  unfoldable pub recover : WriteAheadLog → List Event
  recover w = recover_from (length w.file) w.file

-- `truncate`, and `truncate_through`: the bytes behind the offset are all that stays.
unfoldable pub truncate : WriteAheadLog → WriteAheadLog
truncate w = record w { file = []; offset = 0 }

unfoldable pub truncate_through : ℕ → WriteAheadLog → WriteAheadLog
unfolding truncate
truncate_through through w =
    if leb (length w.file) through
    then truncate w
    else record w { file = drop through w.file; offset = length (drop through w.file) }

abbrev pub retained : WalRetention → ℕ → WriteAheadLog → WriteAheadLog
unfolding truncate_through
retained delete_on_checkpoint through w = truncate_through through w
retained keep_all through w = w

unfoldable pub checkpoint : ℕ → Exec WriteAheadLog FabricError (Unit {0})
unfolding retained
checkpoint through w =
    if ltb w.offset through
    then (err (invalid_checkpoint through w.offset), w)
    else (ok tt, retained w.retention through w)
