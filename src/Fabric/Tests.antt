-- ===== src/Fabric/Tests.antt =====
-- A clock whose wall clock goes back, and one at the end of its counter.
use wll.Base.{ℕ, ◌≡◌, refl, true, List, [], ◌∷◌, ◌++◌, Option, none, some, take, arith}
use wll.Base.Result.{ok}
use wll.Fabric.Wal.{
  Bytes, WalCodec, WriteAheadLog, new, keep_all, delete_on_checkpoint, recover, record_of,
  checkpoint,
}
use wll.Fabric.Wal.Recovery.{IsStored, AllStored, append_all, recover-append_all}
use wll.Fabric.Wal.Checkpoint.{checkpoint-recover}
use wll.Types.Temporal
use wll.Types.Temporal.{TemporalAnchor, is_after}
use wll.Fabric.Hlc.{HybridLogicalClock, now}
use wll.Fabric.Hlc.Monotone.{
  latest, now_wraps, Call, local, remote, stamps, IsAscending, stamps-IsAscending_below,
}

abbrev clock : HybridLogicalClock
clock = record { node_id = 1; state = record { physical_ms = 100; logical = 3 } }

abbrev full_clock : HybridLogicalClock
full_clock = record { node_id = 1; state = record { physical_ms = 100; logical = 4294967295 } }

abbrev received : TemporalAnchor
received = Temporal.new 105 2 2

abbrev events : List Call
events = local 90 ∷ remote 95 received ∷ local 80 ∷ []

now_wraps_example : is_after (latest full_clock) (now 90 full_clock).0 ≡ true
now_wraps_example = now_wraps 90 full_clock refl (omega arith)

stamps-IsAscending_below_example : IsAscending (latest clock) (stamps events clock)
stamps-IsAscending_below_example =
    stamps-IsAscending_below 3 events clock (omega arith) (omega arith, tt) (omega arith)

-- Events are numbers, of one byte each.
abbrev read_byte : Bytes → Option ℕ
read_byte (n ∷ []) = some n
read_byte _ = none

abbrev byte_codec : WalCodec ℕ
byte_codec = record { serialize = λ n. ok (n ∷ []); deserialize = read_byte; crc32 = λ bytes. 17 }

byte-IsStored : (n : ℕ) → IsStored byte_codec n (n ∷ [])
byte-IsStored n = record {
  written = refl;
  read = refl;
  some_bytes = omega arith;
  fits = omega arith;
  crc_fits = omega arith;
}

two_events-AllStored : AllStored byte_codec (5 ∷ 6 ∷ [])
two_events-AllStored = ((5 ∷ [], byte-IsStored 5), ((6 ∷ [], byte-IsStored 6), tt))

recover-append_all_example :
    recover byte_codec (record (append_all byte_codec (5 ∷ 6 ∷ []) (new keep_all)) {
      file =
          (append_all byte_codec (5 ∷ 6 ∷ []) (new keep_all)).file
          ++ take 8 (record_of byte_codec (7 ∷ []));
    })
    ≡ 5 ∷ 6 ∷ []
recover-append_all_example =
    recover-append_all byte_codec (5 ∷ 6 ∷ []) keep_all 8 (7 ∷ []) two_events-AllStored
      (omega arith) (omega arith)

checkpoint-recover_example :
    (out : WriteAheadLog) × (checkpoint
        (append_all byte_codec (5 ∷ 6 ∷ []) (new delete_on_checkpoint)).offset
        (append_all byte_codec
          (7 ∷ [])
          (append_all byte_codec (5 ∷ 6 ∷ []) (new delete_on_checkpoint)))
      ≡ (ok tt, out))
    × (recover byte_codec out ≡ 7 ∷ [])
checkpoint-recover_example =
    checkpoint-recover byte_codec (5 ∷ 6 ∷ []) (7 ∷ []) two_events-AllStored
      ((7 ∷ [], byte-IsStored 7), tt)
