-- ===== src/Pack/Entry.antt =====
-- crates/wll-pack/src/entry.rs: the entries of a pack and their type bytes.
use wll.Base.{ℕ, ◌≡◌, refl, List, ◌==◌, eq_nat, if◌then◌else◌, Option, none, some}
use wll.Store.Object.{ObjectKind, blob, tree, receipt, snapshot, pack}
use wll.Types.Commitment.{ObjectId}

pub data PackObjectKind : Type 0 where
  full : ObjectKind → PackObjectKind
  delta : ObjectId → PackObjectKind

pub record PackEntry : Type 0 where
  pub id : ObjectId
  pub kind : PackObjectKind
  pub data_bytes : List ℕ
  pub crc32 : ℕ

unfoldable pub type_byte : PackObjectKind → ℕ
type_byte (full blob) = 1
type_byte (full tree) = 2
type_byte (full receipt) = 3
type_byte (full snapshot) = 4
type_byte (full pack) = 5
type_byte (delta base) = 6

-- A delta needs the id of its base: its byte is not parsed.
unfoldable pub from_type_byte : ℕ → Option PackObjectKind
from_type_byte byte =
    if byte == 1
    then some (full blob)
    else if byte == 2
    then some (full tree)
    else if byte == 3
    then some (full receipt)
    else if byte == 4
    then some (full snapshot)
    else if byte == 5
    then some (full pack)
    else none

-- The byte of a full object is parsed to its kind, the byte of a delta to nothing.
pub from_type_byte-type_byte :
    (kind : PackObjectKind)
    → from_type_byte (type_byte kind) ≡ elim kind [ full k ↦ some (full k) | delta base ↦ none ]
unfolding type_byte from_type_byte
from_type_byte-type_byte (full blob) = refl
from_type_byte-type_byte (full tree) = refl
from_type_byte-type_byte (full receipt) = refl
from_type_byte-type_byte (full snapshot) = refl
from_type_byte-type_byte (full pack) = refl
from_type_byte-type_byte (delta base) = refl
