-- ===== src/Pack/Index.antt =====
-- crates/wll-pack/src/index.rs: the index of a pack in memory. An id is a number of 32 bytes, whose order
-- is the order of the bytes. The table of 256 counts is a function of its slot.
pub mod Sorted
pub mod Found
use wll.Base.{
  ℕ, zero, suc, ◌+◌, ◌-◌, ◌*◌, ◌/◌, ◌%◌, ◌^◌, Bool, true, false, List, [], ◌∷◌, map, Option, none,
  some, length, take, drop, get_elem?, ◌&&◌, ◌==◌, eq_nat, leb, if◌then◌else◌,
}
use wll.Base.Maps.{is_some}
use wll.Base.Sort.{sort_by}
use wll.Types.Commitment.{Hash, ObjectId}

-- an id with its checksum and its offset
abbrev pub Row : Type 0
Row = ObjectId × (ℕ × ℕ)

pub record PackIndex : Type 0 where
  pub fan_out : ℕ → ℕ
  pub object_ids : List ObjectId
  pub crc32s : List ℕ
  pub offsets : List ℕ
  pub pack_checksum : Hash

-- `id.as_bytes()[0]`
unfoldable pub first_byte : ObjectId → ℕ
first_byte id = id / 2 ^ 248

abbrev pub id_le : Row → Row → Bool
id_le a b = leb a.0 b.0

-- for each id, from index `i` on: the slots from its first byte on get `(i + 1) as u32`
unfoldable pub count_slots : ℕ → List ObjectId → (ℕ → ℕ) → ℕ → ℕ
count_slots i [] fan_out = fan_out
count_slots i (id ∷ ids) fan_out =
    count_slots (i + 1) ids
      (λ slot. if leb (first_byte id) slot then (i + 1) % 2 ^ 32 else fan_out slot)

unfoldable pub build : List Row → Hash → PackIndex
build entries checksum =
    let rows = sort_by id_le entries in
    record {
      fan_out = count_slots 0 (map (λ r. r.0) rows) (λ slot. 0);
      object_ids = map (λ r. r.0) rows;
      crc32s = map (λ r. r.1.0) rows;
      offsets = map (λ r. r.1.1) rows;
      pack_checksum = checksum;
    }

-- `binary_search_by` on a sorted slice without duplicates
unfoldable pub position : ObjectId → List ObjectId → Option ℕ
position id [] = none
position id (x ∷ xs) =
    if x == id then some 0 else elim (position id xs) [ none ↦ none | some pos ↦ some (suc pos) ]

-- `Some((self.offsets[idx], self.crc32s[idx]))`; the outer none is a panic
abbrev pub both : Option ℕ → Option ℕ → Option (Option (ℕ × ℕ))
both (some offset) (some crc) = some (some (offset, crc))
both _ _ = none

abbrev pub slot_start : (ℕ → ℕ) → ℕ → ℕ
slot_start fan_out byte = if byte == 0 then 0 else fan_out (byte - 1)

-- the search in `&self.object_ids[start..end]`, which panics when the range is not one of the ids
unfoldable pub lookup : PackIndex → ObjectId → Option (Option (ℕ × ℕ))
lookup index id =
    let start = slot_start index.fan_out (first_byte id) in
    let end = index.fan_out (first_byte id) in
    if leb start end && leb end (length index.object_ids)
    then elim (position id (take (end - start) (drop start index.object_ids))) [
      | none ↦ some none
      | some pos ↦
          both (get_elem? index.offsets (start + pos)) (get_elem? index.crc32s (start + pos))
    ]
    else none

abbrev pub object_count : PackIndex → ℕ
object_count index = length index.object_ids

abbrev pub contains_id : PackIndex → ObjectId → Option Bool
contains_id index id = elim (lookup index id) [ none ↦ none | some found ↦ some (is_some found) ]
