-- ===== src/Pack/Index/Found.antt =====
-- crates/wll-pack/src/index.rs: a look-up in the slice of its first byte finds what a search in the rows finds.
use wll.Base.{
  ap, ℕ, suc, ◌+◌, ◌-◌, ◌^◌, ◌≤◌, ◌<◌, ◌≡◌, refl, sym, ◌∙◌, inl, inr, true, false, List, [], ◌∷◌,
  map, Option, none, some, length, take, drop, get_elem?, ◌&&◌, ◌==◌, eq_nat, leb, if◌then◌else◌,
  arith, Bool-cases, nat_eq_iff,
}
use wll.Base.Maps
use wll.Base.Sort.{sort_by, IsSorted, length-sort_by}
use wll.Types.Commitment.{Hash, ObjectId}
use wll.Pack.Index.{Row, first_byte, id_le, count_slots, build, position, both, slot_start, lookup}
use wll.Pack.Index.Sorted.{
  ids_of, first_byte_mono, rows-IsSorted, up_to, up_to-later, up_to-le-length, up_to_mono,
  tail-IsSorted, count_slots-up_to, sort_by-get,
}

-- offset and checksum of a row, without a panic
abbrev pub entry_of : Option (ℕ × ℕ) → Option (Option (ℕ × ℕ))
entry_of none = some none
entry_of (some x) = some (some (x.1, x.0))

-- the entry at a position behind `start`
abbrev pick : List Row → ℕ → Option ℕ → Option (Option (ℕ × ℕ))
pick rs start none = some none
pick rs start (some pos) =
    both (get_elem? (map (λ r. r.1.1) rs) (start + pos))
      (get_elem? (map (λ r. r.1.0) rs) (start + pos))

pick-next :
    (r : Row) (rs : List Row) (o : Option ℕ)
    → pick (r ∷ rs) 0 (elim o [ none ↦ none | some pos ↦ some (suc pos) ]) ≡ pick rs 0 o
pick-next r rs none = refl
pick-next r rs (some pos) = let later : 0 + suc pos ≡ suc (0 + pos) = omega arith in rw later refl

pick-suc :
    (r : Row) (rs : List Row) (start : ℕ) (o : Option ℕ)
    → pick (r ∷ rs) (suc start) o ≡ pick rs start o
pick-suc r rs start none = refl
pick-suc r rs start (some pos) =
    let later : suc start + pos ≡ suc (start + pos) = omega arith in rw later refl

-- the search in `count` rows from `start` on
abbrev slice : List Row → ℕ → ℕ → ObjectId → Option (Option (ℕ × ℕ))
slice rs start count id = pick rs start (position id (take count (drop start (ids_of rs))))

-- Behind a row with a later first byte the id is not found.
get-later :
    (id : ObjectId) (r : Row) (rs : List Row)
    → IsSorted id_le (r ∷ rs)
    → first_byte id < first_byte r.0
    → Maps.get id (r ∷ rs) ≡ none
unfolding Maps.get
get-later id r [] s h = ground (arith, h, nat_eq_iff r.0 id, first_byte_mono r.0 id)
get-later id r (q ∷ rs) s h =
    let above : first_byte r.0 ≤ first_byte q.0 = first_byte_mono r.0 q.0 (ground (arith, s.0)) in
    ground (
      arith,
      h,
      nat_eq_iff r.0 id,
      first_byte_mono r.0 id,
      get-later id q rs s.1 (omega (arith, above, h)),
    )

-- In the first rows, up to the id's first byte.
slice-first :
    (id : ObjectId) (rs : List Row)
    → IsSorted id_le rs
    → slice rs 0 (up_to (first_byte id) rs) id ≡ entry_of (Maps.get id rs)
unfolding Maps.get position
slice-first id [] s = refl
slice-first id (r ∷ rs) s = elim (Bool-cases (leb (first_byte r.0) (first_byte id))) [
  | inr off ↦
      let later = get-later id r rs s (ground (arith, off)) in
      let nothing = up_to-later (first_byte id) r rs s (ground (arith, off)) in
      rw (off, nothing) (sym (ap entry_of later))
  | inl on ↦ rw on (elim (Bool-cases (r.0 == id)) [
    | inl same ↦ rw same refl
    | inr other ↦ rw other (
        pick-next r rs (position id (take (up_to (first_byte id) rs) (ids_of rs)))
        ∙ slice-first id rs (tail-IsSorted r rs s))
  ])
]

-- How many rows are before the first byte.
abbrev start_of : ℕ → List Row → ℕ
start_of byte rs = if byte == 0 then 0 else up_to (byte - 1) rs

start_of-cons :
    (byte : ℕ) (r : Row) (rs : List Row)
    → start_of byte (r ∷ rs)
      ≡ (if leb byte (first_byte r.0) then start_of byte rs else suc (start_of byte rs))
start_of-cons byte r rs = ground arith

-- Behind a row with the byte or a later one there is none before it.
start_of-later :
    (byte : ℕ) (r : Row) (rs : List Row)
    → IsSorted id_le (r ∷ rs)
    → byte ≤ first_byte r.0
    → start_of byte rs ≡ 0
start_of-later byte r rs s h = elim (Bool-cases (byte == 0)) [
  | inl none_before ↦ rw none_before refl
  | inr before ↦ rw before (up_to-later (byte - 1) r rs s (ground (arith, before, h)))
]

-- In the slice of the id's first byte.
slice-get :
    (id : ObjectId) (rs : List Row)
    → IsSorted id_le rs
    → slice rs
        (start_of (first_byte id) rs)
        (up_to (first_byte id) rs - start_of (first_byte id) rs)
        id
      ≡ entry_of (Maps.get id rs)
unfolding Maps.get position
slice-get id [] s =
    let none_before : start_of (first_byte id) [] ≡ 0 = ground arith in rw none_before refl
slice-get id (r ∷ rs) s = elim (Bool-cases (leb (first_byte id) (first_byte r.0))) [
  | inl at_start ↦
      let none_before : start_of (first_byte id) (r ∷ rs) ≡ 0 =
        start_of-cons (first_byte id) r rs
        ∙ ground
            (arith, at_start, start_of-later (first_byte id) r rs s (ground (arith, at_start))) in
      rw none_before (
        let whole : up_to (first_byte id) (r ∷ rs) - 0 ≡ up_to (first_byte id) (r ∷ rs) =
          omega arith in
        rw whole (slice-first id (r ∷ rs) s))
  | inr behind ↦
      let on : leb (first_byte r.0) (first_byte id) ≡ true = ground (arith, behind) in
      let other : (r.0 == id) ≡ false = ground (arith, behind, nat_eq_iff r.0 id) in
      let start : start_of (first_byte id) (r ∷ rs) ≡ suc (start_of (first_byte id) rs) =
        start_of-cons (first_byte id) r rs ∙ rw behind refl in
      let count : suc (up_to (first_byte id) rs) - suc (start_of (first_byte id) rs)
          ≡ up_to (first_byte id) rs - start_of (first_byte id) rs =
        omega arith in
      rw (start, on, count, other)
        (pick-suc r rs (start_of (first_byte id) rs) (
            position id (
              take (up_to (first_byte id) rs - start_of (first_byte id) rs)
                (drop (start_of (first_byte id) rs) (ids_of rs))))
          ∙ slice-get id rs (tail-IsSorted r rs s))
]

length-ids_of : (rs : List Row) → length (ids_of rs) ≡ length rs
length-ids_of [] = refl
length-ids_of (r ∷ rs) = ap suc (length-ids_of rs)

slice-fits :
    (byte : ℕ) (rs : List Row)
    → (leb (start_of byte rs) (up_to byte rs) && leb (up_to byte rs) (length (ids_of rs))) ≡ true
slice-fits byte rs =
    let low : start_of byte rs ≤ up_to byte rs = elim (Bool-cases (byte == 0)) [
      | inl at_zero ↦ rw at_zero (omega arith)
      | inr later ↦ rw later (up_to_mono (byte - 1) byte rs (omega arith))
    ] in
    ground (arith, low, up_to-le-length byte rs, length-ids_of rs)

pick_lem :
    (rs : List Row) (start : ℕ) (o : Option ℕ)
    → elim o [
      | none ↦ some none
      | some pos ↦
          both
            (get_elem? (map (λ r. r.1.1) rs) (start + pos))
            (get_elem? (map (λ r. r.1.0) rs) (start + pos))
    ]
      ≡ pick rs start o
pick_lem rs start none = refl
pick_lem rs start (some pos) = refl

lookup-slice :
    (rows : List Row) (checksum : Hash) (id : ObjectId)
    → let table : ℕ → ℕ = count_slots 0 (ids_of rows) (λ k. 0) in
      let start = slot_start table (first_byte id) in
      (leb start (table (first_byte id)) && leb (table (first_byte id)) (length (ids_of rows)))
        ≡ true
      → lookup
          (record {
            fan_out = table;
            object_ids = ids_of rows;
            crc32s = map (λ r. r.1.0) rows;
            offsets = map (λ r. r.1.1) rows;
            pack_checksum = checksum;
          })
          id
        ≡ slice rows start (table (first_byte id) - start) id
unfolding lookup
lookup-slice rows checksum id fits =
    let table : ℕ → ℕ = count_slots 0 (ids_of rows) (λ k. 0) in
    let start = slot_start table (first_byte id) in
    rw fits (
      pick_lem rows start
        (position id (take (table (first_byte id) - start) (drop start (ids_of rows)))))

pub lookup-build :
    (entries : List Row) (checksum : Hash) (id : ObjectId)
    → Maps.Distinct entries
    → length entries < 2 ^ 32
    → lookup (build entries checksum) id ≡ entry_of (Maps.get id entries)
unfolding build
lookup-build entries checksum id d h =
    let rows = sort_by id_le entries in
    let small : 0 + length rows < 2 ^ 32 = omega (arith, h, length-sort_by id_le entries) in
    let table : (slot : ℕ) → count_slots 0 (ids_of rows) (λ k. 0) slot ≡ up_to slot rows = (λ slot.
      count_slots-up_to 0 rows (λ k. 0) slot (rows-IsSorted entries) small ∙ ground arith) in
    let start : slot_start (count_slots 0 (ids_of rows) (λ k. 0)) (first_byte id)
        ≡ start_of (first_byte id) rows =
      ground (arith, table (first_byte id - 1)) in
    let sliced : slice rows (slot_start (count_slots 0 (ids_of rows) (λ k. 0)) (first_byte id))
          (count_slots 0 (ids_of rows) (λ k. 0) (first_byte id)
            - slot_start (count_slots 0 (ids_of rows) (λ k. 0)) (first_byte id))
          id
        ≡ entry_of (Maps.get id rows) =
      rw (start, table (first_byte id)) (slice-get id rows (rows-IsSorted entries)) in
    let fits : (leb (slot_start (count_slots 0 (ids_of rows) (λ k. 0)) (first_byte id))
            (count_slots 0 (ids_of rows) (λ k. 0) (first_byte id))
          && leb (count_slots 0 (ids_of rows) (λ k. 0) (first_byte id)) (length (ids_of rows)))
        ≡ true =
      rw (start, table (first_byte id)) (slice-fits (first_byte id) rows) in
    lookup-slice rows checksum id fits ∙ sliced ∙ ap entry_of (sort_by-get id entries d).0
