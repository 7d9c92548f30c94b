-- ===== src/Pack/Index/Sorted.antt =====
-- crates/wll-pack/src/index.rs: the sorted rows and the counts of their first bytes.
use wll.Base.{
  ℕ, suc, ◌+◌, ◌%◌, ◌^◌, ◌≤◌, ◌<◌, ◌≡◌, refl, ◌∙◌, inl, inr, true, false, List, [], ◌∷◌, map,
  length, ◌==◌, eq_nat, leb, if◌then◌else◌, arith, Bool-cases, nat_eq_iff,
}
use wll.Base.Maps
use wll.Base.Maps.{contains_key}
use wll.Base.Sort.{sort_by, insert_by, IsSorted, sort_by-IsSorted}
use wll.Types.Commitment.{ObjectId}
use wll.Pack.Index.{Row, first_byte, id_le, count_slots}

abbrev pub ids_of : List Row → List ObjectId
ids_of = map (λ r. r.0)

pub first_byte_mono : (a b : ObjectId) → a ≤ b → first_byte a ≤ first_byte b
unfolding first_byte
first_byte_mono a b h = omega (arith, h)

id_le_total : (a b : Row) → id_le a b ≡ false → id_le b a ≡ true
id_le_total a b h = ground (arith, h)

pub rows-IsSorted : (entries : List Row) → IsSorted id_le (sort_by id_le entries)
rows-IsSorted entries = sort_by-IsSorted id_le id_le_total entries

-- How many rows have a first byte up to the slot.
abbrev pub up_to : ℕ → List Row → ℕ
up_to slot [] = 0
up_to slot (r ∷ rs) = if leb (first_byte r.0) slot then suc (up_to slot rs) else up_to slot rs

-- Behind a row with a later first byte there is none up to the slot.
pub up_to-later :
    (slot : ℕ) (r : Row) (rs : List Row)
    → IsSorted id_le (r ∷ rs)
    → slot < first_byte r.0
    → up_to slot rs ≡ 0
up_to-later slot r [] s h = refl
up_to-later slot r (q ∷ rs) s h =
    let above : first_byte r.0 ≤ first_byte q.0 = first_byte_mono r.0 q.0 (ground (arith, s.0)) in
    ground (arith, above, up_to-later slot q rs s.1 (omega (arith, above, h)))

pub tail-IsSorted : (r : Row) (rs : List Row) → IsSorted id_le (r ∷ rs) → IsSorted id_le rs
tail-IsSorted r [] s = tt
tail-IsSorted r (q ∷ rs) s = s.1

pub up_to-le-length : (slot : ℕ) (rs : List Row) → up_to slot rs ≤ length rs
up_to-le-length slot [] = omega arith
up_to-le-length slot (r ∷ rs) = ground (arith, up_to-le-length slot rs)

pub up_to_mono : (low high : ℕ) (rs : List Row) → low ≤ high → up_to low rs ≤ up_to high rs
up_to_mono low high [] h = omega arith
up_to_mono low high (r ∷ rs) h = ground (arith, up_to_mono low high rs h)

-- The table counts, as long as the counts are below 2 ^ 32.
pub count_slots-up_to :
    (i : ℕ) (rs : List Row) (fan_out : ℕ → ℕ) (slot : ℕ)
    → IsSorted id_le rs
    → i + length rs < 2 ^ 32
    → count_slots i (ids_of rs) fan_out slot
      ≡ (if up_to slot rs == 0 then fan_out slot else i + up_to slot rs)
unfolding count_slots
count_slots-up_to i [] fan_out slot s h = refl
count_slots-up_to i (r ∷ rs) fan_out slot s h =
    let rest =
      count_slots-up_to (i + 1) rs
        (λ k. if leb (first_byte r.0) k then (i + 1) % 2 ^ 32 else fan_out k) slot
        (tail-IsSorted r rs s) (omega (arith, h)) in
    let small : (i + 1) % 2 ^ 32 ≡ i + 1 = omega (arith, h) in
    elim (Bool-cases (leb (first_byte r.0) slot)) [
      | inl on ↦ rest ∙ ground (arith, on, small)
      | inr off ↦ rest ∙ ground (arith, off, up_to-later slot r rs s (ground (arith, off)))
    ]

-- Sorting rows with different ids changes no look-up.
get-insert_by :
    (id : ObjectId) (r : Row) (rs : List Row)
    → contains_key r.0 rs ≡ false
    → Maps.get id (insert_by id_le r rs) ≡ Maps.get id (r ∷ rs)
unfolding insert_by Maps.get contains_key
get-insert_by id r [] h = refl
get-insert_by id r (q ∷ rs) h = elim (Bool-cases (id_le r q)) [
  | inl e ↦ rw e refl
  | inr e ↦ rw e (
      ground
        (arith, get-insert_by id r rs, h, nat_eq_iff r.0 id, nat_eq_iff q.0 id, nat_eq_iff q.0 r.0))
]

contains_key-insert_by :
    (id : ObjectId) (r : Row) (rs : List Row)
    → contains_key id (insert_by id_le r rs) ≡ (if r.0 == id then true else contains_key id rs)
unfolding insert_by contains_key
contains_key-insert_by id r [] = refl
contains_key-insert_by id r (q ∷ rs) = elim (Bool-cases (id_le r q)) [
  | inl e ↦ rw e refl
  | inr e ↦ rw e (ground (arith, contains_key-insert_by id r rs))
]

pub sort_by-get :
    (id : ObjectId) (rs : List Row)
    → Maps.Distinct rs
    → (Maps.get id (sort_by id_le rs) ≡ Maps.get id rs)
      × ((k : ObjectId) → contains_key k (sort_by id_le rs) ≡ contains_key k rs)
unfolding sort_by Maps.get contains_key
sort_by-get id [] d = (refl, λ k. refl)
sort_by-get id (r ∷ rs) d =
    let (same, keys) = sort_by-get id rs d.1 in
    (
      get-insert_by id r (sort_by id_le rs) (keys r.0 ∙ d.0) ∙ ground (arith, same),
      λ k. contains_key-insert_by k r (sort_by id_le rs) ∙ ground (arith, keys k),
    )
