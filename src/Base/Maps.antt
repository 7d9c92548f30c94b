-- ===== src/Base/Maps.antt =====
-- The standard library's maps, as association lists. `HashMap` has no order of its own: here a new
-- key goes to the end. `BTreeMap<String, _>` keeps its keys in the order of their bytes.
use Prim.Native.Nat.{Ordering, suc}
use Prim.Native.String.{String, compare}
use mathlib.Core.Path.{◌≡◌, refl}
use mathlib.Core.List.{List, [], ◌∷◌, map}
use mathlib.Core.Bool.{Bool, true, false}
use mathlib.Core.Option.{Option, none, some}
use native.Mathlib.Omega.{arith}
use wll.Base.Lists.{length}
use wll.Base.Tests.{Comparable, ◌==◌, eq_string, if◌then◌else◌, Bool-cases}
use mathlib.Core.Logic.{inl, inr}

module _ {ℓ κ} {K : Type ℓ} {V : Type κ} where
  abbrev pub keys : List (K × V) → List K
  keys = map (λ e. e.0)

  abbrev pub values : List (K × V) → List V
  values = map (λ e. e.1)

abbrev pub is_some {ℓ} : {V : Type ℓ} → Option V → Bool
is_some none = false
is_some (some v) = true

abbrev pub HashMap : Type 0 → Type 0 → Type 0
HashMap K V = List (K × V)

module _ {K V : Type 0} ⦃e : Comparable K⦄ where
  unfoldable pub get : K → HashMap K V → Option V
  get k [] = none
  get k ((j, v) ∷ m) = if j == k then some v else get k m

  unfoldable pub insert : K → V → HashMap K V → HashMap K V
  insert key value [] = (key, value) ∷ []
  insert key value ((at, old) ∷ rest) =
      if at == key then (key, value) ∷ rest else (at, old) ∷ insert key value rest

  unfoldable pub remove : K → HashMap K V → HashMap K V
  remove k [] = []
  remove k ((j, w) ∷ m) = let rest = remove k m in if j == k then rest else (j, w) ∷ rest

  unfoldable pub contains_key : K → HashMap K V → Bool
  contains_key k [] = false
  contains_key k ((j, v) ∷ m) = if j == k then true else contains_key k m

  pub get-insert :
      (k j : K) (v : V) (m : HashMap K V)
      → get j (insert k v m) ≡ (if k == j then some v else get j m)
  unfolding get insert
  get-insert k j v [] = refl
  get-insert k j v ((i, w) ∷ m) =
      ground (arith, e.same_iff k j, e.same_iff i k, e.same_iff i j, get-insert k j v m)

  pub get-remove :
      (k j : K) (m : HashMap K V) → get j (remove k m) ≡ (if k == j then none else get j m)
  unfolding get remove
  get-remove k j [] = ground arith
  get-remove k j ((i, w) ∷ m) =
      ground (arith, e.same_iff k j, e.same_iff i k, e.same_iff i j, get-remove k j m)

  pub contains_key-get : (k : K) (m : HashMap K V) → contains_key k m ≡ is_some (get k m)
  unfolding get contains_key
  contains_key-get k [] = refl
  contains_key-get k ((i, w) ∷ m) = ground (arith, contains_key-get k m)

-- Every key stands once.
module _ {K V : Type 0} ⦃e : Comparable K⦄ where
  abbrev pub Distinct : HashMap K V → Type 0
  Distinct [] = Unit {0}
  Distinct ((k, v) ∷ m) = (contains_key k m ≡ false) × Distinct m

  pub contains_key-insert :
      (k j : K) (v : V) (m : HashMap K V)
      → contains_key j (insert k v m) ≡ (if k == j then true else contains_key j m)
  contains_key-insert k j v m =
      ground (arith, contains_key-get j (insert k v m), contains_key-get j m, get-insert k j v m)

  pub contains_key-remove :
      (k j : K) (m : HashMap K V)
      → contains_key j (remove k m) ≡ (if k == j then false else contains_key j m)
  contains_key-remove k j m =
      ground (arith, contains_key-get j (remove k m), contains_key-get j m, get-remove k j m)

  pub insert-Distinct : (k : K) (v : V) (m : HashMap K V) → Distinct m → Distinct (insert k v m)
  unfolding insert contains_key
  insert-Distinct k v [] h = (refl, tt)
  insert-Distinct k v ((j, w) ∷ m) h = elim (Bool-cases (j == k)) [
    | inl same ↦ rw same (ground (arith, e.same_iff j k), h.1)
    | inr other ↦ rw other (
      ground (arith, contains_key-insert k j v m, e.same_iff k j, e.same_iff j k),
      insert-Distinct k v m h.1,
    )
  ]

  pub remove-Distinct : (k : K) (m : HashMap K V) → Distinct m → Distinct (remove k m)
  unfolding remove contains_key
  remove-Distinct k [] h = tt
  remove-Distinct k ((j, w) ∷ m) h = elim (Bool-cases (j == k)) [
    | inl same ↦ rw same (remove-Distinct k m h.1)
    | inr other ↦ rw other (ground (arith, contains_key-remove k j m), remove-Distinct k m h.1)
  ]

  pub length-insert :
      (k : K) (v : V) (m : HashMap K V)
      → length (insert k v m) ≡ (if contains_key k m then length m else suc (length m))
  unfolding insert contains_key
  length-insert k v [] = refl
  length-insert k v ((j, w) ∷ m) = ground (arith, length-insert k v m)

  pub length-remove :
      (k : K) (m : HashMap K V)
      → Distinct m
      → (if contains_key k m then suc (length (remove k m)) else length (remove k m)) ≡ length m
  unfolding remove contains_key
  length-remove k [] h = refl
  length-remove k ((j, w) ∷ m) h = elim (Bool-cases (j == k)) [
    | inr other ↦ ground (arith, length-remove k m h.1, other)
    | inl same ↦
        let gone : contains_key k m ≡ false = rw ((e.same_iff j k).0 same) at h.0 in
        ground (arith, length-remove k m h.1, same, gone)
  ]

abbrev pub BTreeMap : Type 0 → Type 0
BTreeMap V = List (String × V)

module _ {V : Type 0} where
  -- The keys before `k` stay in front of it.
  unfoldable pub insert_sorted : String → V → BTreeMap V → BTreeMap V
  insert_sorted k v [] = (k, v) ∷ []
  insert_sorted k v ((j, w) ∷ m) = elim (compare j k) [
    | Ordering.lt ↦ (j, w) ∷ insert_sorted k v m
    | Ordering.eq ↦ (k, v) ∷ m
    | Ordering.gt ↦ (k, v) ∷ (j, w) ∷ m
  ]

  pub get-insert_sorted :
      (k j : String) (v : V) (m : BTreeMap V)
      → get j (insert_sorted k v m) ≡ (if k == j then some v else get j m)
  unfolding get insert_sorted
  get-insert_sorted k j v [] = refl
  get-insert_sorted k j v ((i, w) ∷ m) = ground (
    arith,
    eq_string.same_iff k j,
    eq_string.same_iff i k,
    eq_string.same_iff i j,
    get-insert_sorted k j v m,
  )

pub ruleset map_laws = (get-insert, get-remove, get-insert_sorted, contains_key-get)
