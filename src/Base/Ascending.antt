-- ===== src/Base/Ascending.antt =====
-- `BTreeMap<String, _>`: the keys stay in strictly ascending order, so that each stands once.
use Prim.Native.Nat.{Ordering}
use Prim.Native.String.compare
use Prim.Native.String.{String, compare}
use text.Mathlib.TextEquality.{path_by_compare}
use mathlib.Core.Path.{◌≡◌, refl, subst}
use mathlib.Core.Logic.{◌⊎◌, inl, inr}
use mathlib.Core.List.{[], ◌∷◌}
use mathlib.Core.Bool.{false}
use native.Mathlib.Omega.{arith}
use wll.Base.Tests.{◌==◌, eq_string, Bool-cases}
use wll.Base.Maps
use wll.Base.Maps.{BTreeMap, insert_sorted, Distinct, contains_key}

pub Ordering-cases : (o : Ordering) → (o ≡ Ordering.lt) ⊎ (o ≡ Ordering.eq) ⊎ (o ≡ Ordering.gt)
Ordering-cases Ordering.lt = inl refl
Ordering-cases Ordering.eq = inr (inl refl)
Ordering-cases Ordering.gt = inr (inr refl)

text_lt_irrefl : (s : String) → compare s s ≡ Ordering.lt → ⊥
text_lt_irrefl String.[] h = ground (arith, compare.nil-nil)
text_lt_irrefl (String.◌∷◌ c s) h = ground (arith, compare.cons-cons c c s s, text_lt_irrefl s)

text_lt_trans :
    (s t u : String)
    → compare s t ≡ Ordering.lt
    → compare t u ≡ Ordering.lt
    → compare s u ≡ Ordering.lt
text_lt_trans String.[] String.[] u h k = ground (arith, compare.nil-nil)
text_lt_trans String.[] (String.◌∷◌ d t) String.[] h k = ground (arith, compare.cons-nil d t)
text_lt_trans String.[] (String.◌∷◌ d t) (String.◌∷◌ e u) h k = compare.nil-cons e u
text_lt_trans (String.◌∷◌ c s) String.[] u h k = ground (arith, compare.cons-nil c s)
text_lt_trans (String.◌∷◌ c s) (String.◌∷◌ d t) String.[] h k = ground (arith, compare.cons-nil d t)
text_lt_trans (String.◌∷◌ c s) (String.◌∷◌ d t) (String.◌∷◌ e u) h k = ground (
  arith,
  compare.cons-cons c d s t,
  compare.cons-cons d e t u,
  compare.cons-cons c e s u,
  text_lt_trans s t u,
)

text_gt_lt : (s t : String) → compare s t ≡ Ordering.gt → compare t s ≡ Ordering.lt
text_gt_lt String.[] String.[] h = ground (arith, compare.nil-nil)
text_gt_lt String.[] (String.◌∷◌ d t) h = ground (arith, compare.nil-cons d t)
text_gt_lt (String.◌∷◌ c s) String.[] h = compare.nil-cons c s
text_gt_lt (String.◌∷◌ c s) (String.◌∷◌ d t) h =
    ground (arith, compare.cons-cons c d s t, compare.cons-cons d c t s, text_gt_lt s t)

module _ {V : Type 0} where
  -- The key is below all keys of the map.
  abbrev pub Below : String → BTreeMap V → Type 0
  Below k [] = Unit {0}
  Below k ((j, v) ∷ m) = (compare k j ≡ Ordering.lt) × Below k m

  abbrev pub IsAscending : BTreeMap V → Type 0
  IsAscending [] = Unit {0}
  IsAscending ((k, v) ∷ m) = Below k m × IsAscending m

  Below-trans : (i j : String) (m : BTreeMap V) → compare i j ≡ Ordering.lt → Below j m → Below i m
  Below-trans i j [] h b = tt
  Below-trans i j ((k, v) ∷ m) h b = (text_lt_trans i j k h b.0, Below-trans i j m h b.1)

  Below-insert_sorted :
      (i k : String) (v : V) (m : BTreeMap V)
      → compare i k ≡ Ordering.lt
      → Below i m
      → Below i (insert_sorted k v m)
  unfolding insert_sorted
  Below-insert_sorted i k v [] h b = (h, tt)
  Below-insert_sorted i k v ((j, w) ∷ m) h b = elim (Ordering-cases (compare j k)) [
    | inl lt ↦ rw (insert_sorted, lt) (b.0, Below-insert_sorted i k v m h b.1)
    | inr (inl eq) ↦ rw (insert_sorted, eq) (h, b.1)
    | inr (inr gt) ↦ rw (insert_sorted, gt) (h, b)
  ]

  pub insert_sorted-IsAscending :
      (k : String) (v : V) (m : BTreeMap V) → IsAscending m → IsAscending (insert_sorted k v m)
  unfolding insert_sorted
  insert_sorted-IsAscending k v [] a = (tt, tt)
  insert_sorted-IsAscending k v ((j, w) ∷ m) a = elim (Ordering-cases (compare j k)) [
    | inl lt ↦
        rw (insert_sorted, lt)
          (Below-insert_sorted j k v m lt a.0, insert_sorted-IsAscending k v m a.1)
    | inr (inl eq) ↦
        let same = path_by_compare j k eq in
        rw (insert_sorted, eq) (subst (λ (i : String). Below i m) same a.0, a.1)
    | inr (inr gt) ↦
        let less = text_gt_lt j k gt in
        rw (insert_sorted, gt) ((less, Below-trans k j m less a.0), a)
  ]

  Below-remove : (i k : String) (m : BTreeMap V) → Below i m → Below i (Maps.remove k m)
  unfolding Maps.remove
  Below-remove i k [] b = tt
  Below-remove i k ((j, w) ∷ m) b = elim (Bool-cases (j == k)) [
    | inl e ↦ rw e (Below-remove i k m b.1)
    | inr e ↦ rw e (b.0, Below-remove i k m b.1)
  ]

  pub remove-IsAscending :
      (k : String) (m : BTreeMap V) → IsAscending m → IsAscending (Maps.remove k m)
  unfolding Maps.remove
  remove-IsAscending k [] a = tt
  remove-IsAscending k ((j, w) ∷ m) a = elim (Bool-cases (j == k)) [
    | inl e ↦ rw e (remove-IsAscending k m a.1)
    | inr e ↦ rw e (Below-remove j k m a.0, remove-IsAscending k m a.1)
  ]

  Below-contains_key : (i : String) (m : BTreeMap V) → Below i m → contains_key i m ≡ false
  unfolding contains_key
  Below-contains_key i [] b = refl
  Below-contains_key i ((j, w) ∷ m) b = elim (Bool-cases (j == i)) [
    | inl e ↦
        let same = (eq_string.same_iff j i).0 e in
        absurd (text_lt_irrefl i (subst (λ (s : String). compare i s ≡ Ordering.lt) same b.0))
    | inr e ↦ rw e (Below-contains_key i m b.1)
  ]

  pub IsAscending-Distinct : (m : BTreeMap V) → IsAscending m → Distinct m
  IsAscending-Distinct [] a = tt
  IsAscending-Distinct ((k, v) ∷ m) a = (Below-contains_key k m a.0, IsAscending-Distinct m a.1)
