-- ===== src/Base/Sort.antt =====
-- The standard library's stable sort, by a key.
use mathlib.Core.List.{List, [], ◌∷◌, Perm, map}
use mathlib.Core.Path.{◌≡◌, refl, ◌∙◌, ap}
use native.Mathlib.Omega.{arith}
use mathlib.Core.List.Perm
use Prim.Native.Nat.{suc}
use mathlib.Core.Bool.{Bool, true, false, ◌||◌}
use wll.Base.Tests.{Comparable, ◌==◌, if◌then◌else◌, Bool-cases}
use wll.Base.Lists.{contains, length}
use mathlib.Core.Logic.{inl, inr}

module _ {ℓ} {A : Type ℓ} (le : A → A → Bool) where
  -- `x` goes before the first element that it is not behind, so that equal elements keep their order.
  unfoldable pub insert_by : A → List A → List A
  insert_by x [] = x ∷ []
  insert_by x (y ∷ ys) = let rest = insert_by x ys in if le x y then x ∷ y ∷ ys else y ∷ rest

  unfoldable pub sort_by : List A → List A
  unfolding insert_by
  sort_by [] = []
  sort_by (x ∷ xs) = insert_by x (sort_by xs)

  insert_by-perm : (x : A) (ys : List A) → Perm (insert_by x ys) (x ∷ ys)
  unfolding insert_by
  insert_by-perm x [] = Perm.refl (x ∷ [])
  insert_by-perm x (y ∷ ys) = elim (Bool-cases (le x y)) [
    | inl e ↦ rw e (Perm.refl (x ∷ y ∷ ys))
    | inr e ↦ rw e (Perm.trans (Perm.cons y (insert_by-perm x ys)) (Perm.swap x y ys))
  ]

  pub sort_by-perm : (xs : List A) → Perm (sort_by xs) xs
  unfolding sort_by
  sort_by-perm [] = Perm.refl []
  sort_by-perm (x ∷ xs) = Perm.trans (insert_by-perm x (sort_by xs)) (Perm.cons x (sort_by-perm xs))

  length-insert_by : (x : A) (ys : List A) → length (insert_by x ys) ≡ suc (length ys)
  unfolding insert_by
  length-insert_by x [] = refl
  length-insert_by x (y ∷ ys) = ground (arith, length-insert_by x ys)

  pub length-sort_by : (xs : List A) → length (sort_by xs) ≡ length xs
  unfolding sort_by
  length-sort_by [] = refl
  length-sort_by (x ∷ xs) = length-insert_by x (sort_by xs) ∙ ap suc (length-sort_by xs)

  -- Neighbours are in order.
  abbrev pub IsSorted : List A → Type 0
  IsSorted [] = Unit {0}
  IsSorted (x ∷ []) = Unit {0}
  IsSorted (x ∷ y ∷ ys) = (le x y ≡ true) × IsSorted (y ∷ ys)

  insert_by-IsSorted :
      ((x y : A) → le x y ≡ false → le y x ≡ true)
      → (x : A) (ys : List A) → IsSorted ys
      → IsSorted (insert_by x ys)
  unfolding insert_by
  insert_by-IsSorted total x [] h = tt
  insert_by-IsSorted total x (y ∷ []) h = elim (Bool-cases (le x y)) [
    | inl e ↦ rw e (e, tt)
    | inr e ↦ rw e (total x y e, tt)
  ]
  insert_by-IsSorted total x (y ∷ z ∷ zs) h = elim (Bool-cases (le x y)) [
    | inl e ↦ rw e (e, h)
    | inr e ↦ elim (Bool-cases (le x z)) [
      | inl f ↦ rw (e, f) (total x y e, (f, h.1))
      | inr f ↦ rw (e, f) (h.0, rw f at (insert_by-IsSorted total x (z ∷ zs) h.1))
    ]
  ]

  -- With a total test the sorted list is in order.
  pub sort_by-IsSorted :
      ((x y : A) → le x y ≡ false → le y x ≡ true) → (xs : List A) → IsSorted (sort_by xs)
  unfolding sort_by
  sort_by-IsSorted total [] = tt
  sort_by-IsSorted total (x ∷ xs) =
      insert_by-IsSorted total x (sort_by xs) (sort_by-IsSorted total xs)

  pub contains-insert_by {κ} :
      {B : Type κ} ⦃e : Comparable B⦄ (f : A → B) (x : A) (ys : List A) (b : B)
      → contains (map f (insert_by x ys)) b ≡ (f x == b || contains (map f ys) b)
  unfolding insert_by
  contains-insert_by f x [] b = refl
  contains-insert_by f x (y ∷ ys) b = elim (Bool-cases (le x y)) [
    | inl e ↦ rw e refl
    | inr e ↦ rw e (ground (arith, contains-insert_by f x ys b))
  ]

  pub contains-sort_by {κ} :
      {B : Type κ} ⦃e : Comparable B⦄ (f : A → B) (xs : List A) (b : B)
      → contains (map f (sort_by xs)) b ≡ contains (map f xs) b
  unfolding sort_by
  contains-sort_by f [] b = refl
  contains-sort_by f (x ∷ xs) b =
      ground (arith, contains-insert_by f x (sort_by xs) b, contains-sort_by f xs b)
