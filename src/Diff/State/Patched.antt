-- ===== src/Diff/State/Patched.antt =====
-- crates/wll-diff/src/state_diff.rs: the changes of a difference turn the old state into the new one.
use wll.Base.{
  ap, ◌≡◌, ◌≢◌, refl, ◌∙◌, inl, inr, true, false, not, ◌&&◌, List, [], ◌∷◌, ◌++◌, none, some,
  String, Comparable, ◌==◌, eq_string, if◌then◌else◌, arith, Bool-cases, Option-cases,
}
use wll.Base.Maps
use wll.Base.Maps.{
  BTreeMap, insert_sorted, get-insert_sorted, get-remove, contains_key, contains_key-get,
}
use wll.Base.Ascending.{IsAscending, IsAscending-Distinct}
use wll.Diff.State.{StateChange, added, removed, modified, changes_of_old, additions, diff_states}

module _ {V : Type 0} where
  -- What a change says to do.
  abbrev pub apply : StateChange V → BTreeMap V → BTreeMap V
  apply (added key value) m = insert_sorted key value m
  apply (removed key value) m = Maps.remove key m
  apply (modified key old new) m = insert_sorted key new m

  abbrev pub patch : List (StateChange V) → BTreeMap V → BTreeMap V
  patch [] m = m
  patch (c ∷ cs) m = patch cs (apply c m)

  patch-append :
      (cs ds : List (StateChange V)) (m : BTreeMap V) → patch (cs ++ ds) m ≡ patch ds (patch cs m)
  patch-append [] ds m = refl
  patch-append (c ∷ cs) ds m = patch-append cs ds (apply c m)

  -- What a change says of the key before and after.
  abbrev pub IsTrue : BTreeMap V → BTreeMap V → StateChange V → Type 0
  IsTrue old new (added key value) = (Maps.get key old ≡ none) × (Maps.get key new ≡ some value)
  IsTrue old new (removed key value) = (Maps.get key old ≡ some value) × (Maps.get key new ≡ none)
  IsTrue old new (modified key before after) =
      (Maps.get key old ≡ some before) × (Maps.get key new ≡ some after) × (before ≢ after)

  abbrev pub AllTrue : BTreeMap V → BTreeMap V → List (StateChange V) → Type 0
  AllTrue old new [] = Unit {0}
  AllTrue old new (c ∷ cs) = IsTrue old new c × AllTrue old new cs

  AllTrue-append :
      (old new : BTreeMap V) (cs ds : List (StateChange V))
      → AllTrue old new cs
      → AllTrue old new ds
      → AllTrue old new (cs ++ ds)
  AllTrue-append old new [] ds a b = b
  AllTrue-append old new (c ∷ cs) ds a b = (a.0, AllTrue-append old new cs ds a.1 b)

  -- What is known of a whole map goes on to its rest.
  suffix :
      (j k : String) (v : V) (m all : BTreeMap V)
      → contains_key j m ≡ false
      → (contains_key k ((j, v) ∷ m) ≡ true → Maps.get k all ≡ Maps.get k ((j, v) ∷ m))
      → contains_key k m ≡ true
      → Maps.get k all ≡ Maps.get k m
  unfolding Maps.get contains_key
  suffix j k v m all d h c = elim (Bool-cases (j == k)) [
    | inl same ↦ ground (arith, ap (λ i. contains_key i m) ((eq_string.same_iff j k).0 same), d, c)
    | inr other ↦ ground (arith, h, other, c)
  ]

  first_of :
      (j : String) (v : V) (m all : BTreeMap V)
      → ((k : String)
          → contains_key k ((j, v) ∷ m) ≡ true
          → Maps.get k all ≡ Maps.get k ((j, v) ∷ m))
      → Maps.get j all ≡ some v
  unfolding Maps.get contains_key
  first_of j v m all h = ground (arith, h j, eq_string.same_iff j j)

module _ {V : Type 0} ⦃e : Comparable V⦄ where
  changes_of_old-AllTrue :
      (old new rest : BTreeMap V)
      → Maps.Distinct rest
      → ((k : String) → contains_key k rest ≡ true → Maps.get k old ≡ Maps.get k rest)
      → AllTrue old new (changes_of_old new rest)
  unfolding changes_of_old
  changes_of_old-AllTrue old new [] d h = tt
  changes_of_old-AllTrue old new ((j, v) ∷ rest) d h =
      let tail = changes_of_old-AllTrue old new rest d.1 (λ k. suffix j k v rest old d.0 (h k)) in
      let here = first_of j v rest old h in
      elim (Option-cases (Maps.get j new)) [
        | inl gone ↦ rw (changes_of_old, gone) ((here, gone), tail)
        | inr (n, there) ↦ elim (Bool-cases (v == n)) [
          | inl same ↦ rw (changes_of_old, there, same) tail
          | inr other ↦
              rw (changes_of_old, there, other)
                ((here, there, λ q. ground (arith, (e.same_iff v n).1 q, other)), tail)
        ]
      ]

  additions-AllTrue :
      (old new rest : BTreeMap V)
      → Maps.Distinct rest
      → ((k : String) → contains_key k rest ≡ true → Maps.get k new ≡ Maps.get k rest)
      → AllTrue old new (additions old rest)
  unfolding additions
  additions-AllTrue old new [] d h = tt
  additions-AllTrue old new ((j, v) ∷ rest) d h =
      let tail = additions-AllTrue old new rest d.1 (λ k. suffix j k v rest new d.0 (h k)) in
      elim (Bool-cases (contains_key j old)) [
        | inl there ↦ rw (additions, there) tail
        | inr free ↦
            rw (additions, free)
              ((ground (arith, contains_key-get j old, free), first_of j v rest new h), tail)
      ]

  patch-changes_of_old :
      (new old m : BTreeMap V) (k : String)
      → Maps.Distinct old
      → (contains_key k old ≡ true → Maps.get k m ≡ Maps.get k old)
      → Maps.get k (patch (changes_of_old new old) m)
        ≡ (if contains_key k old then Maps.get k new else Maps.get k m)
  unfolding changes_of_old Maps.get contains_key
  patch-changes_of_old new [] m k d h = refl
  patch-changes_of_old new ((j, v) ∷ old) m k d h = elim (Bool-cases (j == k)) [
    | inl same ↦
        let at = (eq_string.same_iff j k).0 same in
        let gone : contains_key k old ≡ false = rw at at d.0 in
        let start : Maps.get k m ≡ some v = ground (arith, h, same) in
        elim (Option-cases (Maps.get j new)) [
          | inl none_new ↦ ground (
            arith,
            none_new,
            same,
            gone,
            get-remove j k m,
            ap (λ i. Maps.get i new) at,
            patch-changes_of_old new old (Maps.remove j m) k d.1 (λ c. ground (arith, c, gone)),
          )
          | inr (n, some_new) ↦ ground (
            arith,
            some_new,
            same,
            gone,
            start,
            e.same_iff v n,
            get-insert_sorted j k n m,
            ap (λ i. Maps.get i new) at,
            patch-changes_of_old new old (insert_sorted j n m) k d.1 (λ c. ground (arith, c, gone)),
            patch-changes_of_old new old m k d.1 (λ c. ground (arith, c, gone)),
          )
        ]
    | inr other ↦
        let before : contains_key k old ≡ true → Maps.get k m ≡ Maps.get k old =
          λ c. ground (arith, h, other, c) in
        elim (Option-cases (Maps.get j new)) [
          | inl none_new ↦ ground (
            arith,
            none_new,
            other,
            get-remove j k m,
            patch-changes_of_old new old (Maps.remove j m) k d.1
                (λ c. ground (arith, get-remove j k m, other, before c)),
          )
          | inr (n, some_new) ↦ ground (
            arith,
            some_new,
            other,
            get-insert_sorted j k n m,
            patch-changes_of_old new old (insert_sorted j n m) k d.1
                (λ c. ground (arith, get-insert_sorted j k n m, other, before c)),
            patch-changes_of_old new old m k d.1 before,
          )
        ]
  ]

  patch-additions :
      (old new m : BTreeMap V) (k : String)
      → Maps.Distinct new
      → Maps.get k (patch (additions old new) m)
        ≡ (if contains_key k new && not (contains_key k old) then Maps.get k new else Maps.get k m)
  unfolding additions Maps.get contains_key
  patch-additions old [] m k d = ground arith
  patch-additions old ((j, v) ∷ new) m k d = elim (Bool-cases (contains_key j old)) [
    | inl there ↦ ground (
      arith,
      there,
      patch-additions old new m k d.1,
      d.0,
      eq_string.same_iff j k,
      contains_key-get k new,
      ap (λ i. contains_key i old),
    )
    | inr free ↦ ground (
      arith,
      free,
      patch-additions old new (insert_sorted j v m) k d.1,
      get-insert_sorted j k v m,
      d.0,
      eq_string.same_iff j k,
    )
  ]

  -- For two maps whose keys ascend, the changes applied to the old map one after the other give a map
  -- in which every key has what it has in the new map; and every change is true of the two maps: what
  -- it calls old, new, absent or different is so.
  pub diff_states-patch :
      (old new : BTreeMap V) (k : String)
      → IsAscending old
      → IsAscending new
      → (Maps.get k (patch (diff_states old new).changes old) ≡ Maps.get k new)
        × AllTrue old new (diff_states old new).changes
  unfolding diff_states
  diff_states-patch old new k a b =
      let d = IsAscending-Distinct old a in
      let d' = IsAscending-Distinct new b in
      (
        ap (Maps.get k) (patch-append (changes_of_old new old) (additions old new) old)
            ∙ ground (
              arith,
              patch-additions old new (patch (changes_of_old new old) old) k d',
              patch-changes_of_old new old old k d (λ c. refl),
              contains_key-get k old,
              contains_key-get k new,
            ),
        AllTrue-append old new (changes_of_old new old) (additions old new)
            (changes_of_old-AllTrue old new old d (λ j c. refl))
            (additions-AllTrue old new new d' (λ j c. refl)),
      )
