-- ===== src/Refs/Memory/Kept.antt =====
-- crates/wll-refs/src/memory.rs: what a write does, and what stays in the store through any calls.
use Prim.Native.String.{◌++◌}
use wll.Base.{
  ◌≡◌, ◌⊎◌, inl, inr, ◌≢◌, refl, ◌∙◌, ap, ◌==◌, eq_string, ◌&&◌, Bool, true, false, List, [], ◌∷◌,
  String, Option, none, some, arith, Bool-cases, if◌then◌else◌,
}
use wll.Base.Maps
use wll.Base.Maps.{get-insert, get-remove}
use wll.Base.Result.{ok, err, Result-cases}
use wll.Refs.Names.{RefError, lock_poisoned, tag_immutable, validate_branch_name}
use wll.Types.Commitment.{Hash}
use wll.Refs.Memory.{
  Ref, is_tag, InMemoryRefStore, Head, symbolic, detached, read_ref, validate_ref, holds_tag,
  write_ref, check_current, delete_ref, set_head, set_head_detached,
}

-- The calls that can change the store.
pub data Call : Type 0 where
  write : String → Ref → Call
  delete : String → Call
  attach : String → Call
  detach : Hash → Call

unfoldable pub perform : Call → InMemoryRefStore → InMemoryRefStore
perform (write name r) s = (write_ref name r s).1
perform (delete name) s = (delete_ref name s).1
perform (attach name) s = (set_head name s).1
perform (detach h) s = (set_head_detached h s).1

unfoldable pub run : List Call → InMemoryRefStore → InMemoryRefStore
unfolding perform
run [] s = s
run (c ∷ cs) s = run cs (perform c s)

-- What a write that is let through leaves, and when it is not.
write_ref_lem :
    (name : String) (r : Ref) (s : InMemoryRefStore)
    → (((write_ref name r s).0 ≡ ok tt)
        × ((write_ref name r s).1 ≡ record s { refs = Maps.insert name r s.refs })
        × (is_tag r && holds_tag name s.refs ≡ false)
        × (s.refs_poisoned ≡ false))
      ⊎ ((e : RefError) × (write_ref name r s ≡ (err e, s)))
unfolding write_ref
write_ref_lem name r s = elim (Result-cases (validate_ref r)) [
  | inr bad ↦ inr (bad.0, rw bad.1 refl)
  | inl good ↦ elim (Bool-cases s.refs_poisoned) [
    | inl p ↦ inr (lock_poisoned, rw (good.1, p) refl)
    | inr p ↦ elim (Bool-cases (is_tag r && holds_tag name s.refs)) [
      | inl t ↦ inr (tag_immutable name, rw (good.1, p, t) refl)
      | inr t ↦ inl (rw (good.1, p, t) refl, rw (good.1, p, t) refl, t, p)
    ]
  ]
]

delete_ref_lem :
    (name : String) (s : InMemoryRefStore)
    → (((delete_ref name s).1 ≡ record s { refs = Maps.remove name s.refs })
        × (check_current name s.current ≡ ok tt))
      ⊎ ((delete_ref name s).1 ≡ s)
unfolding delete_ref
delete_ref_lem name s = elim (Bool-cases s.head_poisoned) [
  | inl p ↦ inr (rw p refl)
  | inr p ↦ elim (Result-cases (check_current name s.current)) [
    | inr bad ↦ inr (rw (p, bad.1) refl)
    | inl good ↦ elim (Bool-cases s.refs_poisoned) [
      | inl q ↦ inr (rw (p, good.1, q) refl)
      | inr q ↦ inl (rw (p, good.1, q) refl, good.1)
    ]
  ]
]

-- A write either succeeds, and then a read gives what was written, and at any other name what the
-- store had there before; or it reports an error and the store is as it was.
pub write_ref-read_ref :
    (name at : String) (r : Ref) (s : InMemoryRefStore)
    → (((write_ref name r s).0 ≡ ok tt)
        × ((read_ref at (write_ref name r s).1).0
            ≡ ok (if name == at then some r else Maps.get at s.refs)))
      ⊎ ((e : RefError) × (write_ref name r s ≡ (err e, s)))
unfolding read_ref
write_ref-read_ref name at r s = elim (write_ref_lem name r s) [
  | inr bad ↦ inr bad
  | inl done ↦ inl (done.0, rw (done.1, done.3) (ap ok (get-insert name at r s.refs)))
]

-- The call neither deletes `name` nor writes something other than a tag there.
abbrev pub Spares : String → Call → Type 0
Spares name (write at r) = at ≡ name → is_tag r ≡ true
Spares name (delete at) = at ≢ name
Spares name (attach _) = Unit {0}
Spares name (detach _) = Unit {0}

abbrev pub AllSpare : String → List Call → Type 0
AllSpare name [] = Unit {0}
AllSpare name (c ∷ cs) = Spares name c × AllSpare name cs

set_head-refs : (name : String) (s : InMemoryRefStore) → (set_head name s).1.refs ≡ s.refs
unfolding set_head
set_head-refs name s = elim (Result-cases (validate_branch_name name)) [
  | inr bad ↦ rw bad.1 refl
  | inl good ↦ elim (Bool-cases s.head_poisoned) [
    | inl p ↦ rw (good.1, p) refl
    | inr p ↦ rw (good.1, p) refl
  ]
]

set_head_detached-refs : (h : Hash) (s : InMemoryRefStore) → (set_head_detached h s).1.refs ≡ s.refs
unfolding set_head_detached
set_head_detached-refs h s = elim (Bool-cases s.head_poisoned) [
  | inl p ↦ rw p refl
  | inr p ↦ rw p refl
]

-- A tag is not written over a tag.
no_overwrite :
    (name at : String) (t r : Ref) (s : InMemoryRefStore)
    → at ≡ name
    → (at ≡ name → is_tag r ≡ true)
    → Maps.get name s.refs ≡ some t
    → is_tag t ≡ true
    → is_tag r && holds_tag at s.refs ≡ false
    → ⊥
unfolding holds_tag
no_overwrite name at t r s same spares here is free =
    ground (arith, spares same, ap (λ k. Maps.get k s.refs) same, here, is, free)

perform-tag :
    (name : String) (t : Ref) (c : Call) (s : InMemoryRefStore)
    → Spares name c
    → Maps.get name s.refs ≡ some t
    → is_tag t ≡ true
    → Maps.get name (perform c s).refs ≡ some t
unfolding perform
perform-tag name t (write at r) s spares here is = elim (write_ref_lem at r s) [
  | inr bad ↦ rw (perform, bad.1) here
  | inl done ↦ elim (Bool-cases (at == name)) [
    | inr other ↦ rw (perform, done.1) (get-insert at name r s.refs ∙ ground (arith, other, here))
    | inl same ↦
        absurd
          (no_overwrite name at t r s ((eq_string.same_iff at name).0 same) spares here is done.2)
  ]
]
perform-tag name t (delete at) s spares here is = elim (delete_ref_lem at s) [
  | inr same ↦ rw (perform, same) here
  | inl done ↦
      rw (perform, done.0)
        (get-remove at name s.refs ∙ ground (arith, eq_string.same_iff at name, spares, here))
]
perform-tag name t (attach at) s spares here is = rw (perform, set_head-refs at s) here
perform-tag name t (detach h) s spares here is = rw (perform, set_head_detached-refs h s) here

-- A tag stays what it is through any calls that neither delete its name nor write something other than
-- a tag there: no write of a tag moves it.
pub tag_kept :
    (name : String) (t : Ref) (calls : List Call) (s : InMemoryRefStore)
    → AllSpare name calls
    → Maps.get name s.refs ≡ some t
    → is_tag t ≡ true
    → Maps.get name (run calls s).refs ≡ some t
unfolding run
tag_kept name t [] s spare here is = here
tag_kept name t (c ∷ cs) s spare here is =
    tag_kept name t cs (perform c s) spare.1 (perform-tag name t c s spare.0 here is) is

-- A reference that is no tag and has a valid name takes the place of a tag: the guard on tags does
-- not look at it.
pub write_ref-over_tag :
    (name : String) (t r : Ref) (s : InMemoryRefStore)
    → Maps.get name s.refs ≡ some t
    → is_tag t ≡ true
    → is_tag r ≡ false
    → validate_ref r ≡ ok tt
    → s.refs_poisoned ≡ false
    → (read_ref name (write_ref name r s).1).0 ≡ ok (some r)
unfolding write_ref read_ref
write_ref-over_tag name t r s here is plain valid healthy =
    rw (valid, healthy, plain)
      (ap ok (get-insert name name r s.refs) ∙ ground (arith, eq_string.same_iff name name))

abbrev current_test : String → Option Head → Bool
current_test name (some (symbolic at)) = name == "refs/heads/" ++ at
current_test name _ = false

not_current :
    (at name : String) (current : Option Head)
    → current ≡ some (symbolic at)
    → check_current name current ≡ ok tt
    → (name == "refs/heads/" ++ at) ≡ false
unfolding check_current
not_current at name none e h = ground arith
not_current at name (some (detached _)) e h = ground arith
not_current at name (some (symbolic b)) e h = elim (Bool-cases (name == "refs/heads/" ++ at)) [
  | inr other ↦ other
  | inl same ↦ absurd (ground (arith, ap (current_test name) e, same, h))
]

-- No deletion removes the branch that HEAD names.
pub delete_ref-keeps_current :
    (at name : String) (s : InMemoryRefStore)
    → s.current ≡ some (symbolic at)
    → Maps.get ("refs/heads/" ++ at) (delete_ref name s).1.refs
      ≡ Maps.get ("refs/heads/" ++ at) s.refs
delete_ref-keeps_current at name s here = elim (delete_ref_lem name s) [
  | inr same ↦ rw same refl
  | inl done ↦ rw done.0 (
      get-remove name ("refs/heads/" ++ at) s.refs
      ∙ rw (not_current at name s.current here done.1) refl)
]
