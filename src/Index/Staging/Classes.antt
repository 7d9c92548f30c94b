-- ===== src/Index/Staging/Classes.antt =====
-- crates/wll-index/src/index.rs: what the status says of a path.
use wll.Base.{
  ap, ℕ, suc, ◌+◌, ◌≡◌, ◌⊎◌, refl, sym, ◌∙◌, inl, inr, not, ◌&&◌, ◌||◌, List, [], ◌∷◌, ◌++◌, foldl,
  Option, none, some, String, ◌==◌, eq_string, arith, Bool-cases, if◌then◌else◌, append-nil,
}
use wll.Base.Maps
use wll.Base.Maps.{BTreeMap, values, contains_key, contains_key-get}
use wll.Base.Ascending.{IsAscending-Distinct}
use wll.Store.Object.{TreeCodec}
use wll.Store.Memory.{InMemoryObjectStore}
use wll.Types.Commitment.{Hash}
use wll.Index.Entry.{
  IndexEntry, StatusEntry, FileStatus, new, modified, deleted, WorkdirStatus, empty_status,
}
use wll.Index.Staging.{new_index, classify, status}
use wll.Index.Staging.Sound.{Call, run, run-IsSound}
use wll.Index.Staging.Keyed.{AllKeyed, empty-IsSound}

-- The statuses with which a list has the path.
abbrev pub statuses : String → List StatusEntry → List FileStatus
statuses path [] = []
statuses path (x ∷ xs) = if x.path == path then x.status ∷ statuses path xs else statuses path xs

-- How often a list has the path.
abbrev pub count : String → List String → ℕ
count path [] = 0
count path (x ∷ xs) = if x == path then suc (count path xs) else count path xs

-- An entry that is staged and not in conflict is staged as deleted, or as modified, or as new.
abbrev pub as_staged : IndexEntry → List FileStatus
as_staged e =
    if e.flags.conflict || not e.flags.staged
    then []
    else if e.flags.deleted
    then deleted ∷ []
    else if e.flags.modified
    then modified ∷ []
    else new ∷ []

-- It is modified, and none of the other.
abbrev pub as_modified : IndexEntry → List FileStatus
as_modified e =
    if e.flags.modified && not e.flags.staged && not e.flags.deleted && not e.flags.conflict
    then modified ∷ []
    else []

-- It is deleted, neither staged nor in conflict.
abbrev pub as_deleted : IndexEntry → ℕ
as_deleted e = if e.flags.deleted && not e.flags.staged && not e.flags.conflict then 1 else 0

abbrev pub as_conflict : IndexEntry → ℕ
as_conflict e = if e.flags.conflict then 1 else 0

abbrev pub of_entry : {A : Type 0} → A → (IndexEntry → A) → Option IndexEntry → A
of_entry a f none = a
of_entry a f (some e) = f e

-- The status lists the path where its entry belongs.
record IsClassified (before after : WorkdirStatus) (path : String) (o : Option IndexEntry)
    : Type 0 where
  staged : statuses path after.staged ≡ statuses path before.staged ++ of_entry [] as_staged o
  modified :
      statuses path after.modified ≡ statuses path before.modified ++ of_entry [] as_modified o
  deleted : count path after.deleted ≡ count path before.deleted + of_entry 0 as_deleted o
  conflicts : count path after.conflicts ≡ count path before.conflicts + of_entry 0 as_conflict o
  untracked : after.untracked ≡ before.untracked

statuses-append :
    (path : String) (xs ys : List StatusEntry)
    → statuses path (xs ++ ys) ≡ statuses path xs ++ statuses path ys
statuses-append path [] ys = refl
statuses-append path (x ∷ xs) ys = elim (Bool-cases (x.path == path)) [
  | inl e ↦ rw e (ap (λ l. x.status ∷ l) (statuses-append path xs ys))
  | inr e ↦ rw e (statuses-append path xs ys)
]

count-append :
    (path : String) (xs ys : List String) → count path (xs ++ ys) ≡ count path xs + count path ys
count-append path [] ys = omega arith
count-append path (x ∷ xs) ys = ground (arith, count-append path xs ys)

statuses-end :
    (path : String) (xs : List StatusEntry) (e : IndexEntry) (status : FileStatus)
    → statuses path (xs ++ record { path = e.path; status = status } ∷ [])
      ≡ statuses path xs ++ (if e.path == path then status ∷ [] else [])
statuses-end path xs e status =
    statuses-append path xs (record { path = e.path; status = status } ∷ [])

-- One round, for the path of the entry and for another one.
classify-IsClassified :
    (r : WorkdirStatus) (path : String) (e : IndexEntry)
    → IsClassified r (classify r e) path (if e.path == path then some e else none)
unfolding classify
classify-IsClassified r path e = record {
  staged = ground (
    arith,
    append-nil (statuses path r.staged),
    statuses-end path r.staged e new,
    statuses-end path r.staged e modified,
    statuses-end path r.staged e deleted,
  );
  modified =
      ground
        (arith, append-nil (statuses path r.modified), statuses-end path r.modified e modified);
  deleted = ground (arith, count-append path r.deleted (e.path ∷ []));
  conflicts = ground (arith, count-append path r.conflicts (e.path ∷ []));
  untracked = ground arith;
}

-- Two parts of the loop, of which at most one has the path.
then-IsClassified :
    (r s t : WorkdirStatus) (path : String) (o q : Option IndexEntry)
    → IsClassified r s path o
    → IsClassified s t path q
    → (o ≡ none) ⊎ (q ≡ none)
    → IsClassified r t path (elim o [ none ↦ q | some e ↦ some e ])
then-IsClassified r s t path none q a b h = record {
  staged = b.staged ∙ ap (λ l. l ++ of_entry [] as_staged q) (a.staged ∙ append-nil _);
  modified = b.modified ∙ ap (λ l. l ++ of_entry [] as_modified q) (a.modified ∙ append-nil _);
  deleted = omega (arith, a.deleted, b.deleted);
  conflicts = omega (arith, a.conflicts, b.conflicts);
  untracked = b.untracked ∙ a.untracked;
}
then-IsClassified r s t path (some e) none a b h = record {
  staged = b.staged ∙ append-nil _ ∙ a.staged;
  modified = b.modified ∙ append-nil _ ∙ a.modified;
  deleted = omega (arith, a.deleted, b.deleted);
  conflicts = omega (arith, a.conflicts, b.conflicts);
  untracked = b.untracked ∙ a.untracked;
}
then-IsClassified r s t path (some e) (some f) a b h = absurd (ground (arith, h))

foldl-IsClassified :
    (r : WorkdirStatus) (path : String) (m : BTreeMap IndexEntry)
    → AllKeyed m
    → Maps.Distinct m
    → IsClassified r (foldl classify r (values m)) path (Maps.get path m)
unfolding Maps.get contains_key
foldl-IsClassified r path [] a d = record {
  staged = sym (append-nil _);
  modified = sym (append-nil _);
  deleted = omega arith;
  conflicts = omega arith;
  untracked = refl;
}
foldl-IsClassified r path ((k, e) ∷ m) a d =
    let one = classify-IsClassified r path e in
    let rest = foldl-IsClassified (classify r e) path m a.1 d.1 in
    let same : (e.path == path) ≡ (k == path) = ap (λ j. j == path) a.0 in
    let both =
      then-IsClassified r (classify r e) (foldl classify r (e ∷ values m)) path _ _ one rest in
    elim (Bool-cases (k == path)) [
      | inr other ↦ rw other (rw (same ∙ other) at both (inl refl))
      | inl at ↦
          let gone : Maps.get path m ≡ none = ground (
            arith,
            contains_key-get path m,
            ap (λ j. contains_key j m) ((eq_string.same_iff k path).0 at),
            d.0,
          ) in
          rw at (rw (same ∙ at) at both (inr gone))
    ]

-- After any calls on a new index, and any writes of its callers to the flags of its entries, the status
-- lists a path as follows, by the flags of its entry, and no path without an entry: as staged once if
-- it is staged and not in conflict, namely as deleted if it is deleted, else as modified if it is
-- modified, else as new; as modified once if it is modified and neither staged, deleted nor in
-- conflict; as deleted once if it is deleted and neither staged nor in conflict; as a conflict once if
-- it is in conflict; and as untracked never.
pub status_lem :
    (blake3 : List ℕ → Hash) (json : TreeCodec) (cs : List Call) (store : InMemoryObjectStore)
    (path : String)
    → let s = run blake3 json cs (new_index store) in
      let entry = Maps.get path s.entries in
      (statuses path (status s).staged ≡ of_entry [] as_staged entry)
      × (statuses path (status s).modified ≡ of_entry [] as_modified entry)
      × (count path (status s).deleted ≡ of_entry 0 as_deleted entry)
      × (count path (status s).conflicts ≡ of_entry 0 as_conflict entry)
      × ((status s).untracked ≡ [])
unfolding status
status_lem blake3 json cs store path =
    let s = run blake3 json cs (new_index store) in
    let sound = run-IsSound blake3 json cs (new_index store) empty-IsSound in
    let c =
      foldl-IsClassified empty_status path s.entries sound.keyed
        (IsAscending-Distinct s.entries sound.ascends) in
    (c.staged, c.modified, omega (arith, c.deleted), omega (arith, c.conflicts), c.untracked)
