-- ===== src/Index/Staging/Restored.antt =====
-- crates/wll-index/src/index.rs: the entries that a tree keeps, and that are made of it again.
use wll.Base.{
  ap, ℕ, ◌≡◌, refl, ◌∙◌, inl, inr, false, List, [], ◌∷◌, map, Option, none, some, String, contains,
  ◌==◌, eq_nat, eq_string, if◌then◌else◌, arith, Bool-cases,
}
use wll.Base.Maps
use wll.Base.Maps.{
  BTreeMap, insert_sorted, get-insert_sorted, values, contains_key, contains_key-get,
}
use wll.Base.Ascending.{IsAscending-Distinct}
use wll.Base.Sort.{insert_by, sort_by, contains-sort_by, contains-insert_by}
use wll.Store.Object.{TreeEntry, name_le, new_tree, find_entry}
use wll.Index.Entry.{IndexEntry, new_entry}
use wll.Index.Staging.{is_committed, tree_entry, staged_entries, load_entries}
use wll.Index.Staging.Keyed.{AllKeyed, IsSound}

abbrev pub names : List TreeEntry → List String
names = map (λ t. t.name)

abbrev pub NoDup : List TreeEntry → Type 0
NoDup [] = Unit {0}
NoDup (t ∷ ts) = (contains (names ts) t.name ≡ false) × NoDup ts

abbrev pub loaded : ℕ → Option TreeEntry → Option IndexEntry
loaded now none = none
loaded now (some t) = some (new_entry t.name t.object_id t.mode 0 now)

pub find_entry-none :
    (p : String) (ts : List TreeEntry) → contains (names ts) p ≡ false → find_entry p ts ≡ none
unfolding find_entry
find_entry-none p [] h = refl
find_entry-none p (t ∷ ts) h = ground (arith, find_entry-none p ts, h)

pub get-load_entries :
    (now : ℕ) (p : String) (ts : List TreeEntry) (m : BTreeMap IndexEntry)
    → NoDup ts
    → Maps.get p (load_entries now ts m)
      ≡ elim (find_entry p ts) [ none ↦ Maps.get p m | some t ↦ loaded now (some t) ]
unfolding load_entries find_entry
get-load_entries now p [] m u = refl
get-load_entries now p (t ∷ ts) m u =
    let e = new_entry t.name t.object_id t.mode 0 now in
    let rest = get-load_entries now p ts (insert_sorted t.name e m) u.1 in
    elim (Bool-cases (t.name == p)) [
      | inr other ↦ ground (arith, rest, get-insert_sorted t.name p e m, other)
      | inl same ↦
          let gone : find_entry p ts ≡ none =
            find_entry-none p ts (rw ((eq_string.same_iff t.name p).0 same) at u.0) in
          ground (arith, rest, get-insert_sorted t.name p e m, same, gone)
    ]

pub insert_by-NoDup :
    (t : TreeEntry) (ts : List TreeEntry)
    → contains (names ts) t.name ≡ false
    → NoDup ts
    → NoDup (insert_by name_le t ts)
unfolding insert_by
insert_by-NoDup t [] h u = (refl, tt)
insert_by-NoDup t (x ∷ ts) h u = elim (Bool-cases (name_le t x)) [
  | inl e ↦ rw e (h, u)
  | inr e ↦ rw e (
    ground (
      arith,
      contains-insert_by name_le (λ (y : TreeEntry). y.name) t ts x.name,
      u.0,
      h,
      eq_string.same_iff t.name x.name,
      eq_string.same_iff x.name t.name,
    ),
    insert_by-NoDup t ts (ground (arith, h)) u.1,
  )
]

pub find_entry-insert_by :
    (p : String) (t : TreeEntry) (ts : List TreeEntry)
    → contains (names ts) t.name ≡ false
    → find_entry p (insert_by name_le t ts) ≡ find_entry p (t ∷ ts)
unfolding insert_by find_entry
find_entry-insert_by p t [] h = refl
find_entry-insert_by p t (x ∷ ts) h = elim (Bool-cases (name_le t x)) [
  | inl e ↦ rw e refl
  | inr e ↦ rw e (
      ground (
        arith,
        find_entry-insert_by p t ts,
        h,
        eq_string.same_iff t.name p,
        eq_string.same_iff x.name p,
        eq_string.same_iff x.name t.name,
      ))
]

-- Sorting entries with different names changes no look-up.
pub sort_by-find_entry :
    (p : String) (ts : List TreeEntry)
    → NoDup ts
    → NoDup (sort_by name_le ts) × (find_entry p (sort_by name_le ts) ≡ find_entry p ts)
unfolding sort_by find_entry
sort_by-find_entry p [] u = (tt, refl)
sort_by-find_entry p (t ∷ ts) u =
    let rest = sort_by-find_entry p ts u.1 in
    let free : contains (names (sort_by name_le ts)) t.name ≡ false =
      contains-sort_by name_le (λ (y : TreeEntry). y.name) ts t.name ∙ u.0 in
    (
      insert_by-NoDup t (sort_by name_le ts) free rest.0,
      ground (arith, find_entry-insert_by p t (sort_by name_le ts) free, rest.1),
    )

-- What a written tree keeps of an entry.
abbrev pub committed : Option IndexEntry → Option TreeEntry
committed none = none
committed (some e) = if is_committed e then some (tree_entry e) else none

pub contains-staged_entries :
    (m : BTreeMap IndexEntry) (p : String)
    → AllKeyed m
    → contains_key p m ≡ false
    → contains (names (staged_entries (values m))) p ≡ false
unfolding staged_entries contains_key
contains-staged_entries [] p a h = refl
contains-staged_entries ((k, e) ∷ m) p a h =
    let same : (e.path == p) ≡ (k == p) = ap (λ j. j == p) a.0 in
    ground (arith, contains-staged_entries m p a.1, same, h)

pub staged_entries-NoDup :
    (m : BTreeMap IndexEntry) → AllKeyed m → Maps.Distinct m → NoDup (staged_entries (values m))
unfolding staged_entries
staged_entries-NoDup [] a d = tt
staged_entries-NoDup ((k, e) ∷ m) a d = elim (Bool-cases (is_committed e)) [
  | inr off ↦ rw (staged_entries, off) (staged_entries-NoDup m a.1 d.1)
  | inl on ↦
      rw (staged_entries, on)
        (contains-staged_entries m e.path a.1 (rw a.0 d.0), staged_entries-NoDup m a.1 d.1)
]

pub find_entry-staged_entries :
    (p : String) (m : BTreeMap IndexEntry)
    → AllKeyed m
    → Maps.Distinct m
    → find_entry p (staged_entries (values m)) ≡ committed (Maps.get p m)
unfolding staged_entries find_entry Maps.get
find_entry-staged_entries p [] a d = refl
find_entry-staged_entries p ((k, e) ∷ m) a d =
    let same : (e.path == p) ≡ (k == p) = ap (λ j. j == p) a.0 in
    let rest = find_entry-staged_entries p m a.1 d.1 in
    elim (Bool-cases (k == p)) [
      | inr other ↦ ground (arith, rest, same, other)
      | inl here ↦
          let gone : contains_key p m ≡ false = rw ((eq_string.same_iff k p).0 here) at d.0 in
          ground (arith, rest, same, here, contains_key-get p m, gone)
    ]

-- The entry that is read back for a path: unstaged, with size 0 and a new time.
abbrev pub restored : ℕ → Option IndexEntry → Option IndexEntry
restored now none = none
restored now (some e) =
    if is_committed e then some (new_entry e.path e.object_id e.mode 0 now) else none

pub get-reloaded :
    (now : ℕ) (p : String) (m : BTreeMap IndexEntry)
    → IsSound m
    → Maps.get p (load_entries now (new_tree (staged_entries (values m))).entries [])
      ≡ restored now (Maps.get p m)
unfolding new_tree Maps.get
get-reloaded now p m s =
    let d = IsAscending-Distinct m s.ascends in
    let ts = staged_entries (values m) in
    let sorted = sort_by-find_entry p ts (staged_entries-NoDup m s.keyed d) in
    ground (
      arith,
      get-load_entries now p (sort_by name_le ts) [] sorted.0,
      sorted.1,
      find_entry-staged_entries p m s.keyed d,
    )
