-- ===== src/Index/Staging/Keyed.antt =====
-- crates/wll-index/src/index.rs: entries under their own paths, in the order of the paths.
use wll.Base.{
  ap, ℕ, ◌≡◌, refl, sym, ◌∙◌, inl, inr, List, [], ◌∷◌, some, String, ◌==◌, eq_string, arith,
  Bool-cases,
}
use Prim.Native.String.{compare}
use mathlib.Core.Option.{some-injective}
use wll.Base.Maps
use wll.Base.Maps.{BTreeMap, insert_sorted, values, contains_key, contains_key-get}
use wll.Base.Ascending.{Ordering-cases, IsAscending, Below, insert_sorted-IsAscending}
use wll.Store.Object.{TreeEntry}
use wll.Index.Entry.{IndexEntry, new_entry}
use wll.Index.Staging.{unstage_entries, load_entries}

abbrev pub AllKeyed : BTreeMap IndexEntry → Type 0
AllKeyed [] = Unit {0}
AllKeyed ((k, e) ∷ m) = (e.path ≡ k) × AllKeyed m

-- Every entry stands under its own path, and the paths ascend.
pub record IsSound (m : BTreeMap IndexEntry) : Type 0 where
  pub ascends : IsAscending m
  pub keyed : AllKeyed m

pub AllKeyed-get :
    (k : String) (e : IndexEntry) (m : BTreeMap IndexEntry)
    → AllKeyed m
    → Maps.get k m ≡ some e
    → e.path ≡ k
unfolding Maps.get
AllKeyed-get k e [] a h = ground arith
AllKeyed-get k e ((j, f) ∷ m) a h = elim (Bool-cases (j == k)) [
  | inr other ↦ AllKeyed-get k e m a.1 (rw other at h)
  | inl same ↦
      let found : some f ≡ some e = rw same at h in
      ap (λ (x : IndexEntry). x.path) (sym (some-injective f e found))
      ∙ a.0
      ∙ (eq_string.same_iff j k).0 same
]

pub insert_sorted-AllKeyed :
    (k : String) (e : IndexEntry) (m : BTreeMap IndexEntry)
    → e.path ≡ k
    → AllKeyed m
    → AllKeyed (insert_sorted k e m)
unfolding insert_sorted
insert_sorted-AllKeyed k e [] h a = (h, tt)
insert_sorted-AllKeyed k e ((j, f) ∷ m) h a = elim (Ordering-cases (compare j k)) [
  | inl lt ↦ rw (insert_sorted, lt) (a.0, insert_sorted-AllKeyed k e m h a.1)
  | inr (inl eq) ↦ rw (insert_sorted, eq) (h, a.1)
  | inr (inr gt) ↦ rw (insert_sorted, gt) (h, a)
]

pub remove-AllKeyed :
    (k : String) (m : BTreeMap IndexEntry) → AllKeyed m → AllKeyed (Maps.remove k m)
unfolding Maps.remove
remove-AllKeyed k [] a = tt
remove-AllKeyed k ((j, f) ∷ m) a = elim (Bool-cases (j == k)) [
  | inl e ↦ rw e (remove-AllKeyed k m a.1)
  | inr e ↦ rw e (a.0, remove-AllKeyed k m a.1)
]

pub insert_sorted-IsSound :
    (k : String) (e : IndexEntry) (m : BTreeMap IndexEntry)
    → e.path ≡ k
    → IsSound m
    → IsSound (insert_sorted k e m)
insert_sorted-IsSound k e m h s = record {
  ascends = insert_sorted-IsAscending k e m s.ascends;
  keyed = insert_sorted-AllKeyed k e m h s.keyed;
}

pub empty-IsSound : IsSound []
empty-IsSound = record { ascends = tt; keyed = tt }

pub unstage_entries-Below :
    (k : String) (m : BTreeMap IndexEntry) → Below k m → Below k (unstage_entries m)
unfolding unstage_entries
unstage_entries-Below k [] b = tt
unstage_entries-Below k ((j, e) ∷ m) b = (b.0, unstage_entries-Below k m b.1)

pub unstage_entries-IsAscending :
    (m : BTreeMap IndexEntry) → IsAscending m → IsAscending (unstage_entries m)
unfolding unstage_entries
unstage_entries-IsAscending [] a = tt
unstage_entries-IsAscending ((j, e) ∷ m) a =
    (unstage_entries-Below j m a.0, unstage_entries-IsAscending m a.1)

pub unstage_entries-AllKeyed : (m : BTreeMap IndexEntry) → AllKeyed m → AllKeyed (unstage_entries m)
unfolding unstage_entries
unstage_entries-AllKeyed [] a = tt
unstage_entries-AllKeyed ((j, e) ∷ m) a = (a.0, unstage_entries-AllKeyed m a.1)

pub load_entries-IsSound :
    (now : ℕ) (ts : List TreeEntry) (m : BTreeMap IndexEntry)
    → IsSound m
    → IsSound (load_entries now ts m)
unfolding load_entries
load_entries-IsSound now [] m s = s
load_entries-IsSound now (t ∷ ts) m s =
    load_entries-IsSound now ts (insert_sorted t.name (new_entry t.name t.object_id t.mode 0 now) m)
      (insert_sorted-IsSound t.name (new_entry t.name t.object_id t.mode 0 now) m refl s)
