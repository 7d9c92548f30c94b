-- ===== src/Index/Staging.antt =====
-- crates/wll-index/src/index.rs: the index over the store in memory, which it holds as a shared
-- object. A path that is found is changed in place; `now` is what the system clock gives.
pub mod Keyed
pub mod Sound
pub mod Classes
pub mod Restored
pub mod Trees
use wll.Base.{
  ℕ, Bool, true, false, not, ◌&&◌, any, List, [], ◌∷◌, ◌++◌, foldl, map, Option, none, some, length,
  String, ◌==◌, eq_nat, eq_string, if◌then◌else◌,
}
use wll.Base.Maps
use wll.Base.Maps.{BTreeMap, insert_sorted, values}
use wll.Base.Result.{Result, ok, err, map_err, ok_or, fail_if}
use wll.Base.Exec.{Exec, pure, lift, gets, modify, ◌>>=◌, ◌>>◌}
use wll.Types.Commitment.{Hash, ObjectId}
use wll.Store.Object.{
  EntryMode, TreeEntry, Tree, TreeCodec, StoreError, new_tree, to_stored_blob, to_stored_tree,
  from_stored_tree,
}
use wll.Store.Memory
use wll.Store.Memory.{InMemoryObjectStore}
use wll.Index.Entry.{
  IndexEntry, IndexFlags, new_entry, new_staged, WorkdirStatus, StatusEntry, empty_status, new,
  modified, deleted, IndexError, path_not_found, object_not_found, unresolved_conflict, store_error,
  serialization, invalid_path, no_conflict,
}

pub record Index : Type 0 where
  pub version : ℕ
  pub entries : BTreeMap IndexEntry
  pub tree_cache : Option ObjectId
  pub store : InMemoryObjectStore

abbrev pub new_index : InMemoryObjectStore → Index
new_index store = record { version = 1; entries = []; tree_cache = none; store = store }

-- A call of the store, by `?`.
abbrev pub in_store : {A : Type 0} → Exec InMemoryObjectStore StoreError A → Exec Index IndexError A
in_store m s = (map_err store_error (m s.store).0, record s { store = (m s.store).1 })

-- New entries, and no cached tree.
abbrev pub with_entries : BTreeMap IndexEntry → Index → Index
with_entries entries s = record s { entries = entries; tree_cache = none }

-- `self.entries.get_mut(path).ok_or_else(..)?`
abbrev pub entry_at : String → Exec Index IndexError IndexEntry
entry_at path s = (ok_or (Maps.get path s.entries) (path_not_found path), s)

abbrev pub put_entry : String → IndexEntry → Exec Index IndexError (Unit {0})
put_entry path entry = modify (λ s. with_entries (insert_sorted path entry s.entries) s)

abbrev pub is_blank : String → Bool
is_blank path = path == ""

unfoldable pub stage_file :
    (List ℕ → Hash) → String → List ℕ → EntryMode → ℕ → Exec Index IndexError (Unit {0})
stage_file blake3 path content mode now = do
  lift (fail_if (is_blank path) (invalid_path "empty path"))
  object_id ← in_store (Memory.write blake3 (to_stored_blob content))
  put_entry path (new_staged path object_id mode (length content) now)

unfoldable pub stage_object :
    String → ObjectId → EntryMode → ℕ → ℕ → Exec Index IndexError (Unit {0})
stage_object path object_id mode size now = do
  lift (fail_if (is_blank path) (invalid_path "empty path"))
  put_entry path (new_staged path object_id mode size now)

abbrev pub unstaged : IndexEntry → IndexEntry
unstaged entry = record entry { flags = record entry.flags { staged = false } }

unfoldable pub unstage_file : String → Exec Index IndexError (Unit {0})
unstage_file path = do entry ← entry_at path; put_entry path (unstaged entry)

unfoldable pub unstage_entries : BTreeMap IndexEntry → BTreeMap IndexEntry
unstage_entries [] = []
unstage_entries ((path, entry) ∷ m) = (path, unstaged entry) ∷ unstage_entries m

unfoldable pub unstage_all : Index → Index
unfolding unstage_entries
unstage_all s = with_entries (unstage_entries s.entries) s

-- The cache is emptied for a path that is not there too.
unfoldable pub remove : String → Exec Index IndexError IndexEntry
remove path = do
  found ← gets (λ s. Maps.get path s.entries)
  modify (λ s. with_entries (Maps.remove path s.entries) s)
  lift (ok_or found (path_not_found path))

unfoldable pub mark_deleted : String → Exec Index IndexError (Unit {0})
mark_deleted path = do
  entry ← entry_at path
  put_entry path (record entry { flags = record entry.flags { deleted = true; staged = true } })

unfoldable pub mark_conflict : String → Exec Index IndexError (Unit {0})
mark_conflict path = do
  entry ← entry_at path
  put_entry path (record entry { flags = record entry.flags { conflict = true; staged = false } })

unfoldable pub resolve_conflict : String → ObjectId → ℕ → ℕ → Exec Index IndexError (Unit {0})
resolve_conflict path object_id size now = do
  entry ← entry_at path
  lift (fail_if (not entry.flags.conflict) (no_conflict path))
  put_entry path (record entry {
    object_id = object_id;
    size = size;
    mtime = now;
    flags = record entry.flags { conflict = false; staged = true };
  })

-- What a caller does with the public entries before it asks for the status: it writes the flags of the
-- entry at a path. The cached tree stays.
unfoldable pub set_flags : String → IndexFlags → Index → Index
set_flags path flags s = elim (Maps.get path s.entries) [
  | none ↦ s
  | some entry ↦ record s {
    entries = insert_sorted path (record entry { flags = flags }) s.entries;
  }
]

abbrev pub in_conflict : IndexEntry → Bool
in_conflict e = e.flags.conflict

unfoldable pub has_conflicts : Index → Bool
has_conflicts s = any in_conflict (values s.entries)

unfoldable pub conflicting : List IndexEntry → List String
conflicting [] = []
conflicting (e ∷ es) = let rest = conflicting es in if in_conflict e then e.path ∷ rest else rest

abbrev pub conflict_paths : Index → List String
conflict_paths s = conflicting (values s.entries)

-- one round of `status`
unfoldable pub classify : WorkdirStatus → IndexEntry → WorkdirStatus
classify r e =
    if e.flags.conflict
    then record r { conflicts = r.conflicts ++ e.path ∷ [] }
    else if e.flags.deleted && e.flags.staged
    then record r { staged = r.staged ++ record { path = e.path; status = deleted } ∷ [] }
    else if e.flags.deleted
    then record r { deleted = r.deleted ++ e.path ∷ [] }
    else if e.flags.staged && e.flags.modified
    then record r { staged = r.staged ++ record { path = e.path; status = modified } ∷ [] }
    else if e.flags.staged
    then record r { staged = r.staged ++ record { path = e.path; status = new } ∷ [] }
    else if e.flags.modified
    then record r { modified = r.modified ++ record { path = e.path; status = modified } ∷ [] }
    else r

unfoldable pub status : Index → WorkdirStatus
status s = foldl classify empty_status (values s.entries)

abbrev pub tree_entry : IndexEntry → TreeEntry
tree_entry e = record { mode = e.mode; name = e.path; object_id = e.object_id }

abbrev pub is_committed : IndexEntry → Bool
is_committed e = e.flags.staged && not e.flags.deleted

unfoldable pub staged_entries : List IndexEntry → List TreeEntry
staged_entries [] = []
staged_entries (e ∷ es) =
    let rest = staged_entries es in if is_committed e then tree_entry e ∷ rest else rest

unfoldable pub load_entries : ℕ → List TreeEntry → BTreeMap IndexEntry → BTreeMap IndexEntry
load_entries now [] m = m
load_entries now (t ∷ ts) m =
    load_entries now ts (insert_sorted t.name (new_entry t.name t.object_id t.mode 0 now) m)

module _ (blake3 : List ℕ → Hash) (json : TreeCodec) where
  unfoldable pub write_tree : Exec Index IndexError ObjectId
  write_tree = do
    s ← gets (λ s. s)
    lift (fail_if (has_conflicts s) (unresolved_conflict (conflict_paths s)))
    stored ←
        lift (
          map_err serialization
            (to_stored_tree json (new_tree (staged_entries (values s.entries)))))
    tree_id ← in_store (Memory.write blake3 stored)
    modify (λ s. record s { tree_cache = some tree_id })
    pure tree_id

  unfoldable pub read_tree : ObjectId → ℕ → Exec Index IndexError (Unit {0})
  read_tree tree_id now = do
    s ← gets (λ s. s)
    stored ← lift (ok_or (Memory.read tree_id s.store) (object_not_found tree_id))
    tree ← lift (map_err serialization (from_stored_tree json blake3 stored))
    modify (λ s. record s { entries = load_entries now tree.entries []; tree_cache = some tree_id })
