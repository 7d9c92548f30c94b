-- ===== src/Index/Entry.antt =====
-- crates/wll-index/src/entry.rs, status.rs and error.rs: entries of the index, the status and errors.
-- A `SystemTime` is a number.
use wll.Base.{ℕ, String, Bool, true, false, ◌&&◌, List, [], is_empty, length, ◌+◌, not}
use wll.Types.Commitment.{ObjectId}
use wll.Store.Object.{EntryMode, StoreError}

pub record IndexFlags : Type 0 where
  pub staged : Bool
  pub modified : Bool
  pub deleted : Bool
  pub conflict : Bool

abbrev pub default_flags : IndexFlags
default_flags = record { staged = false; modified = false; deleted = false; conflict = false }

abbrev pub staged_flags : IndexFlags
staged_flags = record default_flags { staged = true }

pub record IndexEntry : Type 0 where
  pub path : String
  pub object_id : ObjectId
  pub mode : EntryMode
  pub size : ℕ
  pub mtime : ℕ
  pub flags : IndexFlags

abbrev pub new_entry : String → ObjectId → EntryMode → ℕ → ℕ → IndexEntry
new_entry path object_id mode size now = record {
  path = path;
  object_id = object_id;
  mode = mode;
  size = size;
  mtime = now;
  flags = default_flags;
}

abbrev pub new_staged : String → ObjectId → EntryMode → ℕ → ℕ → IndexEntry
new_staged path object_id mode size now = record (new_entry path object_id mode size now) {
  flags = staged_flags;
}

pub data FileStatus : Type 0 where
  new modified deleted : FileStatus
  renamed copied : String → FileStatus

pub record StatusEntry : Type 0 where
  pub path : String
  pub status : FileStatus

pub record WorkdirStatus : Type 0 where
  pub staged : List StatusEntry
  pub modified : List StatusEntry
  pub untracked : List String
  pub deleted : List String
  pub conflicts : List String

abbrev pub empty_status : WorkdirStatus
empty_status = record { staged = []; modified = []; untracked = []; deleted = []; conflicts = [] }

abbrev pub is_clean : WorkdirStatus → Bool
is_clean s =
    is_empty s.staged
    && is_empty s.modified
    && is_empty s.untracked
    && is_empty s.deleted
    && is_empty s.conflicts

abbrev pub has_staged_changes : WorkdirStatus → Bool
has_staged_changes s = not (is_empty s.staged)

abbrev pub total_entries : WorkdirStatus → ℕ
total_entries s =
    length s.staged + length s.modified + length s.untracked + length s.deleted + length s.conflicts

pub data IndexError : Type 0 where
  path_not_found already_staged : String → IndexError
  object_not_found : ObjectId → IndexError
  -- the paths, joined
  unresolved_conflict : List String → IndexError
  store_error : StoreError → IndexError
  -- a tree that cannot be encoded or decoded
  serialization : StoreError → IndexError
  invalid_path : String → IndexError
  -- the path, in the text of a `PathNotFound`
  no_conflict : String → IndexError
