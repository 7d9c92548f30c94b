-- ===== src/Index/Tests.antt =====
-- A codec for trees of at most one regular file named a, and an index with this file staged.
use wll.Base.{
  ℕ, ◌+◌, ◌++◌, bytes_of, ◌==◌, ◌≡◌, eq_string, eq_nat, refl, inl, inr, true, List, [], ◌∷◌, none,
  foldl, String, arith, Bool-cases, if◌then◌else◌,
}
use wll.Base.Maps
use wll.Base.Maps.{contains_key, insert_sorted}
use wll.Base.Result.{Result, ok, err}
use wll.Types.Commitment.{Hash, ObjectId}
use wll.Crypto.Hasher.{hash}
use wll.Base.Sort.{sort_by, insert_by}
use wll.Store.Object.{
  EntryMode, regular, executable, symlink, directory, TreeEntry, Tree, TreeCodec, new_tree,
  to_stored_tree, compute_id, hasher_of,
}
use wll.Store.Memory
use wll.Store.Memory.{InMemoryObjectStore}
use wll.Index.Entry.{staged_flags, modified}
use wll.Index.Staging.{
  Index, new_index, status, write_tree, read_tree, stage_file, unstage_file, staged_entries,
  has_conflicts, conflicting, classify, mark_conflict, set_flags,
}
use wll.Index.Staging.Sound.{Call, stage, clash, flag, unstage, run, perform}
use wll.Index.Staging.Classes.{
  statuses, count, of_entry, as_staged, as_modified, as_deleted, as_conflict, status_lem,
}
use wll.Index.Staging.Trees.{write_tree-read_tree}
use wll.Index.Staging.Restored.{restored}

abbrev sum : List ℕ → Hash
sum = foldl (λ n b. n + b) 1

abbrev encode_entry : EntryMode → String → ObjectId → Result String (List ℕ)
encode_entry regular name id = if name == "a" then ok (id ∷ []) else err "name"
encode_entry _ name id = err "mode"

abbrev encode : List TreeEntry → Result String (List ℕ)
encode [] = ok []
encode (t ∷ []) = encode_entry t.mode t.name t.object_id
encode (t ∷ u ∷ ts) = err "too many"

abbrev decode : List ℕ → Result String Tree
decode [] = ok record { entries = [] }
decode (id ∷ ids) =
    ok record { entries = record { mode = regular; name = "a"; object_id = id } ∷ [] }

abbrev json : TreeCodec
json = record { to_vec = λ t. encode t.entries; from_slice = decode }

decode-encode_entry :
    (mode : EntryMode) (name : String) (id : ObjectId) (bytes : List ℕ)
    → encode_entry mode name id ≡ ok bytes
    → decode bytes
      ≡ ok record { entries = record { mode = mode; name = name; object_id = id } ∷ [] }
decode-encode_entry regular name id bytes h = elim (Bool-cases (name == "a")) [
  | inl e ↦ ground (arith, h, e, eq_string.same_iff name "a")
  | inr e ↦ ground (arith, h, e)
]
decode-encode_entry executable name id bytes h = ground (arith, h)
decode-encode_entry symlink name id bytes h = ground (arith, h)
decode-encode_entry directory name id bytes h = ground (arith, h)

decode-encode :
    (ts : List TreeEntry) (bytes : List ℕ)
    → encode ts ≡ ok bytes
    → decode bytes ≡ ok record { entries = ts }
decode-encode [] bytes h = ground (arith, h)
decode-encode (t ∷ []) bytes h = decode-encode_entry t.mode t.name t.object_id bytes h
decode-encode (t ∷ u ∷ ts) bytes h = ground (arith, h)

back : (t : Tree) (bytes : List ℕ) → json.to_vec t ≡ ok bytes → json.from_slice bytes ≡ ok t
back t bytes h = decode-encode t.entries bytes h

abbrev calls : List Call
calls = stage "a" (1 ∷ 2 ∷ []) regular 50 ∷ stage "b" (9 ∷ []) executable 51 ∷ unstage "b" ∷ []

abbrev index : Index
index = run sum json calls (new_index Memory.new)

abbrev id_tree : ObjectId
id_tree = sum (bytes_of "wll-tree-v1:" ++ sum (bytes_of "wll-blob-v1:" ++ 1 ∷ 2 ∷ []) ∷ [])

free : Memory.read id_tree (run sum json calls (new_index Memory.new)).store ≡ none
unfolding run perform stage_file unstage_file Memory.write compute_id hasher_of hash
    Memory.or_insert contains_key Maps.insert Maps.get insert_sorted
free = refl

written : (write_tree sum json (run sum json calls (new_index Memory.new))).0 ≡ ok id_tree
unfolding run perform stage_file unstage_file Memory.write compute_id hasher_of hash
    Memory.or_insert contains_key Maps.insert Maps.get insert_sorted write_tree has_conflicts
    conflicting staged_entries new_tree sort_by insert_by to_stored_tree
written = refl

write_tree-read_tree_example :
    let s = run sum json calls (new_index Memory.new) in
    let read = read_tree sum json id_tree 60 (write_tree sum json s).1 in
    (read.0 ≡ ok tt) × (Maps.get "a" read.1.entries ≡ restored 60 (Maps.get "a" s.entries))
write_tree-read_tree_example =
    write_tree-read_tree sum json calls Memory.new id_tree 60 "a" back free written

-- The first file is changed after it was staged, the second is unstaged and in conflict.
abbrev more : List Call
more =
    stage "a" (1 ∷ 2 ∷ []) regular 50
    ∷ stage "b" (9 ∷ []) executable 51
    ∷ flag "a" record staged_flags { modified = true }
    ∷ clash "b"
    ∷ []

status_lem_example :
    let s = run sum json more (new_index Memory.new) in
    let entry = Maps.get "a" s.entries in
    (statuses "a" (status s).staged ≡ of_entry [] as_staged entry)
    × (statuses "a" (status s).modified ≡ of_entry [] as_modified entry)
    × (count "a" (status s).deleted ≡ of_entry 0 as_deleted entry)
    × (count "a" (status s).conflicts ≡ of_entry 0 as_conflict entry)
    × ((status s).untracked ≡ [])
status_lem_example = status_lem sum json more Memory.new "a"

-- So the first file is staged as modified.
staged_as_modified :
    statuses "a" (status (run sum json more (new_index Memory.new))).staged ≡ modified ∷ []
unfolding status classify run perform stage_file mark_conflict set_flags Memory.write compute_id
    hasher_of hash Memory.or_insert contains_key Maps.insert Maps.get insert_sorted
staged_as_modified = refl
