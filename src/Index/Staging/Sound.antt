-- ===== src/Index/Staging/Sound.antt =====
-- crates/wll-index/src/index.rs: the entries stand under their own paths, in the order of the paths,
-- through any calls.
use wll.Base.{
  ℕ, ◌≡◌, refl, ◌∙◌, ◌⊎◌, inl, inr, List, [], ◌∷◌, some, String, eq_string, length, Bool-cases,
  Option-cases,
}
use wll.Base.Maps
use wll.Base.Maps.{BTreeMap, insert_sorted, values, contains_key, contains_key-get}
use wll.Base.Ascending.{remove-IsAscending}
use wll.Base.Result.{Result-cases}
use wll.Types.Commitment.{Hash, ObjectId}
use wll.Store.Object.{
  EntryMode, TreeEntry, TreeCodec, to_stored_blob, to_stored_tree, new_tree, from_stored_tree,
}
use wll.Store.Memory
use wll.Index.Entry.{IndexEntry, IndexFlags, new_staged}
use wll.Index.Staging.{
  Index, is_blank, stage_file, stage_object, unstage_file, unstaged, unstage_all, remove,
  mark_deleted, mark_conflict, resolve_conflict, set_flags, load_entries, write_tree, read_tree,
  has_conflicts, staged_entries,
}
use wll.Index.Staging.Keyed.{
  IsSound, AllKeyed-get, remove-AllKeyed, insert_sorted-IsSound, empty-IsSound,
  unstage_entries-IsAscending, unstage_entries-AllKeyed, load_entries-IsSound,
}

-- The calls of an index, and what callers write into the flags of its entries.
pub data Call : Type 0 where
  stage : String → List ℕ → EntryMode → ℕ → Call
  stage_at : String → ObjectId → EntryMode → ℕ → ℕ → Call
  unstage : String → Call
  unstage_each : Call
  discard : String → Call
  delete : String → Call
  clash : String → Call
  resolve : String → ObjectId → ℕ → ℕ → Call
  flag : String → IndexFlags → Call
  save : Call
  load : ObjectId → ℕ → Call

module _ (blake3 : List ℕ → Hash) (json : TreeCodec) where
  unfoldable pub perform : Call → Index → Index
  perform (stage path content mode now) s = (stage_file blake3 path content mode now s).1
  perform (stage_at path id mode size now) s = (stage_object path id mode size now s).1
  perform (unstage path) s = (unstage_file path s).1
  perform unstage_each s = unstage_all s
  perform (discard path) s = (remove path s).1
  perform (delete path) s = (mark_deleted path s).1
  perform (clash path) s = (mark_conflict path s).1
  perform (resolve path id size now) s = (resolve_conflict path id size now s).1
  perform (flag path flags) s = set_flags path flags s
  perform save s = (write_tree blake3 json s).1
  perform (load id now) s = (read_tree blake3 json id now s).1

  unfoldable pub run : List Call → Index → Index
  unfolding perform
  run [] s = s
  run (c ∷ cs) s = run cs (perform c s)

  -- A changed entry that keeps its path goes back to its place.
  put_back :
      (path : String) (e f : IndexEntry) (m : BTreeMap IndexEntry)
      → IsSound m
      → Maps.get path m ≡ some e
      → f.path ≡ e.path
      → IsSound (insert_sorted path f m)
  put_back path e f m s h same =
      insert_sorted-IsSound path f m (same ∙ AllKeyed-get path e m s.keyed h) s

  write_tree-entries : (s : Index) → (write_tree blake3 json s).1.entries ≡ s.entries
  unfolding write_tree
  write_tree-entries s = elim (Bool-cases (has_conflicts s)) [
    | inl e ↦ rw e refl
    | inr e ↦
        elim (Result-cases (to_stored_tree json (new_tree (staged_entries (values s.entries))))) [
          | inr (x, t) ↦ rw (e, t) refl
          | inl (stored, t) ↦ elim (Result-cases (Memory.write blake3 stored s.store).0) [
            | inl (id, w) ↦ rw (e, t, w) refl
            | inr (x, w) ↦ rw (e, t, w) refl
          ]
        ]
  ]

  read_tree-entries :
      (id : ObjectId) (now : ℕ) (s : Index)
      → ((ts : List TreeEntry) × ((read_tree blake3 json id now s).1.entries
            ≡ load_entries now ts []))
        ⊎ ((read_tree blake3 json id now s).1.entries ≡ s.entries)
  unfolding read_tree
  read_tree-entries id now s = elim (Option-cases (Memory.read id s.store)) [
    | inl e ↦ inr (rw e refl)
    | inr (stored, e) ↦ elim (Result-cases (from_stored_tree json blake3 stored)) [
      | inl (tree, t) ↦ inl (tree.entries, rw (e, t) refl)
      | inr (x, t) ↦ inr (rw (e, t) refl)
    ]
  ]

  perform-IsSound : (c : Call) (s : Index) → IsSound s.entries → IsSound (perform c s).entries
  unfolding perform stage_file stage_object unstage_file unstage_all remove mark_deleted
      mark_conflict resolve_conflict set_flags
  perform-IsSound (stage path content mode now) s h = elim (Bool-cases (is_blank path)) [
    | inl e ↦ rw (perform, stage_file, e) h
    | inr e ↦ elim (Result-cases (Memory.write blake3 (to_stored_blob content) s.store).0) [
      | inl (id, w) ↦
          rw (perform, stage_file, e, w)
            (insert_sorted-IsSound path (new_staged path id mode (length content) now) s.entries
              refl h)
      | inr (x, w) ↦ rw (perform, stage_file, e, w) h
    ]
  ]
  perform-IsSound (stage_at path id mode size now) s h = elim (Bool-cases (is_blank path)) [
    | inl e ↦ rw (perform, stage_object, e) h
    | inr e ↦
        rw (perform, stage_object, e)
          (insert_sorted-IsSound path (new_staged path id mode size now) s.entries refl h)
  ]
  perform-IsSound (unstage path) s h = elim (Option-cases (Maps.get path s.entries)) [
    | inl e ↦ rw (perform, unstage_file, e) h
    | inr (x, e) ↦ rw (perform, unstage_file, e) (put_back path x (unstaged x) s.entries h e refl)
  ]
  perform-IsSound unstage_each s h = record {
    ascends = unstage_entries-IsAscending s.entries h.ascends;
    keyed = unstage_entries-AllKeyed s.entries h.keyed;
  }
  perform-IsSound (discard path) s h = record {
    ascends = remove-IsAscending path s.entries h.ascends;
    keyed = remove-AllKeyed path s.entries h.keyed;
  }
  perform-IsSound (delete path) s h = elim (Option-cases (Maps.get path s.entries)) [
    | inl e ↦ rw (perform, mark_deleted, e) h
    | inr (x, e) ↦ rw (perform, mark_deleted, e) (put_back path x _ s.entries h e refl)
  ]
  perform-IsSound (clash path) s h = elim (Option-cases (Maps.get path s.entries)) [
    | inl e ↦ rw (perform, mark_conflict, e) h
    | inr (x, e) ↦ rw (perform, mark_conflict, e) (put_back path x _ s.entries h e refl)
  ]
  perform-IsSound (resolve path id size now) s h = elim (Option-cases (Maps.get path s.entries)) [
    | inl e ↦ rw (perform, resolve_conflict, e) h
    | inr (x, e) ↦ elim (Bool-cases x.flags.conflict) [
      | inl c ↦ rw (perform, resolve_conflict, e, c) (put_back path x _ s.entries h e refl)
      | inr c ↦ rw (perform, resolve_conflict, e, c) h
    ]
  ]
  perform-IsSound (flag path flags) s h = elim (Option-cases (Maps.get path s.entries)) [
    | inl e ↦ rw (perform, set_flags, e) h
    | inr (x, e) ↦ rw (perform, set_flags, e) (put_back path x _ s.entries h e refl)
  ]
  perform-IsSound save s h = rw (write_tree-entries s) h
  perform-IsSound (load id now) s h = elim (read_tree-entries id now s) [
    | inl (ts, e) ↦ rw e (load_entries-IsSound now ts [] empty-IsSound)
    | inr e ↦ rw e h
  ]

  pub run-IsSound : (cs : List Call) (s : Index) → IsSound s.entries → IsSound (run cs s).entries
  unfolding run
  run-IsSound [] s h = h
  run-IsSound (c ∷ cs) s h = run-IsSound cs (perform c s) (perform-IsSound c s h)
