-- ===== src/Index/Staging/Trees.antt =====
-- crates/wll-index/src/index.rs: a tree that is written and read again.
use wll.Base.{
  ℕ, ◌≡◌, refl, subst, inl, inr, List, none, some, String, eq_nat, eq_string, arith, Bool-cases,
  nat_eq_iff,
}
use wll.Base.Maps
use wll.Base.Maps.{
  BTreeMap, insert_sorted, get-insert_sorted, values, contains_key, contains_key-get,
}
use wll.Base.Result.{ok, Result-cases, ok_inj}
use wll.Types.Commitment.{Hash, ObjectId}
use wll.Store.Object
use wll.Store.Object.{
  TreeEntry, Tree, TreeCodec, StoredObject, name_le, new_tree, find_entry, tree, compute_id,
  to_stored_tree, from_stored_tree, check_kind,
}
use wll.Store.Memory
use wll.Store.Memory.{InMemoryObjectStore}
use wll.Store.Memory.Addressed.{write_lem}
use wll.Index.Staging.{Index, new_index, staged_entries, has_conflicts, write_tree, read_tree}
use wll.Index.Staging.Sound.{Call, run, run-IsSound}
use wll.Index.Staging.Keyed.{empty-IsSound}
use wll.Index.Staging.Restored.{restored, get-reloaded}

module _ (blake3 : List ℕ → Hash) (json : TreeCodec) where
  from_stored-to_stored :
      (t : Tree) (stored : StoredObject)
      → ((u : Tree) (bytes : List ℕ) → json.to_vec u ≡ ok bytes → json.from_slice bytes ≡ ok u)
      → to_stored_tree json t ≡ ok stored
      → from_stored_tree json blake3 stored ≡ ok t
  unfolding to_stored_tree from_stored_tree check_kind
  from_stored-to_stored t stored back h = elim (Result-cases (json.to_vec t)) [
    | inr (x, e) ↦ ground (arith, rw (to_stored_tree, e) at h)
    | inl (bytes, e) ↦
        let same : Object.new tree bytes ≡ stored = ok_inj (rw (to_stored_tree, e) at h) in
        subst (λ (o : StoredObject). from_stored_tree json blake3 o ≡ ok t) same
          (rw (back t bytes e) refl)
  ]

  -- What a successful `write_tree` has put into a store that did not have the id.
  Written : Index → ObjectId → Type 0
  Written s id =
      (stored : StoredObject) × (to_stored_tree json (new_tree (staged_entries (values s.entries)))
        ≡ ok stored)
      × (Memory.read id (write_tree blake3 json s).1.store ≡ some stored)

  write_tree-Written :
      (s : Index) (id : ObjectId)
      → Memory.read id s.store ≡ none
      → (write_tree blake3 json s).0 ≡ ok id
      → Written s id
  unfolding Written write_tree
  write_tree-Written s id free h = elim (Bool-cases (has_conflicts s)) [
    | inl e ↦ ground (arith, rw (write_tree, e) at h)
    | inr e ↦
        elim (Result-cases (to_stored_tree json (new_tree (staged_entries (values s.entries))))) [
          | inr (x, t) ↦ ground (arith, rw (write_tree, e, t) at h)
          | inl (stored, t) ↦ elim (write_lem blake3 stored s.store id) [
            | inl bad ↦ ground (arith, rw (write_tree, e, t, bad.1) at h)
            | inr good ↦
                let same : compute_id blake3 stored ≡ id =
                  ok_inj (rw (write_tree, e, t, good.1) at h) in
                (
                  stored,
                  t,
                  rw (write_tree, e, t, good.1)
                      (ground
                        (arith, good.2, nat_eq_iff (compute_id blake3 stored) id, same, free)),
                )
          ]
        ]
  ]

  pub write_tree-read_tree :
      (cs : List Call) (store : InMemoryObjectStore) (id : ObjectId) (now : ℕ) (path : String)
      → ((t : Tree) (bytes : List ℕ) → json.to_vec t ≡ ok bytes → json.from_slice bytes ≡ ok t)
      → Memory.read id (run blake3 json cs (new_index store)).store ≡ none
      → (write_tree blake3 json (run blake3 json cs (new_index store))).0 ≡ ok id
      → let s = run blake3 json cs (new_index store) in
        let read = read_tree blake3 json id now (write_tree blake3 json s).1 in
        (read.0 ≡ ok tt) × (Maps.get path read.1.entries ≡ restored now (Maps.get path s.entries))
  unfolding Written read_tree
  write_tree-read_tree cs store id now path back free h =
      let s = run blake3 json cs (new_index store) in
      let sound = run-IsSound blake3 json cs (new_index store) empty-IsSound in
      let (stored, encoded, there) = write_tree-Written s id free h in
      let decoded =
        from_stored-to_stored (new_tree (staged_entries (values s.entries))) stored back encoded in
      rw (there, decoded) (refl, get-reloaded now path s.entries sound)
