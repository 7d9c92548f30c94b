-- ===== src/Store/Tests.antt =====
-- A hash that adds up the bytes, one after the first, and a store with two objects.
use wll.Base.{
  ℕ, ◌+◌, ◌++◌, ◌==◌, ◌≡◌, ◌≢◌, ◌⊎◌, eq_nat, refl, List, [], ◌∷◌, some, none, foldl, arith,
  if◌then◌else◌, bytes_of,
}
use wll.Base.Maps
use wll.Base.Maps.{contains_key}
use wll.Base.Result.{ok, err}
use wll.Types.Commitment.{Hash, ObjectId, null}
use wll.Crypto.Hasher.{hash, commit_hasher}
use wll.Store.Object
use wll.Store.Object.{
  StoredObject, blob, pack, snapshot, tree, compute_id, null_object_id, hasher_of,
}
use wll.Store.Memory.{new, read, write, or_insert}
use wll.Store.Memory.Addressed.{
  Call, put, drop, run, perform, kept, write_lem, read_is_immutable, write-pack-snapshot,
}

abbrev sum : List ℕ → Hash
sum = foldl (λ n b. n + b) 1

abbrev one : StoredObject
one = Object.new blob (7 ∷ 8 ∷ [])

abbrev two : StoredObject
two = Object.new tree (1 ∷ [])

abbrev calls : List Call
calls = put one ∷ put two ∷ put one ∷ []

abbrev later : List Call
later = drop 5 ∷ put two ∷ []

abbrev id_one : ObjectId
id_one = sum (bytes_of "wll-blob-v1:" ++ 7 ∷ 8 ∷ [])

read_one : read id_one (run sum calls new) ≡ some one
unfolding run perform write compute_id hasher_of hash or_insert contains_key Maps.insert Maps.get
read_one = refl

read_is_immutable_example :
    (compute_id sum one ≡ id_one) × (read id_one (run sum later (run sum calls new)) ≡ some one)
read_is_immutable_example =
    read_is_immutable sum calls later id_one one read_one (λ e. omega (arith, e), (tt, tt))

write_lem_example :
    ((compute_id sum two ≡ null)
      × (write sum two (run sum calls new) ≡ (err null_object_id, run sum calls new)))
    ⊎ ((compute_id sum two ≢ null)
        × ((write sum two (run sum calls new)).0 ≡ ok (compute_id sum two))
        × (read 5 (write sum two (run sum calls new)).1 ≡ (
            if compute_id sum two == 5
            then some (kept sum two (run sum calls new))
            else read 5 (run sum calls new))))
write_lem_example = write_lem sum two (run sum calls new) 5

apart : hash sum commit_hasher (3 ∷ []) ≢ null
unfolding hash
apart e = omega (arith, e)

free : read (hash sum commit_hasher (3 ∷ [])) new ≡ none
unfolding Maps.get
free = refl

write-pack-snapshot_example :
    ((write sum (Object.new pack (3 ∷ [])) (write sum (Object.new snapshot (3 ∷ [])) new).1).0
      ≡ ok (hash sum commit_hasher (3 ∷ [])))
    × (read
          (hash sum commit_hasher (3 ∷ []))
          (write sum (Object.new pack (3 ∷ [])) (write sum (Object.new snapshot (3 ∷ [])) new).1).1
        ≡ some (Object.new snapshot (3 ∷ [])))
write-pack-snapshot_example = write-pack-snapshot sum (3 ∷ []) new apart free
