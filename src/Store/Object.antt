-- ===== src/Store/Object.antt =====
-- crates/wll-store/src/object.rs and error.rs: the objects and their encodings. `blake3` is the hash
-- function of the BLAKE3 library, and a codec has what serde_json makes of a value.
use Prim.Native.Nat.{Ordering}
use Prim.Native.String.{String, compare}
use wll.Base.{
  ℕ, Bool, true, false, not, List, [], ◌∷◌, Option, none, some, length, ◌==◌, eq_nat, eq_string,
  if◌then◌else◌,
}
use wll.Base.Result.{Result, ok, map_err, ◌>>=◌, ◌>>◌, fail_if}
use wll.Base.Sort.{sort_by}
use wll.Types.Commitment.{Hash, ObjectId}
use wll.Crypto.Hasher.{ContentHasher, blob_hasher, tree_hasher, receipt_hasher, commit_hasher, hash}

pub data ObjectKind : Type 0 where
  blob tree receipt snapshot pack : ObjectKind

abbrev pub kind_eq : ObjectKind → ObjectKind → Bool
kind_eq blob blob = true
kind_eq tree tree = true
kind_eq receipt receipt = true
kind_eq snapshot snapshot = true
kind_eq pack pack = true
kind_eq _ _ = false

pub record StoredObject : Type 0 where
  pub kind : ObjectKind
  pub content : List ℕ
  pub size : ℕ

abbrev pub new : ObjectKind → List ℕ → StoredObject
new kind content = record { kind = kind; content = content; size = length content }

unfoldable pub hasher_of : ObjectKind → ContentHasher
hasher_of blob = blob_hasher
hasher_of tree = tree_hasher
hasher_of receipt = receipt_hasher
hasher_of snapshot = commit_hasher
hasher_of pack = commit_hasher

unfoldable pub compute_id : (List ℕ → Hash) → StoredObject → ObjectId
unfolding hasher_of
compute_id blake3 object = hash blake3 (hasher_of object.kind) object.content

pub data StoreError : Type 0 where
  not_found : ObjectId → StoreError
  -- the id, expected and computed
  hash_mismatch : ObjectId → Hash → Hash → StoreError
  serialization : String → StoreError
  io : String → StoreError
  -- the id, the kind that was expected and the one that is there
  corrupt_object : ObjectId → ObjectKind → ObjectKind → StoreError
  null_object_id : StoreError
  read_only : StoreError

abbrev pub to_stored_blob : List ℕ → StoredObject
to_stored_blob content = new blob content

module _ (blake3 : List ℕ → Hash) where
  -- `if obj.kind != expected { return Err(..) }`
  unfoldable pub check_kind : ObjectKind → StoredObject → Result StoreError (Unit {0})
  check_kind expected object =
      fail_if (not (kind_eq object.kind expected))
        (corrupt_object (compute_id blake3 object) expected object.kind)

  unfoldable pub from_stored_blob : StoredObject → Result StoreError (List ℕ)
  unfolding check_kind
  from_stored_blob object = do check_kind blob object; ok object.content

pub data EntryMode : Type 0 where
  regular executable symlink directory : EntryMode

-- 0o100644, 0o100755, 0o120000 and 0o040000
unfoldable pub mode_bits : EntryMode → ℕ
mode_bits regular = 33188
mode_bits executable = 33261
mode_bits symlink = 40960
mode_bits directory = 16384

unfoldable pub from_mode_bits : ℕ → Option EntryMode
from_mode_bits bits =
    if bits == 33188
    then some regular
    else if bits == 33261
    then some executable
    else if bits == 40960
    then some symlink
    else if bits == 16384
    then some directory
    else none

pub record TreeEntry : Type 0 where
  pub mode : EntryMode
  pub name : String
  pub object_id : ObjectId

pub record Tree : Type 0 where
  pub entries : List TreeEntry

abbrev pub name_le : TreeEntry → TreeEntry → Bool
name_le a b = elim (compare a.name b.name) [ Ordering.gt ↦ false | _ ↦ true ]

unfoldable pub new_tree : List TreeEntry → Tree
new_tree entries = record { entries = sort_by name_le entries }

unfoldable pub find_entry : String → List TreeEntry → Option TreeEntry
find_entry name [] = none
find_entry name (e ∷ es) = if e.name == name then some e else find_entry name es

abbrev pub get : String → Tree → Option TreeEntry
get name t = find_entry name t.entries

-- `serde_json` on trees. An error has its text.
pub record TreeCodec : Type 0 where
  pub to_vec : Tree → Result String (List ℕ)
  pub from_slice : List ℕ → Result String Tree

module _ (json : TreeCodec) where
  unfoldable pub to_stored_tree : Tree → Result StoreError StoredObject
  to_stored_tree t = do content ← map_err serialization (json.to_vec t); ok (new tree content)

  unfoldable pub from_stored_tree : (List ℕ → Hash) → StoredObject → Result StoreError Tree
  unfolding check_kind
  from_stored_tree blake3 object = do
    check_kind blake3 tree object
    map_err serialization (json.from_slice object.content)
