-- ===== src/Store/Memory.antt =====
-- crates/wll-store/src/memory.rs and traits.rs: the store in memory. A method takes its lock for one
-- step, and no method panics while it holds the lock.
pub mod Addressed
use wll.Base.{
  ℕ, ◌+◌, Bool, true, false, List, [], ◌∷◌, foldl, map, Option, none, some, length, is_empty, ◌==◌,
  eq_nat, leb, if◌then◌else◌,
}
use wll.Base.Maps
use wll.Base.Maps.{HashMap, contains_key, is_some, keys, values}
use wll.Base.Result.{Result, ok, err, fail_if}
use wll.Base.Exec.{Exec, pure, lift, gets, modify, ◌>>=◌, ◌>>◌}
use wll.Base.Sort.{sort_by}
use wll.Types.Commitment.{Hash, ObjectId, is_null}
use wll.Store.Object.{StoredObject, StoreError, null_object_id, compute_id}

pub record InMemoryObjectStore : Type 0 where
  pub objects : HashMap ObjectId StoredObject

abbrev pub new : InMemoryObjectStore
new = record { objects = [] }

abbrev pub len : InMemoryObjectStore → ℕ
len s = length s.objects

abbrev pub total_bytes : InMemoryObjectStore → ℕ
total_bytes s = foldl (λ n (o : StoredObject). n + o.size) 0 (values s.objects)

abbrev pub all_ids : InMemoryObjectStore → List ObjectId
all_ids s = sort_by leb (keys s.objects)

abbrev pub clear : InMemoryObjectStore → InMemoryObjectStore
clear s = record { objects = [] }

-- `map.entry(id).or_insert(object)`
unfoldable pub or_insert :
    ObjectId → StoredObject → HashMap ObjectId StoredObject → HashMap ObjectId StoredObject
or_insert id object m = if contains_key id m then m else Maps.insert id object m

abbrev pub read : ObjectId → InMemoryObjectStore → Option StoredObject
read id s = Maps.get id s.objects

abbrev pub exists : ObjectId → InMemoryObjectStore → Bool
exists id s = contains_key id s.objects

unfoldable pub write : (List ℕ → Hash) → StoredObject → Exec InMemoryObjectStore StoreError ObjectId
write blake3 object = do
  lift (fail_if (is_null (compute_id blake3 object)) null_object_id)
  modify (λ s. record s { objects = or_insert (compute_id blake3 object) object s.objects })
  pure (compute_id blake3 object)

unfoldable pub delete : ObjectId → Exec InMemoryObjectStore StoreError Bool
delete id = do
  found ← gets (λ s. is_some (read id s))
  modify (λ s. record s { objects = Maps.remove id s.objects })
  pure found

unfoldable pub read_batch : List ObjectId → InMemoryObjectStore → List (Option StoredObject)
read_batch ids s = map (λ id. read id s) ids

-- It stops at the first error.
unfoldable pub write_batch :
    (List ℕ → Hash) → List StoredObject → Exec InMemoryObjectStore StoreError (List ObjectId)
write_batch blake3 [] = pure []
write_batch blake3 (o ∷ os) = do id ← write blake3 o; ids ← write_batch blake3 os; pure (id ∷ ids)
