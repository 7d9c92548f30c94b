-- ===== src/Refs/Memory.antt =====
-- crates/wll-refs/src/types.rs and memory.rs: references, HEAD and the in-memory store. Each method
-- takes its locks for one step; a poisoned lock makes it fail, and no method poisons one.
pub mod Kept
use Prim.Native.Nat.{Ordering}
use Prim.Native.String.{compare, ◌++◌}
use Prim.Native.Char.{code}
use wll.Base.{
  ℕ, ◌==◌, eq_nat, eq_string, Bool, true, false, ◌&&◌, List, [], ◌∷◌, String, Option, none, some,
  if◌then◌else◌,
}
use wll.Base.Maps
use wll.Base.Maps.{HashMap, is_some}
use wll.Base.Result.{Result, ok, err, fail_if}
use wll.Base.Exec.{Exec, pure, raise, lift, gets, modify, ◌>>=◌, ◌>>◌}
use wll.Base.Sort.{sort_by}
use wll.Types.Temporal.{TemporalAnchor}
use wll.Types.Commitment.{Hash, WorldlineId}
use wll.Refs.Names.{
  RefError, tag_immutable, delete_current_branch, lock_poisoned, validate_branch_name,
  validate_tag_name,
}

pub data Ref : Type 0 where
  -- name, worldline, receipt hash
  branch : String → WorldlineId → Hash → Ref
  -- name, target, tagger, message, time stamp, signature
  tag : String → Hash → WorldlineId → String → TemporalAnchor → Option (List ℕ) → Ref
  -- remote, branch, worldline, receipt hash
  remote : String → String → WorldlineId → Hash → Ref

unfoldable pub canonical_name : Ref → String
canonical_name (branch name _ _) = "refs/heads/" ++ name
canonical_name (tag name _ _ _ _ _) = "refs/tags/" ++ name
canonical_name (remote origin name _ _) = "refs/remotes/" ++ origin ++ "/" ++ name

unfoldable pub short_name : Ref → String
short_name (branch name _ _) = name
short_name (tag name _ _ _ _ _) = name
short_name (remote _ name _ _) = name

unfoldable pub is_tag : Ref → Bool
is_tag (tag _ _ _ _ _ _) = true
is_tag _ = false

unfoldable pub target_hash : Ref → Hash
target_hash (branch _ _ receipt_hash) = receipt_hash
target_hash (tag _ target _ _ _ _) = target
target_hash (remote _ _ _ receipt_hash) = receipt_hash

pub data Head : Type 0 where
  symbolic : String → Head
  detached : Hash → Head

pub record InMemoryRefStore : Type 0 where
  pub refs : HashMap String Ref
  pub current : Option Head
  pub refs_poisoned : Bool
  pub head_poisoned : Bool

abbrev pub new : InMemoryRefStore
new = record { refs = []; current = none; refs_poisoned = false; head_poisoned = false }

abbrev pub lock_refs : Exec InMemoryRefStore RefError (Unit {0})
lock_refs s = (fail_if s.refs_poisoned lock_poisoned, s)

abbrev pub lock_head : Exec InMemoryRefStore RefError (Unit {0})
lock_head s = (fail_if s.head_poisoned lock_poisoned, s)

unfoldable pub read_ref : String → Exec InMemoryRefStore RefError (Option Ref)
read_ref name = do lock_refs; gets (λ s. Maps.get name s.refs)

unfoldable pub validate_ref : Ref → Result RefError (Unit {0})
validate_ref (branch name _ _) = validate_branch_name name
validate_ref (tag name _ _ _ _ _) = validate_tag_name name
validate_ref (remote _ name _ _) = validate_branch_name name

-- `refs.get(name)` is a tag
unfoldable pub holds_tag : String → HashMap String Ref → Bool
holds_tag name refs = elim (Maps.get name refs) [ none ↦ false | some existing ↦ is_tag existing ]

unfoldable pub write_ref : String → Ref → Exec InMemoryRefStore RefError (Unit {0})
write_ref name reference = do
  lift (validate_ref reference)
  lock_refs
  refs ← gets (λ s. s.refs)
  lift (fail_if (is_tag reference && holds_tag name refs) (tag_immutable name))
  modify (λ s. record s { refs = Maps.insert name reference s.refs })

-- the guard on the branch that HEAD names
unfoldable pub check_current : String → Option Head → Result RefError (Unit {0})
check_current name none = ok tt
check_current name (some (detached _)) = ok tt
check_current name (some (symbolic at)) =
    fail_if (name == "refs/heads/" ++ at) (delete_current_branch at)

unfoldable pub delete_ref : String → Exec InMemoryRefStore RefError Bool
delete_ref name = do
  lock_head
  at ← gets (λ s. s.current)
  lift (check_current name at)
  lock_refs
  found ← gets (λ s. is_some (Maps.get name s.refs))
  modify (λ s. record s { refs = Maps.remove name s.refs })
  pure found

-- `k.starts_with(prefix)`
unfoldable pub has_prefix : String → String → Bool
has_prefix String.[] k = true
has_prefix (String.◌∷◌ c s) String.[] = false
has_prefix (String.◌∷◌ c s) (String.◌∷◌ d k) = code c == code d && has_prefix s k

abbrev pub key_le : String × Ref → String × Ref → Bool
key_le a b = elim (compare a.0 b.0) [ Ordering.gt ↦ false | _ ↦ true ]

unfoldable pub select : String → HashMap String Ref → List (String × Ref)
select prefix [] = []
select prefix ((k, v) ∷ m) =
    let rest = select prefix m in if has_prefix prefix k then (k, v) ∷ rest else rest

unfoldable pub list_refs : String → Exec InMemoryRefStore RefError (List (String × Ref))
list_refs prefix = do lock_refs; gets (λ s. sort_by key_le (select prefix s.refs))

unfoldable pub head : Exec InMemoryRefStore RefError (Option Head)
head = do lock_head; gets (λ s. s.current)

unfoldable pub set_head : String → Exec InMemoryRefStore RefError (Unit {0})
set_head name = do
  lift (validate_branch_name name)
  lock_head
  modify (λ s. record s { current = some (symbolic name) })

unfoldable pub set_head_detached : Hash → Exec InMemoryRefStore RefError (Unit {0})
set_head_detached receipt_hash = do
  lock_head
  modify (λ s. record s { current = some (detached receipt_hash) })
