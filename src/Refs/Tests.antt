-- ===== src/Refs/Tests.antt =====
-- A store with a tag and a branch.
use Prim.Native.String.{String}
use wll.Base.{
  ◌==◌, ◌≡◌, ◌↔◌, ◌⊎◌, eq_string, refl, true, false, List, [], ◌∷◌, none, some, bytes_of,
  if◌then◌else◌,
}
use wll.Base.Maps
use wll.Base.Result.{ok, err}
use wll.Types.Temporal.{zero_anchor}
use wll.Refs.Names.{
  RefError, validate_branch_name, validate_chars, check_forbidden, check_components, split,
  starts_with, ends_with, contains_pair, same, ends_with_text,
}
use wll.Refs.Names.Rules.{is_ref_name, validate_branch_name-is_ref_name}
use wll.Refs.Memory.{
  Ref, branch, tag, is_tag, InMemoryRefStore, symbolic, read_ref, write_ref, validate_ref,
}
use wll.Refs.Memory.Kept.{Call, write, delete, detach, run, AllSpare, write_ref-read_ref, tag_kept}

abbrev v1 : Ref
v1 = tag "v1" 77 5 "first" zero_anchor none

abbrev main : Ref
main = branch "main" 5 78

abbrev store : InMemoryRefStore
store = record {
  refs = ("refs/tags/v1", v1) ∷ ("refs/heads/main", main) ∷ [];
  current = some (symbolic "main");
  refs_poisoned = false;
  head_poisoned = false;
}

abbrev calls : List Call
calls =
    write "refs/tags/v1" (tag "v1" 99 5 "moved" zero_anchor none)
    ∷ delete "refs/heads/main"
    ∷ detach 78
    ∷ []

validate_branch_name-is_ref_name_example :
    (validate_branch_name "feature/auth" ≡ ok tt) ↔ (is_ref_name (bytes_of "feature/auth") ≡ true)
validate_branch_name-is_ref_name_example = validate_branch_name-is_ref_name "feature/auth"

write_ref-read_ref_example :
    (((write_ref "refs/heads/main" main store).0 ≡ ok tt)
      × ((read_ref "refs/tags/v1" (write_ref "refs/heads/main" main store).1).0
          ≡ ok (
              if ◌==◌ {K = String} "refs/heads/main" "refs/tags/v1"
              then some main
              else Maps.get "refs/tags/v1" store.refs)))
    ⊎ ((e : RefError) × (write_ref "refs/heads/main" main store ≡ (err e, store)))
write_ref-read_ref_example = write_ref-read_ref "refs/heads/main" "refs/tags/v1" main store

calls-AllSpare : AllSpare "refs/tags/v1" calls
unfolding is_tag
calls-AllSpare =
    (λ _. refl, (λ e. cc ((eq_string.same_iff "refs/heads/main" "refs/tags/v1").1 e), (tt, tt)))

store-v1 : Maps.get "refs/tags/v1" store.refs ≡ some v1
unfolding Maps.get
store-v1 = refl

tag_kept_example : Maps.get "refs/tags/v1" (run calls store).refs ≡ some v1
unfolding is_tag
tag_kept_example = tag_kept "refs/tags/v1" v1 calls store calls-AllSpare store-v1 refl

main-valid : validate_ref main ≡ ok tt
unfolding validate_ref validate_branch_name validate_chars check_forbidden check_components split
    starts_with ends_with contains_pair same ends_with_text
main-valid = refl

-- A vertical tab (11) is accepted.
vertical_tab : validate_chars "" (97 ∷ 11 ∷ 98 ∷ []) ≡ ok tt
unfolding validate_chars check_forbidden check_components split starts_with ends_with contains_pair
    same ends_with_text
vertical_tab = refl
