-- ===== src/Refs/Names.antt =====
-- crates/wll-refs/src/names.rs: which names a branch, a tag or a remote may have. A name is read as
-- the codes of its characters; a reason keeps what its message says.
pub mod Rules
use wll.Base.{
  ℕ, ◌==◌, ◌&&◌, ◌||◌, not, eq_nat, Bool, true, false, List, [], ◌∷◌, String, is_empty, any,
  contains, bytes_of, if◌then◌else◌,
}
use wll.Base.Result.{Result, ok, err, fail_if, map_err, ◌>>=◌, ◌>>◌}

pub data Reason : Type 0 where
  empty_name double_dot at_brace dot_at_end slash_at_end lock_suffix double_slash : Reason
  empty_component invalid_tag_name remote_with_slash : Reason
  forbidden_character : ℕ → Reason
  component_with_dot : List ℕ → Reason

pub data RefError : Type 0 where
  not_found already_exists tag_immutable delete_current_branch : String → RefError
  invalid_branch_name : String → Reason → RefError
  detached_head lock_poisoned : RefError

-- ' ', '\t', '\n', '\r', '~', '^', ':', '?', '*', '[', '\\'
abbrev pub forbidden_chars : List ℕ
forbidden_chars = 32 ∷ 9 ∷ 10 ∷ 13 ∷ 126 ∷ 94 ∷ 58 ∷ 63 ∷ 42 ∷ 91 ∷ 92 ∷ []

abbrev pub dot : ℕ
dot = 46

abbrev pub slash : ℕ
slash = 47

-- `name.starts_with(c)` of one character
unfoldable pub starts_with : ℕ → List ℕ → Bool
starts_with c [] = false
starts_with c (x ∷ s) = x == c

unfoldable pub ends_with : ℕ → List ℕ → Bool
ends_with c [] = false
ends_with c (x ∷ []) = x == c
ends_with c (x ∷ y ∷ s) = ends_with c (y ∷ s)

-- `name.contains(..)` of the two characters `c` and `d`
unfoldable pub contains_pair : ℕ → ℕ → List ℕ → Bool
unfolding starts_with
contains_pair c d [] = false
contains_pair c d (x ∷ s) = (x == c && starts_with d s) || contains_pair c d s

unfoldable pub same : List ℕ → List ℕ → Bool
same [] [] = true
same (x ∷ s) (y ∷ t) = x == y && same s t
same _ _ = false

-- `name.ends_with(suffix)`
unfoldable pub ends_with_text : List ℕ → List ℕ → Bool
unfolding same
ends_with_text suffix [] = same [] suffix
ends_with_text suffix (x ∷ s) = same (x ∷ s) suffix || ends_with_text suffix s

-- The part of a text in front of its first slash, and the parts behind it.
abbrev pub push_front : ℕ → List (List ℕ) → List (List ℕ)
push_front x [] = (x ∷ []) ∷ []
push_front x (part ∷ parts) = (x ∷ part) ∷ parts

-- `name.split('/')`
unfoldable pub split : List ℕ → List (List ℕ)
split [] = [] ∷ []
split (x ∷ s) = let parts = split s in if x == slash then [] ∷ parts else push_front x parts

unfoldable pub check_forbidden : String → List ℕ → List ℕ → Result RefError (Unit {0})
check_forbidden name s [] = ok tt
check_forbidden name s (c ∷ cs) = do
  fail_if (contains s c) (invalid_branch_name name (forbidden_character c))
  check_forbidden name s cs

unfoldable pub check_components : String → List (List ℕ) → Result RefError (Unit {0})
check_components name [] = ok tt
check_components name (part ∷ parts) = do
  fail_if (is_empty part) (invalid_branch_name name empty_component)
  fail_if (starts_with dot part) (invalid_branch_name name (component_with_dot part))
  check_components name parts

unfoldable pub validate_chars : String → List ℕ → Result RefError (Unit {0})
validate_chars name s = do
  fail_if (is_empty s) (invalid_branch_name name empty_name)
  check_forbidden name s forbidden_chars
  fail_if (contains_pair dot dot s) (invalid_branch_name name double_dot)
  fail_if (contains_pair 64 123 s) (invalid_branch_name name at_brace)
  fail_if (starts_with dot s || ends_with dot s) (invalid_branch_name name dot_at_end)
  fail_if (starts_with slash s || ends_with slash s) (invalid_branch_name name slash_at_end)
  fail_if (ends_with_text (bytes_of ".lock") s) (invalid_branch_name name lock_suffix)
  fail_if (contains_pair slash slash s) (invalid_branch_name name double_slash)
  check_components name (split s)

unfoldable pub validate_branch_name : String → Result RefError (Unit {0})
validate_branch_name name = validate_chars name (bytes_of name)

unfoldable pub validate_tag_name : String → Result RefError (Unit {0})
validate_tag_name name =
    map_err (λ _. invalid_branch_name name invalid_tag_name) (validate_branch_name name)

unfoldable pub validate_remote_name : String → Result RefError (Unit {0})
unfolding check_forbidden
validate_remote_name name = do
  fail_if (is_empty (bytes_of name)) (invalid_branch_name name empty_name)
  fail_if (contains (bytes_of name) slash) (invalid_branch_name name remote_with_slash)
  check_forbidden name (bytes_of name) forbidden_chars
