-- ===== src/Refs/Names/Rules.antt =====
-- crates/wll-refs/src/names.rs: the names that are accepted, and which of the tests matter.
use wll.Base.{
  ℕ, ◌≡◌, ◌↔◌, inl, inr, refl, ◌∙◌, ap, ◌==◌, ◌||◌, ◌&&◌, not, eq_nat, nat_eq_iff, Bool, true,
  false, List, [], ◌∷◌, String, is_empty, any, contains, bytes_of, arith, Bool-cases, if◌then◌else◌,
}
use wll.Base.Result.{Result, ok, err, fail_if, ◌>>◌}
use wll.Refs.Names.{
  RefError, forbidden_chars, dot, slash, starts_with, ends_with, contains_pair, ends_with_text,
  split, push_front, check_forbidden, check_components, validate_chars, validate_branch_name,
}

abbrev first_is_empty : List (List ℕ) → Bool
first_is_empty [] = false
first_is_empty (p ∷ ps) = is_empty p

abbrev tail : List (List ℕ) → List (List ℕ)
tail [] = []
tail (p ∷ ps) = ps

any-first : (ps : List (List ℕ)) → any is_empty ps ≡ first_is_empty ps || any is_empty (tail ps)
any-first [] = refl
any-first (p ∷ ps) = refl

tail-push_front : (x : ℕ) (ps : List (List ℕ)) → tail (push_front x ps) ≡ tail ps
tail-push_front x [] = refl
tail-push_front x (p ∷ ps) = refl

first-push_front : (x : ℕ) (ps : List (List ℕ)) → first_is_empty (push_front x ps) ≡ false
first-push_front x [] = refl
first-push_front x (p ∷ ps) = refl

first-split : (s : List ℕ) → first_is_empty (split s) ≡ is_empty s || starts_with slash s
unfolding split starts_with
first-split [] = refl
first-split (x ∷ s) = elim (Bool-cases (x == slash)) [
  | inl e ↦ rw e refl
  | inr e ↦ rw e (first-push_front x (split s))
]

ends_with-cons :
    (c x : ℕ) (s : List ℕ) → ends_with c (x ∷ s) ≡ (if is_empty s then x == c else ends_with c s)
unfolding ends_with
ends_with-cons c x [] = refl
ends_with-cons c x (y ∷ s) = refl

tail-split :
    (s : List ℕ) → any is_empty (tail (split s)) ≡ ends_with slash s || contains_pair slash slash s
unfolding split starts_with contains_pair ends_with
tail-split [] = refl
tail-split (x ∷ s) = elim (Bool-cases (x == slash)) [
  | inl e ↦
      ground (arith, e, ends_with-cons slash x s, any-first (split s), first-split s, tail-split s)
  | inr e ↦ ground (arith, e, ends_with-cons slash x s, tail-push_front x (split s), tail-split s)
]

-- A component is empty exactly when the text is, or a slash begins, ends or doubles.
split-is_empty :
    (s : List ℕ)
    → any is_empty (split s)
      ≡ (is_empty s || starts_with slash s) || (ends_with slash s || contains_pair slash slash s)
split-is_empty s = any-first (split s) ∙ ground (arith, first-split s, tail-split s)

abbrev is_ok : Result RefError (Unit {0}) → Bool
is_ok (ok _) = true
is_ok (err _) = false

is_ok_iff : (r : Result RefError (Unit {0})) → (r ≡ ok tt) ↔ (is_ok r ≡ true)
is_ok_iff (ok _) = (λ _. refl, λ _. refl)
is_ok_iff (err e) = ground arith

is_ok-guard :
    (b : Bool) (e : RefError) (m : Result RefError (Unit {0}))
    → is_ok (fail_if b e >> m) ≡ not b && is_ok m
is_ok-guard true e m = refl
is_ok-guard false e m = refl

is_ok-then : (m n : Result RefError (Unit {0})) → is_ok (m >> n) ≡ is_ok m && is_ok n
is_ok-then (ok _) n = refl
is_ok-then (err e) n = refl

is_ok-check_forbidden :
    (name : String) (s cs : List ℕ) → is_ok (check_forbidden name s cs) ≡ not (any (contains s) cs)
unfolding check_forbidden
is_ok-check_forbidden name s [] = refl
is_ok-check_forbidden name s (c ∷ cs) =
    is_ok-guard (contains s c) _ (check_forbidden name s cs)
    ∙ ground (arith, is_ok-check_forbidden name s cs)

-- A component that no name may have.
unfoldable is_bad : List ℕ → Bool
is_bad part = is_empty part || starts_with dot part

is_ok-check_components :
    (name : String) (parts : List (List ℕ))
    → is_ok (check_components name parts) ≡ not (any is_bad parts)
unfolding check_components is_bad
is_ok-check_components name [] = refl
is_ok-check_components name (p ∷ ps) =
    is_ok-guard (is_empty p) _ _
    ∙ ap (λ b. not (is_empty p) && b) (is_ok-guard (starts_with dot p) _ (check_components name ps))
    ∙ ground (arith, is_ok-check_components name ps)

-- A component is bad if it is empty, or a dot begins it.
any-is_bad : (ps : List (List ℕ)) → any is_bad ps ≡ (any is_empty ps || any (starts_with dot) ps)
unfolding is_bad
any-is_bad [] = refl
any-is_bad (p ∷ ps) = ground (arith, any-is_bad ps)

abbrev first_has_dot : List (List ℕ) → Bool
first_has_dot [] = false
first_has_dot (p ∷ ps) = starts_with dot p

first_has_dot-push_front :
    (x : ℕ) (ps : List (List ℕ)) → first_has_dot (push_front x ps) ≡ (x == dot)
unfolding starts_with
first_has_dot-push_front x [] = refl
first_has_dot-push_front x (p ∷ ps) = refl

any-first_has_dot :
    (ps : List (List ℕ))
    → any (starts_with dot) ps ≡ (first_has_dot ps || any (starts_with dot) (tail ps))
any-first_has_dot [] = refl
any-first_has_dot (p ∷ ps) = refl

first_has_dot-split : (s : List ℕ) → first_has_dot (split s) ≡ starts_with dot s
unfolding split starts_with
first_has_dot-split [] = refl
first_has_dot-split (x ∷ s) = elim (Bool-cases (x == slash)) [
  | inl e ↦ ground (arith, e, nat_eq_iff x slash, nat_eq_iff x dot)
  | inr e ↦ rw e (first_has_dot-push_front x (split s))
]

-- A dot begins a later component exactly behind a slash.
tail-split-dot : (s : List ℕ) → any (starts_with dot) (tail (split s)) ≡ contains_pair slash dot s
unfolding split starts_with contains_pair
tail-split-dot [] = refl
tail-split-dot (x ∷ s) = elim (Bool-cases (x == slash)) [
  | inl e ↦ ground (arith, e, any-first_has_dot (split s), first_has_dot-split s, tail-split-dot s)
  | inr e ↦ ground (arith, e, tail-push_front x (split s), tail-split-dot s)
]

-- No component is bad exactly if the text is not empty, no slash begins, ends or doubles, and no dot
-- begins it or stands behind a slash.
split-is_bad :
    (s : List ℕ)
    → any is_bad (split s) ≡ (
        ((is_empty s || starts_with slash s) || (ends_with slash s || contains_pair slash slash s))
        || (starts_with dot s || contains_pair slash dot s))
split-is_bad s = ground (
  arith,
  any-is_bad (split s),
  split-is_empty s,
  any-first_has_dot (split s),
  first_has_dot-split s,
  tail-split-dot s,
)

-- Space, tab, line feed, carriage return, ~ ^ : ? * [ and the backslash.
abbrev is_excluded : ℕ → Bool
is_excluded c =
    c == 32
    || c == 9
    || c == 10
    || c == 13
    || c == 126
    || c == 94
    || c == 58
    || c == 63
    || c == 42
    || c == 91
    || c == 92

any-forbidden_chars : (s : List ℕ) → any (contains s) forbidden_chars ≡ any is_excluded s
any-forbidden_chars [] = refl
any-forbidden_chars (x ∷ s) = ground (arith, any-forbidden_chars s)

-- The rules on the characters, without the components: no dot (46) at the start, at the end, behind a
-- dot or behind a slash; no slash (47) at the start, at the end or behind a slash; no `@{`; no `.lock`
-- at the end; no excluded character; not empty.
unfoldable pub is_ref_name : List ℕ → Bool
is_ref_name s =
    not (is_empty s)
    && not (any is_excluded s)
    && not (starts_with 46 s)
    && not (ends_with 46 s)
    && not (contains_pair 46 46 s)
    && not (contains_pair 47 46 s)
    && not (starts_with 47 s)
    && not (ends_with 47 s)
    && not (contains_pair 47 47 s)
    && not (contains_pair 64 123 s)
    && not (ends_with_text (bytes_of ".lock") s)

is_ok-validate_chars :
    (name : String) (s : List ℕ)
    → is_ok (validate_chars name s) ≡ (
        not (is_empty s)
        && (not (any (contains s) forbidden_chars)
            && (not (contains_pair dot dot s)
                && (not (contains_pair 64 123 s)
                    && (not (starts_with dot s || ends_with dot s)
                        && (not (starts_with slash s || ends_with slash s)
                            && (not (ends_with_text (bytes_of ".lock") s)
                                && (not (contains_pair slash slash s)
                                    && (not (any is_bad (split s)))))))))))
unfolding validate_chars
is_ok-validate_chars name s =
    simp (is_ok-guard, is_ok-then, is_ok-check_forbidden, is_ok-check_components)

is_ok-is_ref_name : (name : String) (s : List ℕ) → is_ok (validate_chars name s) ≡ is_ref_name s
unfolding is_ref_name
is_ok-is_ref_name name s =
    ground (arith, is_ok-validate_chars name s, split-is_bad s, any-forbidden_chars s)

-- A branch name is accepted exactly when it is not empty, has none of the eleven excluded characters
-- (space, tab, line feed, carriage return, tilde, caret, colon, question mark, star, opening bracket,
-- backslash), no dot at the start, at the end, behind a dot or behind a slash, no slash at the start,
-- at the end or behind a slash, no reflog syntax, and no .lock at the end. Other white space is
-- accepted.
pub validate_branch_name-is_ref_name :
    (name : String) → (validate_branch_name name ≡ ok tt) ↔ (is_ref_name (bytes_of name) ≡ true)
unfolding validate_branch_name
validate_branch_name-is_ref_name name =
    ground (
      arith,
      is_ok_iff (validate_chars name (bytes_of name)),
      is_ok-is_ref_name name (bytes_of name),
    )
