-- ===== src/Gate/Rules.antt =====
-- crates/wll-gate/src/stages/validation.rs and policy.rs: what the validation and each rule and scope of a
-- policy ask of a proposal, told apart from the code, for a gate where nobody holds a capability.
use wll.Base.{
  ℕ, ◌≡◌, ◌↔◌, refl, ap, Bool, true, false, not, ◌&&◌, ◌||◌, List, [], ◌∷◌, Option, none, some,
  ◌==◌, eq_nat, eq_string, Comparable, length, is_empty, any, contains, bytes_of, leb, arith,
}
use wll.Types.Commitment.{CommitmentClass, custom}
use wll.Gate.Stage.{
  CommitmentProposal, PolicyRule, require_capability, require_evidence, require_signature,
  max_targets, allowed_classes, deny_classes, require_review_for, custom_rule, Policy, PolicyScope,
  all_proposals, of_worldline, of_class, of_path, GateContext,
}
use Prim.Native.String.{String}
use wll.Gate.Stages.{
  is_whitespace, is_blank, class_eq, starts_with, applies, evaluate_rule, is_fail,
}

-- The text has a character that is not white space.
abbrev pub has_ink : String → Bool
has_ink s = any (λ c. not (is_whitespace c)) (bytes_of s)

-- The proposal has an intent and targets, and each of them is more than white space.
unfoldable pub is_well_formed : CommitmentProposal → Bool
is_well_formed p =
    has_ink p.intent && not (length p.targets == 0) && not (any (λ t. not (has_ink t)) p.targets)

is_blank-has_ink : (s : String) → is_blank s ≡ not (has_ink s)
unfolding is_blank
is_blank-has_ink String.[] = refl
is_blank-has_ink (String.◌∷◌ c s) = ground (arith, is_blank-has_ink s)

any-is_blank : (ts : List String) → any is_blank ts ≡ any (λ t. not (has_ink t)) ts
any-is_blank [] = refl
any-is_blank (t ∷ ts) = ground (arith, is_blank-has_ink t, any-is_blank ts)

is_empty-length : {A : Type 0} (xs : List A) → is_empty xs ≡ (length xs == 0)
is_empty-length [] = refl
is_empty-length (x ∷ xs) = ground arith

pub is_well_formed_lem :
    (p : CommitmentProposal)
    → not (is_blank p.intent) && (not (is_empty p.targets) && not (any is_blank p.targets))
      ≡ is_well_formed p
unfolding is_well_formed
is_well_formed_lem p =
    ground (arith, is_blank-has_ink p.intent, is_empty-length p.targets, any-is_blank p.targets)

-- The test of classes finds out equality.
pub class_eq_iff : (a b : CommitmentClass) → (class_eq a b ≡ true) ↔ (a ≡ b)
class_eq_iff (custom a) (custom b) = ground (arith, eq_string.same_iff a b)
class_eq_iff a b = ground arith

instance abbrev pub eq_class : Comparable CommitmentClass
eq_class = record { same = class_eq; same_iff = class_eq_iff }

-- Whether the proposal is in the scope of a policy.
unfoldable pub is_in_scope : PolicyScope → CommitmentProposal → Bool
is_in_scope all_proposals p = true
is_in_scope (of_worldline w) p = w == p.proposer
is_in_scope (of_class c) p = c == p.class
is_in_scope (of_path prefix) p = any (λ target. starts_with prefix target) p.targets

-- Whether the proposal breaks the rule: nobody holds a capability that a rule asks for, references and a
-- signature must be there, and at most `most` targets; the class must be among the allowed ones, not
-- among the denied ones, and not the one to review; a rule of one's own is never broken.
unfoldable pub is_broken : CommitmentProposal → PolicyRule → Bool
is_broken p (require_capability name) = true
is_broken p require_evidence = length p.evidence.references == 0
is_broken p require_signature = elim p.signature [ none ↦ true | some _ ↦ false ]
is_broken p (max_targets most) = not (leb (length p.targets) most)
is_broken p (allowed_classes allowed) = not (contains allowed p.class)
is_broken p (deny_classes denied) = contains denied p.class
is_broken p (require_review_for c) = c == p.class
is_broken p (custom_rule name) = false

class_eq_sym : (a b : CommitmentClass) → class_eq a b ≡ class_eq b a
class_eq_sym a b = ground (arith, class_eq_iff a b, class_eq_iff b a)

scope_lem :
    (scope : PolicyScope) (policy : Policy) (p : CommitmentProposal)
    → applies (record policy { applies_to = scope }) p ≡ is_in_scope scope p
unfolding applies is_in_scope
scope_lem all_proposals policy p = refl
scope_lem (of_worldline w) policy p = ground arith
scope_lem (of_class c) policy p = class_eq_sym p.class c
scope_lem (of_path pattern) policy p = refl

pub applies-is_in_scope :
    (policy : Policy) (p : CommitmentProposal) → applies policy p ≡ is_in_scope policy.applies_to p
applies-is_in_scope policy p = scope_lem policy.applies_to policy p

any-contains :
    (cs : List CommitmentClass) (c : CommitmentClass) → any (λ d. class_eq d c) cs ≡ contains cs c
any-contains [] c = refl
any-contains (d ∷ cs) c = ap (λ b. class_eq d c || b) (any-contains cs c)

is_fail-signature :
    (o : Option (List ℕ)) (p : CommitmentProposal) (context : GateContext)
    → is_fail (evaluate_rule require_signature (record p { signature = o }) context)
      ≡ is_broken (record p { signature = o }) require_signature
unfolding evaluate_rule is_broken
is_fail-signature none p context = refl
is_fail-signature (some bytes) p context = refl

pub is_fail-evaluate_rule :
    (r : PolicyRule) (p : CommitmentProposal) (context : GateContext)
    → context.capabilities ≡ []
    → is_fail (evaluate_rule r p context) ≡ is_broken p r
unfolding evaluate_rule is_broken
is_fail-evaluate_rule (require_capability name) p context e = rw e refl
is_fail-evaluate_rule require_evidence p context e =
    ground (arith, is_empty-length p.evidence.references)
is_fail-evaluate_rule require_signature p context e = is_fail-signature p.signature p context
is_fail-evaluate_rule (max_targets most) p context e = ground arith
is_fail-evaluate_rule (allowed_classes allowed) p context e =
    ground (arith, any-contains allowed p.class)
is_fail-evaluate_rule (deny_classes denied) p context e =
    ground (arith, any-contains denied p.class)
is_fail-evaluate_rule (require_review_for c) p context e = ground (arith, class_eq_sym p.class c)
is_fail-evaluate_rule (custom_rule name) p context e = refl
