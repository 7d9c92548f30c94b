-- ===== src/Gate/Stages.antt =====
-- crates/wll-gate/src/stages/validation.rs, capability.rs and policy.rs: the three built-in stages.
use Prim.Native.String.{String}
use Prim.Native.Char.{code}
use wll.Base.{
  ℕ, ◌+◌, ◌==◌, ◌&&◌, ◌||◌, not, eq_nat, eq_string, Bool, true, false, List, [], ◌∷◌, if◌then◌else◌,
  is_empty, any, length, leb, ltb,
}
use wll.Base.Result.{Result, ok}
use wll.Base.Maps.{is_some}
use wll.Types.Temporal
use wll.Types.Temporal.{TemporalAnchor}
use wll.Types.Commitment.{
  CommitmentClass, read_only, content_update, structural_change, policy_change, identity_operation,
  custom,
}
use wll.Gate.Stage.{
  Capability, is_expired_at, CommitmentProposal, PolicyRule, require_capability, require_evidence,
  require_signature, max_targets, allowed_classes, deny_classes, require_review_for, custom_rule,
  all_proposals, of_worldline, of_class, of_path, Policy, empty_intent, no_target, empty_target,
  lacks_capability, policy_needs_capability, needs_evidence, needs_signature, too_many_targets,
  class_not_allowed, class_denied, class_needs_review, StageDecision, pass, fail, GateContext,
  GateError,
}

-- `char::is_whitespace`
abbrev pub is_whitespace : ℕ → Bool
is_whitespace c =
    (leb 9 c && leb c 13)
    || c == 32
    || c == 133
    || c == 160
    || c == 5760
    || (leb 8192 c && leb c 8202)
    || c == 8232
    || c == 8233
    || c == 8239
    || c == 8287
    || c == 12288

-- `text.trim().is_empty()`
unfoldable pub is_blank : String → Bool
is_blank String.[] = true
is_blank (String.◌∷◌ c s) = is_whitespace (code c) && is_blank s

-- `text.starts_with(prefix)`
unfoldable pub starts_with : String → String → Bool
starts_with String.[] s = true
starts_with (String.◌∷◌ c p) String.[] = false
starts_with (String.◌∷◌ c p) (String.◌∷◌ d s) = code c == code d && starts_with p s

abbrev pub class_eq : CommitmentClass → CommitmentClass → Bool
class_eq read_only read_only = true
class_eq content_update content_update = true
class_eq structural_change structural_change = true
class_eq policy_change policy_change = true
class_eq identity_operation identity_operation = true
class_eq (custom a) (custom b) = a == b
class_eq _ _ = false

-- The targets from index `i` on.
unfoldable pub check_targets : ℕ → List String → StageDecision
check_targets i [] = pass
check_targets i (t ∷ ts) = if is_blank t then fail (empty_target i) else check_targets (i + 1) ts

unfoldable pub validation_stage : CommitmentProposal → GateContext → Result GateError StageDecision
validation_stage p context =
    if is_blank p.intent
    then ok (fail empty_intent)
    else if is_empty p.targets
    then ok (fail no_target)
    else ok (check_targets 0 p.targets)

abbrev pub holds : TemporalAnchor → List Capability → String → Bool
holds now caps claimed = any (λ cap. cap.id == claimed && not (is_expired_at cap now)) caps

unfoldable pub check_claims : TemporalAnchor → List Capability → List String → StageDecision
check_claims now caps [] = pass
check_claims now caps (c ∷ cs) =
    if holds now caps c then check_claims now caps cs else fail (lacks_capability c)

-- `now_ms` is the wall clock reading of `TemporalAnchor::now(0)`.
unfoldable pub capability_stage :
    ℕ → CommitmentProposal → GateContext → Result GateError StageDecision
capability_stage now_ms p context =
    if is_empty p.claimed_capabilities
    then ok pass
    else ok (check_claims (Temporal.now now_ms 0) context.capabilities p.claimed_capabilities)

unfoldable pub applies : Policy → CommitmentProposal → Bool
applies policy p = elim policy.applies_to [
  | all_proposals ↦ true
  | of_worldline w ↦ p.proposer == w
  | of_class c ↦ class_eq p.class c
  | of_path pattern ↦ any (λ t. starts_with pattern t) p.targets
]

unfoldable pub evaluate_rule : PolicyRule → CommitmentProposal → GateContext → StageDecision
evaluate_rule (require_capability name) p context =
    if any (λ c. c.id == name) context.capabilities
    then pass
    else fail (policy_needs_capability name)
evaluate_rule require_evidence p context =
    if is_empty p.evidence.references then fail needs_evidence else pass
evaluate_rule require_signature p context =
    if not (is_some p.signature) then fail needs_signature else pass
evaluate_rule (max_targets most) p context =
    if ltb most (length p.targets) then fail (too_many_targets (length p.targets) most) else pass
evaluate_rule (allowed_classes allowed) p context =
    if any (λ c. class_eq c p.class) allowed then pass else fail (class_not_allowed p.class)
evaluate_rule (deny_classes denied) p context =
    if any (λ c. class_eq c p.class) denied then fail (class_denied p.class) else pass
evaluate_rule (require_review_for c) p context =
    if class_eq p.class c then fail (class_needs_review p.class) else pass
evaluate_rule (custom_rule name) p context = pass

abbrev pub is_fail : StageDecision → Bool
is_fail (fail _) = true
is_fail _ = false

unfoldable pub check_rules : CommitmentProposal → GateContext → List PolicyRule → StageDecision
check_rules p context [] = pass
check_rules p context (r ∷ rs) =
    let rest = check_rules p context rs in
    if is_fail (evaluate_rule r p context) then evaluate_rule r p context else rest

unfoldable pub check_policies : CommitmentProposal → GateContext → List Policy → StageDecision
check_policies p context [] = pass
check_policies p context (q ∷ qs) =
    let rest = check_policies p context qs in
    if applies q p && is_fail (check_rules p context q.rules)
    then check_rules p context q.rules
    else rest

unfoldable pub policy_stage : CommitmentProposal → GateContext → Result GateError StageDecision
policy_stage p context = ok (check_policies p context context.policies)
