-- ===== src/Gate/Judges.antt =====
-- crates/wll-gate/src/stages/validation.rs, capability.rs and policy.rs: the Boolean by which each built-in
-- stage judges.
use Prim.Native.String.{String}
use wll.Base.{
  ℕ, ◌+◌, ◌≡◌, ◌⊎◌, inl, inr, refl, ap, sym, subst, ◌&&◌, not, Bool, true, false, List, [], ◌∷◌,
  Bool-cases, if◌then◌else◌, is_empty, any, arith,
}
use wll.Base.Result.{ok}
use wll.Types.Temporal
use wll.Types.Temporal.{TemporalAnchor}
use wll.Gate.Stage.{
  CommitmentProposal, PolicyRule, require_capability, require_evidence, require_signature,
  max_targets, allowed_classes, deny_classes, require_review_for, custom_rule, Policy, Reason,
  empty_intent, no_target, empty_target, lacks_capability, StageDecision, pass, fail, GateContext,
}
use wll.Gate.Stages.{
  is_blank, check_targets, validation_stage, check_claims, capability_stage, applies, evaluate_rule,
  is_fail, check_rules, check_policies, policy_stage,
}
use wll.Gate.Rules.{
  is_well_formed, is_well_formed_lem, is_in_scope, is_broken, applies-is_in_scope,
  is_fail-evaluate_rule,
}

-- A decision is a pass where `b` holds, and a failure where it does not.
abbrev pub Judges : StageDecision → Bool → Type 0
Judges d b = ((d ≡ pass) × (b ≡ true)) ⊎ ((reason : Reason) × (d ≡ fail reason) × (b ≡ false))

pub check_targets-Judges :
    (i : ℕ) (ts : List String) → Judges (check_targets i ts) (not (any is_blank ts))
unfolding check_targets
check_targets-Judges i [] = inl (refl, refl)
check_targets-Judges i (t ∷ ts) = elim (Bool-cases (is_blank t)) [
  | inl e ↦ inr (empty_target i, rw e refl, rw e refl)
  | inr e ↦ rw e (check_targets-Judges (i + 1) ts)
]

validation_stage-Judges :
    (p : CommitmentProposal) (context : GateContext)
    → (d : StageDecision) × (validation_stage p context ≡ ok d)
      × Judges d
          (not (is_blank p.intent) && (not (is_empty p.targets) && not (any is_blank p.targets)))
unfolding validation_stage
validation_stage-Judges p context = elim (Bool-cases (is_blank p.intent)) [
  | inl e ↦ (fail empty_intent, rw e refl, inr (empty_intent, refl, rw e refl))
  | inr e ↦ elim (Bool-cases (is_empty p.targets)) [
    | inl f ↦ (fail no_target, rw (e, f) refl, inr (no_target, refl, rw (e, f) refl))
    | inr f ↦
        (check_targets 0 p.targets, rw (e, f) refl, rw (e, f) (check_targets-Judges 0 p.targets))
  ]
]

pub validation-Judges :
    (p : CommitmentProposal) (context : GateContext)
    → (d : StageDecision) × (validation_stage p context ≡ ok d) × Judges d (is_well_formed p)
validation-Judges p context =
    let (d, e, judged) = validation_stage-Judges p context in
    (d, e, subst (Judges d) (is_well_formed_lem p) judged)

pub check_claims-Judges :
    (now : TemporalAnchor) (cs : List String) → Judges (check_claims now [] cs) (is_empty cs)
unfolding check_claims
check_claims-Judges now [] = inl (refl, refl)
check_claims-Judges now (c ∷ cs) = inr (lacks_capability c, refl, refl)

pub capability-Judges :
    (now_ms : ℕ) (p : CommitmentProposal) (context : GateContext)
    → context.capabilities ≡ []
    → (d : StageDecision) × (capability_stage now_ms p context ≡ ok d)
      × Judges d (is_empty p.claimed_capabilities)
unfolding capability_stage
capability-Judges now_ms p context e = elim (Bool-cases (is_empty p.claimed_capabilities)) [
  | inl f ↦ (pass, rw f refl, inl (refl, f))
  | inr f ↦ (
    check_claims (Temporal.now now_ms 0) context.capabilities p.claimed_capabilities,
    rw f refl,
    rw e (check_claims-Judges (Temporal.now now_ms 0) p.claimed_capabilities),
  )
]

pub pass-Judges : (b : Bool) (reason : Reason) → Judges (if b then pass else fail reason) b
pass-Judges true reason = inl (refl, refl)
pass-Judges false reason = inr (reason, refl, refl)

pub fail-Judges : (b : Bool) (reason : Reason) → Judges (if b then fail reason else pass) (not b)
fail-Judges true reason = inr (reason, refl, refl)
fail-Judges false reason = inl (refl, refl)

pub Judges-is_fail : (d : StageDecision) (b : Bool) → Judges d b → Judges d (not (is_fail d))
Judges-is_fail d b (inl passed) = rw passed.0 (inl (refl, refl))
Judges-is_fail d b (inr failed) = rw failed.1 (inr (failed.0, refl, refl))

pub evaluate_rule-Judges :
    (r : PolicyRule) (p : CommitmentProposal) (context : GateContext)
    → Judges (evaluate_rule r p context) (not (is_fail (evaluate_rule r p context)))
unfolding evaluate_rule
evaluate_rule-Judges (require_capability name) p context = Judges-is_fail _ _ (pass-Judges _ _)
evaluate_rule-Judges require_evidence p context = Judges-is_fail _ _ (fail-Judges _ _)
evaluate_rule-Judges require_signature p context = Judges-is_fail _ _ (fail-Judges _ _)
evaluate_rule-Judges (max_targets most) p context = Judges-is_fail _ _ (fail-Judges _ _)
evaluate_rule-Judges (allowed_classes allowed) p context = Judges-is_fail _ _ (pass-Judges _ _)
evaluate_rule-Judges (deny_classes denied) p context = Judges-is_fail _ _ (fail-Judges _ _)
evaluate_rule-Judges (require_review_for c) p context = Judges-is_fail _ _ (fail-Judges _ _)
evaluate_rule-Judges (custom_rule name) p context = inl (refl, refl)

abbrev breaks : CommitmentProposal → GateContext → PolicyRule → Bool
breaks p context r = is_fail (evaluate_rule r p context)

pub check_rules-Judges :
    (p : CommitmentProposal) (context : GateContext) (rs : List PolicyRule)
    → Judges (check_rules p context rs) (not (any (breaks p context) rs))
unfolding check_rules
check_rules-Judges p context [] = inl (refl, refl)
check_rules-Judges p context (r ∷ rs) = elim (Bool-cases (breaks p context r)) [
  | inl e ↦
      rw e
        (subst (Judges (evaluate_rule r p context)) (ap not e) (evaluate_rule-Judges r p context))
  | inr e ↦ rw e (check_rules-Judges p context rs)
]

pub check_policies-Judges :
    (p : CommitmentProposal) (context : GateContext) (policy : Policy)
    → Judges
        (check_policies p context (policy ∷ []))
        (not (applies policy p && any (breaks p context) policy.rules))
unfolding check_policies
check_policies-Judges p context policy = elim (Bool-cases (applies policy p)) [
  | inr f ↦ rw f (inl (refl, refl))
  | inl f ↦ rw f (elim (check_rules-Judges p context policy.rules) [
    | inl kept ↦ rw (kept.0, kept.1) (inl (refl, refl))
    | inr broken ↦ rw (broken.1, broken.2) (inr (broken.0, refl, refl))
  ])
]

any-breaks :
    (p : CommitmentProposal) (context : GateContext) (rs : List PolicyRule)
    → context.capabilities ≡ []
    → any (breaks p context) rs ≡ any (is_broken p) rs
any-breaks p context [] e = refl
any-breaks p context (r ∷ rs) e =
    ground (arith, is_fail-evaluate_rule r p context e, any-breaks p context rs e)

-- The proposal keeps the policy, for a proposer who holds no capability.
abbrev pub keeps : Policy → CommitmentProposal → Bool
keeps policy p = not (is_in_scope policy.applies_to p && any (is_broken p) policy.rules)

keeps_lem :
    (p : CommitmentProposal) (context : GateContext) (policy : Policy)
    → context.capabilities ≡ []
    → not (applies policy p && any (breaks p context) policy.rules) ≡ keeps policy p
keeps_lem p context policy e =
    ground (arith, applies-is_in_scope policy p, any-breaks p context policy.rules e)

pub policy-Judges :
    (p : CommitmentProposal) (context : GateContext) (policy : Policy)
    → context.policies ≡ policy ∷ []
    → context.capabilities ≡ []
    → (d : StageDecision) × (policy_stage p context ≡ ok d) × Judges d (keeps policy p)
unfolding policy_stage
policy-Judges p context policy e none_held = (
  check_policies p context context.policies,
  refl,
  subst (Judges (check_policies p context context.policies)) (keeps_lem p context policy none_held)
      (subst
        (λ qs.
          Judges (check_policies p context qs)
            (not (applies policy p && any (breaks p context) policy.rules)))
        (sym e) (check_policies-Judges p context policy)),
)
