-- ===== src/Gate/Default.antt =====
-- crates/wll-gate/src/gate.rs: what the standard pipeline lets through.
use wll.Base.{
  ℕ, ◌≡◌, ◌↔◌, inl, inr, refl, ap, ◌&&◌, ◌||◌, not, Bool, true, false, List, [], ◌∷◌, ◌++◌, ◌∙◌,
  Option, arith, Bool-cases, is_empty, any,
}
use wll.Base.Result.{Result, ok}
use wll.Types.Commitment.{Hash}
use wll.Gate.Stage.{
  CommitmentProposal, Policy, Reason, StageDecision, pass, fail, GateContext, GateError, GateConfig,
  GateStage, StageResult,
}
use wll.Gate.Rules.{is_well_formed, is_in_scope, is_broken}
use wll.Gate.Pipeline.{
  GateResult, new, accepted, rejected, with_default_stages, own_context, run_stages, result_of,
  note, evaluate,
}
use wll.Gate.Judges.{Judges, validation-Judges, capability-Judges, policy-Judges}

abbrev first_context : GateConfig → CommitmentProposal → GateContext
first_context config p = own_context (new config) p

-- What the last context of the pipeline looks like to the policy stage.
abbrev policy_context : GateConfig → CommitmentProposal → GateContext
policy_context config p =
    note (result_of "capability" pass) (note (result_of "validation" pass) (first_context config p))

-- The gate's own rules for a proposal, with the default policy and no capability held by anyone.
unfoldable pub is_admitted : GateConfig → CommitmentProposal → Bool
unfolding is_well_formed
is_admitted config p =
    is_well_formed p
    && (is_empty p.claimed_capabilities
        && not (
            is_in_scope config.default_policy.applies_to p
            && any (is_broken p) config.default_policy.rules))

-- The gate's decision: it has one, and it accepts exactly where `b` holds.
abbrev pub Decides : Result GateError GateResult → Bool → Type 0
Decides out b = (r : GateResult) × (out ≡ ok r) × ((r.decision ≡ accepted) ↔ (b ≡ true))

rejected-Decides :
    (reason : Reason) (r : GateResult) → r.decision ≡ rejected reason → Decides (ok r) false
rejected-Decides reason r e = (r, refl, (λ h. ground (arith, e, h), λ h. ground (arith, h)))

accepted-Decides : (r : GateResult) → r.decision ≡ accepted → Decides (ok r) true
accepted-Decides r e = (r, refl, (λ _. refl, λ _. e))

-- A stage that passes hands on to the rest.
pass-Decides :
    (ph : Hash) (stage : GateStage) (stages : List GateStage) (p : CommitmentProposal)
    (results : List StageResult) (context : GateContext) (b : Bool)
    → stage.judge p context ≡ ok pass
    → Decides
        (run_stages ph stages p
          (results ++ result_of stage.name pass ∷ [])
          (note (result_of stage.name pass) context)).0
        b
    → Decides (run_stages ph (stage ∷ stages) p results context).0 b
unfolding run_stages
pass-Decides ph stage stages p results context b e h = rw (run_stages, e) h

fail-Decides :
    (ph : Hash) (stage : GateStage) (stages : List GateStage) (p : CommitmentProposal)
    (results : List StageResult) (context : GateContext) (reason : Reason)
    → stage.judge p context ≡ ok (fail reason)
    → Decides (run_stages ph (stage ∷ stages) p results context).0 false
unfolding run_stages
fail-Decides ph stage stages p results context reason e =
    rw (run_stages, e) (rejected-Decides reason _ refl)

-- A stage that judges by `b`, with the rest deciding by `c`.
stage-Decides :
    (ph : Hash) (stage : GateStage) (stages : List GateStage) (p : CommitmentProposal)
    (results : List StageResult) (context : GateContext) (b c : Bool)
    → (d : StageDecision) × (stage.judge p context ≡ ok d) × Judges d b
    → Decides
        (run_stages ph stages p
          (results ++ result_of stage.name pass ∷ [])
          (note (result_of stage.name pass) context)).0
        c
    → Decides (run_stages ph (stage ∷ stages) p results context).0 (b && c)
stage-Decides ph stage stages p results context b c (d, e, inl passed) h =
    rw passed.1 (pass-Decides ph stage stages p results context c (e ∙ ap ok passed.0) h)
stage-Decides ph stage stages p results context b c (d, e, inr failed) h =
    rw failed.2 (fail-Decides ph stage stages p results context failed.0 (e ∙ ap ok failed.1))

last-Decides :
    (ph : Hash) (stage : GateStage) (p : CommitmentProposal) (results : List StageResult)
    (context : GateContext) (b : Bool)
    → (d : StageDecision) × (stage.judge p context ≡ ok d) × Judges d b
    → Decides (run_stages ph (stage ∷ []) p results context).0 b
unfolding run_stages
last-Decides ph stage p results context b (d, e, inl passed) =
    rw passed.1 (
      pass-Decides ph stage [] p results context true (e ∙ ap ok passed.0)
        (accepted-Decides _ refl))
last-Decides ph stage p results context b (d, e, inr failed) =
    rw failed.2 (fail-Decides ph stage [] p results context failed.0 (e ∙ ap ok failed.1))

run_stages-Decides :
    (ph : Hash) (now_ms : ℕ) (config : GateConfig) (p : CommitmentProposal)
    → Decides
        (run_stages ph (with_default_stages now_ms config).stages p [] (first_context config p)).0
        (is_admitted config p)
unfolding is_admitted
run_stages-Decides ph now_ms config p = stage-Decides ph _ _ p _ _ _ _ (validation-Judges p _) (
    stage-Decides ph _ _ p _ _ _ _ (capability-Judges now_ms p _ refl) (
      last-Decides ph _ p _ _ _
        (policy-Judges p (policy_context config p) config.default_policy refl refl)))

-- The gate with its standard pipeline always decides, and accepts a proposal exactly if it is
-- permissive, or the proposal is well formed, claims no capability at all, and is out of the scope of the
-- default policy or breaks none of its rules. `evaluate` knows of no capability that anyone holds: a rule
-- that asks for one is always broken. The rules and the scopes are told apart from the code in Gate.Rules.
pub evaluate-is_admitted :
    (hash_policy : Policy → Option Hash) (now_ms : ℕ) (config : GateConfig) (p : CommitmentProposal)
    → Decides
        (evaluate hash_policy (with_default_stages now_ms config) p)
        (config.permissive || is_admitted config p)
unfolding evaluate is_admitted
evaluate-is_admitted hash_policy now_ms config p = elim (Bool-cases config.permissive) [
  | inl e ↦ rw e (accepted-Decides _ refl)
  | inr e ↦ rw e (run_stages-Decides _ now_ms config p)
]
