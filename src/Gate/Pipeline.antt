-- ===== src/Gate/Pipeline.antt =====
-- crates/wll-gate/src/gate.rs: the gate, a pipeline of stages that stops at the first one that does
-- not pass. The hash of a policy is made by blake3 over serde_json: `hash_policy` is none where the
-- encoding fails.
use wll.Base.{
  ℕ, true, false, List, [], ◌∷◌, ◌++◌, String, Option, none, some, if◌then◌else◌, length,
}
use wll.Base.Result.{Result, ok, err}
use wll.Types.Commitment.{Hash}
use wll.Gate.Stage.{
  CommitmentProposal, Policy, Reason, deferred_because, StageDecision, pass, fail, defer,
  StageResult, GateContext, minimal, GateError, GateStage, GateConfig,
}
use wll.Gate.Stages.{validation_stage, capability_stage, policy_stage}

pub data GateDecision : Type 0 where
  accepted : GateDecision
  rejected : Reason → GateDecision

pub record GateResult : Type 0 where
  pub decision : GateDecision
  pub policy_hash : Hash
  pub stage_results : List StageResult

pub record CommitmentGate : Type 0 where
  pub stages : List GateStage
  pub config : GateConfig

abbrev pub new : GateConfig → CommitmentGate
new config = record { stages = []; config = config }

abbrev pub add_stage : GateStage → CommitmentGate → CommitmentGate
add_stage stage gate = record gate { stages = gate.stages ++ stage ∷ [] }

abbrev pub stage_count : CommitmentGate → ℕ
stage_count gate = length gate.stages

-- `now_ms` is the wall clock reading of the capability stage.
abbrev pub with_default_stages : ℕ → GateConfig → CommitmentGate
with_default_stages now_ms config =
    add_stage (record { name = "policy"; judge = policy_stage })
      (add_stage (record { name = "capability"; judge = capability_stage now_ms })
        (add_stage (record { name = "validation"; judge = validation_stage }) (new config)))

-- `(passed, reason)` of a stage's decision
abbrev pub result_of : String → StageDecision → StageResult
result_of name pass = record { stage_name = name; passed = true; reason = none }
result_of name (fail reason) = record { stage_name = name; passed = false; reason = some reason }
result_of name (defer reason _) = record { stage_name = name; passed = false; reason = some reason }

module _ (hash_policy : Policy → Option Hash) where
  unfoldable pub compute_policy_hash : CommitmentGate → Hash
  compute_policy_hash gate = elim (hash_policy gate.config.default_policy) [ none ↦ 0 | some h ↦ h ]

abbrev pub finish : GateDecision → Hash → List StageResult → GateResult
finish decision policy_hash results = record {
  decision = decision;
  policy_hash = policy_hash;
  stage_results = results;
}

abbrev pub note : StageResult → GateContext → GateContext
note result context = record context { previous_stages = context.previous_stages ++ result ∷ [] }

-- The rounds of the loop, with the results so far; the context comes back as the loop leaves it.
unfoldable pub run_stages :
    Hash
    → List GateStage
    → CommitmentProposal
    → List StageResult
    → GateContext
    → Result GateError GateResult × GateContext
run_stages ph [] p results context = (ok (finish accepted ph results), context)
run_stages ph (stage ∷ stages) p results context = elim (stage.judge p context) [
  | err e ↦ (err e, context)
  | ok pass ↦
      run_stages ph stages p (results ++ result_of stage.name pass ∷ [])
        (note (result_of stage.name pass) context)
  | ok (fail reason) ↦ (
    ok (finish (rejected reason) ph (results ++ result_of stage.name (fail reason) ∷ [])),
    note (result_of stage.name (fail reason)) context,
  )
  | ok (defer reason after) ↦ (
    ok (
        finish (rejected (deferred_because reason)) ph
          (results ++ result_of stage.name (defer reason after) ∷ [])),
    note (result_of stage.name (defer reason after)) context,
  )
]

-- `evaluate`'s own context: nobody's capabilities, and the default policy
abbrev pub own_context : CommitmentGate → CommitmentProposal → GateContext
own_context gate p = record (minimal p.proposer) { policies = gate.config.default_policy ∷ [] }

module _ (hash_policy : Policy → Option Hash) where
  unfoldable pub evaluate_with_context :
      CommitmentGate → CommitmentProposal → GateContext → Result GateError GateResult × GateContext
  unfolding run_stages
  evaluate_with_context gate p context =
      let ph : Hash = compute_policy_hash hash_policy gate in
      if gate.config.permissive
      then (ok (finish accepted ph []), context)
      else run_stages ph gate.stages p [] context

  unfoldable pub evaluate : CommitmentGate → CommitmentProposal → Result GateError GateResult
  unfolding run_stages
  evaluate gate p =
      let ph : Hash = compute_policy_hash hash_policy gate in
      if gate.config.permissive
      then ok (finish accepted ph [])
      else (run_stages ph gate.stages p [] (own_context gate p)).0
