-- ===== src/Gate/Tests.antt =====
-- The standard pipeline on a small proposal.
use wll.Base.{◌≡◌, ◌⊎◌, refl, false, ◌||◌, [], ◌∷◌, none}
use wll.Base.Result.{ok}
use wll.Types.Commitment.{content_update}
use wll.Gate.Stage.{CommitmentProposal, default_config, pass, fail, lacks_capability}
use wll.Gate.Stages.{validation_stage, is_blank, check_targets, capability_stage, check_claims}
use wll.Gate.Pipeline.{
  with_default_stages, evaluate, run_stages, compute_policy_hash, GateResult, CommitmentGate,
  own_context, finish, rejected, result_of,
}
use wll.Gate.Default.{Decides, is_admitted, evaluate-is_admitted}
use wll.Gate.Recorded.{PassedAll, StoppedAt, evaluate-recorded}

abbrev proposal : CommitmentProposal
proposal = record {
  proposer = 5;
  intent = "change";
  class = content_update;
  targets = "src/main.rs" ∷ [];
  evidence = record { references = []; digest = 0 };
  claimed_capabilities = "deploy" ∷ [];
  signature = none;
}

evaluate-is_admitted_example :
    Decides
      (evaluate (λ policy. none) (with_default_stages 10 default_config) proposal)
      (false || is_admitted default_config proposal)
evaluate-is_admitted_example = evaluate-is_admitted (λ policy. none) 10 default_config proposal

abbrev gate : CommitmentGate
gate = with_default_stages 10 default_config

-- The gate stops at the capability stage.
abbrev stopped : GateResult
stopped =
    finish (rejected (lacks_capability "deploy")) 0
      (result_of "validation" pass ∷ result_of "capability" (fail (lacks_capability "deploy")) ∷ [])

evaluate-stopped :
    evaluate (λ policy. none) (with_default_stages 10 default_config) proposal ≡ ok stopped
unfolding evaluate run_stages compute_policy_hash validation_stage is_blank check_targets
    capability_stage check_claims
evaluate-stopped = refl

evaluate-recorded_example :
    PassedAll proposal (own_context gate proposal) gate.stages [] stopped
    ⊎ StoppedAt proposal (own_context gate proposal) gate.stages [] stopped
evaluate-recorded_example =
    evaluate-recorded (λ policy. none) gate proposal stopped refl evaluate-stopped
