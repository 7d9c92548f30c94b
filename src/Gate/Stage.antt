-- ===== src/Gate/Stage.antt =====
-- crates/wll-gate/src/stage.rs, error.rs and config.rs, with the policies of stages/policy.rs and the
-- capabilities of crates/wll-types/src/commitment.rs. A reason keeps what its message says; the times
-- that a stage takes are left out.
use wll.Base.{ℕ, Bool, true, false, List, [], String, Option, none, some}
use wll.Base.Result.{Result}
use wll.Types.Temporal.{TemporalAnchor, is_after}
use wll.Types.Commitment.{WorldlineId, CommitmentClass, EvidenceBundle}

pub data CapabilityScope : Type 0 where
  global : CapabilityScope
  worldline_scope : WorldlineId → CapabilityScope
  path_scope : String → CapabilityScope
  custom_scope : String → CapabilityScope

pub record Capability : Type 0 where
  pub id : String
  pub scope : CapabilityScope
  pub granted_at : TemporalAnchor
  pub expires_at : Option TemporalAnchor

unfoldable pub is_expired_at : Capability → TemporalAnchor → Bool
is_expired_at cap now = elim cap.expires_at [ none ↦ false | some at ↦ is_after now at ]

pub record CommitmentProposal : Type 0 where
  pub proposer : WorldlineId
  pub intent : String
  pub class : CommitmentClass
  pub targets : List String
  pub evidence : EvidenceBundle
  pub claimed_capabilities : List String
  pub signature : Option (List ℕ)

pub data PolicyRule : Type 0 where
  require_capability : String → PolicyRule
  require_evidence require_signature : PolicyRule
  max_targets : ℕ → PolicyRule
  allowed_classes deny_classes : List CommitmentClass → PolicyRule
  require_review_for : CommitmentClass → PolicyRule
  custom_rule : String → PolicyRule

pub data PolicyScope : Type 0 where
  all_proposals : PolicyScope
  of_worldline : WorldlineId → PolicyScope
  of_class : CommitmentClass → PolicyScope
  of_path : String → PolicyScope

pub record Policy : Type 0 where
  pub id : String
  pub name : String
  pub rules : List PolicyRule
  pub applies_to : PolicyScope

pub data Reason : Type 0 where
  empty_intent no_target : Reason
  empty_target : ℕ → Reason
  lacks_capability policy_needs_capability : String → Reason
  needs_evidence needs_signature : Reason
  too_many_targets : ℕ → ℕ → Reason
  class_not_allowed class_denied class_needs_review : CommitmentClass → Reason
  -- the reason of a stage that is not one of the three built in
  stated : String → Reason
  deferred_because : Reason → Reason

-- `retry_after` is in milliseconds.
pub data StageDecision : Type 0 where
  pass : StageDecision
  fail : Reason → StageDecision
  defer : Reason → ℕ → StageDecision

pub record StageResult : Type 0 where
  pub stage_name : String
  pub passed : Bool
  pub reason : Option Reason

pub record GateContext : Type 0 where
  pub worldline : WorldlineId
  pub capabilities : List Capability
  pub policies : List Policy
  pub previous_stages : List StageResult

abbrev pub minimal : WorldlineId → GateContext
minimal worldline = record {
  worldline = worldline;
  capabilities = [];
  policies = [];
  previous_stages = [];
}

pub data GateError : Type 0 where
  validation capability_denied policy_violation config_error : String → GateError
  timeout : ℕ → GateError
  stage_error : String → String → GateError

-- `dyn GateStage`
pub record GateStage : Type 0 where
  pub name : String
  pub judge : CommitmentProposal → GateContext → Result GateError StageDecision

pub record GateConfig : Type 0 where
  pub require_evidence : Bool
  pub require_signatures : Bool
  pub default_policy : Policy
  pub timeout_ms : ℕ
  pub max_targets_per_commitment : ℕ
  pub permissive : Bool

abbrev pub permissive_policy : Policy
permissive_policy = record {
  id = "permissive";
  name = "Permissive (allow all)";
  rules = [];
  applies_to = all_proposals;
}

abbrev pub default_config : GateConfig
default_config = record {
  require_evidence = false;
  require_signatures = false;
  default_policy = permissive_policy;
  timeout_ms = 30000;
  max_targets_per_commitment = 100;
  permissive = false;
}

abbrev pub permissive_config : GateConfig
permissive_config = record default_config { permissive = true }
