-- ===== src/Gate/Recorded.antt =====
-- crates/wll-gate/src/gate.rs: what the result of a pipeline of any stages records.
use wll.Base.{
  ◌≡◌, ◌⊎◌, inl, inr, refl, sym, ap, ◌∙◌, false, List, [], ◌∷◌, ◌++◌, map, Option, none, some,
  arith, append-nil, append_assoc,
}
use wll.Base.Result.{Result, ok, Result-cases}
use wll.Types.Commitment.{Hash}
use wll.Gate.Stage.{
  CommitmentProposal, Policy, StageDecision, pass, fail, defer, deferred_because, StageResult,
  GateContext, GateError, GateStage,
}
use wll.Gate.Pipeline.{
  GateResult, GateDecision, accepted, rejected, CommitmentGate, result_of, note, finish, run_stages,
  own_context, evaluate,
}

-- The decision of the gate when a stage does not pass.
abbrev pub stopped_by : StageDecision → Option GateDecision
stopped_by pass = none
stopped_by (fail reason) = some (rejected reason)
stopped_by (defer reason _) = some (rejected (deferred_because reason))

-- The results of stages that have all passed.
abbrev pub all_passed : List GateStage → List StageResult
all_passed stages = map (λ stage. result_of stage.name pass) stages

-- Every stage passes the proposal, each in the context with the results of those before it.
abbrev pub AllPass : CommitmentProposal → List GateStage → GateContext → Type 0
AllPass p [] context = Unit {0}
AllPass p (stage ∷ stages) context =
    (stage.judge p context ≡ ok pass) × AllPass p stages (note (result_of stage.name pass) context)

-- The context behind stages that have passed.
abbrev pub context_behind : List GateStage → GateContext → GateContext
context_behind [] context = context
context_behind (stage ∷ stages) context =
    context_behind stages (note (result_of stage.name pass) context)

-- Every stage has passed, and the gate accepts.
pub record PassedAll (p : CommitmentProposal) (context : GateContext) (stages : List GateStage)
    (results : List StageResult) (r : GateResult) : Type 0 where
  pub passed : AllPass p stages context
  pub decided : r.decision ≡ accepted
  pub recorded : r.stage_results ≡ results ++ all_passed stages

-- The first stage that does not pass is the last one recorded, and its decision is the gate's.
pub record StoppedAt (p : CommitmentProposal) (context : GateContext) (stages : List GateStage)
    (results : List StageResult) (r : GateResult) : Type 0 where
  pub before : List GateStage
  pub stage : GateStage
  pub after : List GateStage
  pub judged : StageDecision
  pub places : stages ≡ before ++ stage ∷ after
  pub passed : AllPass p before context
  pub judges : stage.judge p (context_behind before context) ≡ ok judged
  pub recorded :
      r.stage_results ≡ results ++ (all_passed before ++ result_of stage.name judged ∷ [])
  pub decided : stopped_by judged ≡ some r.decision

ok_inj : (r s : GateResult) → ◌≡◌ {A = Result GateError GateResult} (ok r) (ok s) → r ≡ s
ok_inj r s e = ground (arith, e)

module _ (p : CommitmentProposal) (context : GateContext) (stage : GateStage)
    (stages : List GateStage) (results : List StageResult) (r : GateResult) where
  -- A stage that has passed goes in front of what the rest records.
  PassedAll-cons :
      stage.judge p context ≡ ok pass
      → PassedAll p
          (note (result_of stage.name pass) context)
          stages
          (results ++ result_of stage.name pass ∷ [])
          r
      → PassedAll p context (stage ∷ stages) results r
  PassedAll-cons q a = record {
    passed = (q, a.passed);
    decided = a.decided;
    recorded =
        a.recorded ∙ append_assoc results (result_of stage.name pass ∷ []) (all_passed stages);
  }

  StoppedAt-cons :
      stage.judge p context ≡ ok pass
      → StoppedAt p
          (note (result_of stage.name pass) context)
          stages
          (results ++ result_of stage.name pass ∷ [])
          r
      → StoppedAt p context (stage ∷ stages) results r
  StoppedAt-cons q s = record {
    before = stage ∷ s.before;
    stage = s.stage;
    after = s.after;
    judged = s.judged;
    places = ap (λ xs. stage ∷ xs) s.places;
    passed = (q, s.passed);
    judges = s.judges;
    recorded = s.recorded ∙ append_assoc results (result_of stage.name pass ∷ []) _;
    decided = s.decided;
  }

  -- The loop ends at a stage that does not pass.
  StoppedAt-here :
      (ph : Hash) (d : StageDecision) (decision : GateDecision)
      → stage.judge p context ≡ ok d
      → stopped_by d ≡ some decision
      → ◌≡◌ {A = Result GateError GateResult}
          (ok (finish decision ph (results ++ result_of stage.name d ∷ [])))
          (ok r)
      → StoppedAt p context (stage ∷ stages) results r
  StoppedAt-here ph d decision q stopped e =
      let same : finish decision ph (results ++ result_of stage.name d ∷ []) ≡ r = ok_inj _ r e in
      record {
        before = [];
        stage = stage;
        after = stages;
        judged = d;
        places = refl;
        passed = tt;
        judges = q;
        recorded = ap (λ x. x.stage_results) (sym same);
        decided = stopped ∙ ap (λ x. some x.decision) same;
      }

run_stages-recorded :
    (ph : Hash) (stages : List GateStage) (p : CommitmentProposal) (results : List StageResult)
    (context : GateContext) (r : GateResult)
    → (run_stages ph stages p results context).0 ≡ ok r
    → PassedAll p context stages results r ⊎ StoppedAt p context stages results r
unfolding run_stages
run_stages-recorded ph [] p results context r e =
    let same : finish accepted ph results ≡ r = ok_inj _ r e in
    inl record {
      passed = tt;
      decided = ap (λ x. x.decision) (sym same);
      recorded = ap (λ x. x.stage_results) (sym same) ∙ sym (append-nil results);
    }
run_stages-recorded ph (stage ∷ stages) p results context r e =
    elim (Result-cases (stage.judge p context)) [
      | inr (x, q) ↦ cc (rw (run_stages, q) at e)
      | inl (pass, q) ↦
          elim (run_stages-recorded ph stages p (results ++ result_of stage.name pass ∷ [])
            (note (result_of stage.name pass) context) r (rw (run_stages, q) at e)) [
              | inl done ↦ inl (PassedAll-cons p context stage stages results r q done)
              | inr stop ↦ inr (StoppedAt-cons p context stage stages results r q stop)
            ]
      | inl (fail reason, q) ↦ inr (
          StoppedAt-here p context stage stages results r ph (fail reason) _ q refl
            (rw (run_stages, q) at e))
      | inl (defer reason after, q) ↦ inr (
          StoppedAt-here p context stage stages results r ph (defer reason after) _ q refl
            (rw (run_stages, q) at e))
    ]

-- A gate that is not permissive and gives a result either has accepted, and then every stage judged the
-- proposal a pass, in the context with the results before it, and is recorded in its order; or all
-- stages before some stage judged it a pass and that one did not: it is the last one recorded, behind
-- the passed ones, and its failure or deferral is the rejection given.
pub evaluate-recorded :
    (hash_policy : Policy → Option Hash) (gate : CommitmentGate) (p : CommitmentProposal)
    (r : GateResult)
    → gate.config.permissive ≡ false
    → evaluate hash_policy gate p ≡ ok r
    → PassedAll p (own_context gate p) gate.stages [] r
      ⊎ StoppedAt p (own_context gate p) gate.stages [] r
unfolding evaluate
evaluate-recorded hash_policy gate p r strict e =
    run_stages-recorded _ gate.stages p [] (own_context gate p) r (rw strict at e)
