-- ===== src/Workflow/Trials.antt =====
-- python/strategy_gpt/workflow.py: the nodes that optimize, gate and judge a built candidate.
use strategy_gpt.Prelude.{
  ℕ, ◌+◌, ◌*◌, String, Bool, false, Option, none, some, ltb, if◌then◌else◌, length,
}
use strategy_gpt.Prelude.Int.{ℤ, pos, sub_ℕ}
use strategy_gpt.Prelude.Floats.{Float}
use strategy_gpt.Prelude.Result.{Result, ok, raise, attribute_error}
use strategy_gpt.RejectTaxonomy.{RejectKind}
use strategy_gpt.MechanicalGate.{MechanicalGateOutcome, default_config, mechanical_gate}
use strategy_gpt.Nodes.{HypothesisLoopConfig}
use strategy_gpt.Workflow.{
  AttemptResult, HypothesizeState, NodeClients, Stage1Idea, Stage2Commitments, VerdictDecision,
  and_then, is_caught, mini_optimize_trials, critique_text, budget_text, construction_text,
  gate_text,
}
use strategy_gpt.Workflow.Steps.{Answer, unless_rejected}

module _ {F W : Type 0} (f : Float F) (clients : NodeClients F W)
    (cfg : HypothesisLoopConfig F) where
  -- The backtests that the optimization of one candidate costs.
  abbrev pub cost : ℕ
  cost = mini_optimize_trials * length clients.baseline_per_fold_scores

  -- `max_backtests is not None and consumed + cost > max_backtests`
  abbrev pub over_budget : ℕ → Option ℕ → Bool
  over_budget consumed none = false
  over_budget consumed (some limit) = ltb limit (consumed + cost)

  abbrev remaining : Option ℕ → ℕ → ℤ
  remaining none consumed = pos 0
  remaining (some limit) consumed = sub_ℕ limit consumed

  abbrev evaluator_library : HypothesizeState F → Option String
  evaluator_library state =
      if clients.has_evaluate_fold_factory then state.candidate_library_path else none

  abbrev pub make_evaluator : Option String → W → Result (Unit {0}) × W
  make_evaluator none w = (ok tt, w)
  make_evaluator (some library) w = clients.evaluate_fold_factory library w

  abbrev pub after_attempt :
      HypothesizeState F → Result (AttemptResult F) → Result (HypothesizeState F)
  after_attempt state (ok result) = ok (record state {
    candidate_attempt_result = some result;
    backtests_consumed = state.backtests_consumed + cost;
  })
  after_attempt state (raise e) =
      if is_caught e
      then ok (record state {
        candidate_reject_kind = some RejectKind.reject_schema;
        candidate_reject_rationale = construction_text e;
      })
      else raise e

  -- The optimization, once it is known to be in the budget.
  abbrev pub attempt_node : HypothesizeState F → W → Answer f clients cfg
  attempt_node state w = elim state.stage2_parsed [
    | none ↦ (raise attribute_error, w)
    | some stage2 ↦
        and_then (clients.build_falsification stage2, w)
          (λ falsification w₁.
            and_then (clients.build_param_intent stage2, w₁)
              (λ param_intent w₂. and_then (make_evaluator (evaluator_library state) w₂) (λ made w₃.
                let (result, w₄) =
                  clients.attempt_with_optimize (evaluator_library state) param_intent falsification
                    (length clients.baseline_per_fold_scores) mini_optimize_trials w₃ in
                (after_attempt state result, w₄))))
  ]

  abbrev pub mini_optimize_node : HypothesizeState F → W → Answer f clients cfg
  mini_optimize_node state w =
      let attempted = attempt_node state w in
      if over_budget state.backtests_consumed state.max_backtests
      then (
        ok (record state {
          candidate_reject_kind = some RejectKind.reject_noise;
          candidate_reject_rationale =
              budget_text cost (remaining state.max_backtests state.backtests_consumed);
        }),
        w,
      )
      else attempted

  unfoldable pub mini_optimize_step : HypothesizeState F → W → Answer f clients cfg
  mini_optimize_step = unless_rejected f clients cfg mini_optimize_node

  abbrev pub after_gate : HypothesizeState F → MechanicalGateOutcome F → HypothesizeState F
  after_gate state outcome =
      if outcome.accept then record state { gate_outcome = some outcome } else record state {
        gate_outcome = some outcome;
        candidate_reject_kind = some outcome.reject_kind;
        candidate_reject_rationale = gate_text outcome.rationale;
      }

  -- The configuration has no gate fields, so the gate runs with its defaults.
  abbrev pub gate_node : HypothesizeState F → W → Answer f clients cfg
  gate_node state w = elim state.candidate_attempt_result [
    | none ↦ (ok state, w)
    | some result ↦
        and_then
          (
            mechanical_gate f result.per_fold_best_scores result.baseline_per_fold_scores
                (some (default_config f)),
            w,
          )
          (λ outcome w'. (ok (after_gate state outcome), w'))
  ]

  unfoldable pub mechanical_gate_step : HypothesizeState F → W → Answer f clients cfg
  mechanical_gate_step = unless_rejected f clients cfg gate_node

  abbrev pub after_verdict : HypothesizeState F → VerdictDecision → HypothesizeState F
  after_verdict state decision =
      if decision.accept then record state { verdict_decision = some decision } else record state {
        verdict_decision = some decision;
        candidate_reject_kind = some RejectKind.reject_verdict;
        candidate_reject_rationale = critique_text decision.rationale;
      }

  -- The payload and the call of the critic, for a gate that accepts.
  abbrev pub verdict_of :
      Option (Stage1Idea F)
      → Option Stage2Commitments
      → AttemptResult F
      → MechanicalGateOutcome F
      → HypothesizeState F
      → W
      → Answer f clients cfg
  verdict_of (some idea) (some stage2) result gate state w =
      and_then (clients.build_param_intent stage2, w)
        (λ intent w₁.
          let (decision, w₂) =
            clients.critique_verdict idea result gate
              (sub_ℕ (length intent.added) (length intent.removed)) w₁ in
          (ok (after_verdict state decision), w₂))
  verdict_of (some idea) none result gate state w = (raise attribute_error, w)
  verdict_of none stage2 result gate state w = (raise attribute_error, w)

  abbrev pub verdict_node : HypothesizeState F → W → Answer f clients cfg
  verdict_node state w = elim state.gate_outcome [
    | none ↦ (ok state, w)
    | some gate ↦ elim state.candidate_attempt_result [
      | none ↦ (ok state, w)
      | some result ↦
          let asked = verdict_of state.stage1_idea state.stage2_parsed result gate state w in
          if gate.accept then asked else (ok state, w)
    ]
  ]

  unfoldable pub verdict_critique_step : HypothesizeState F → W → Answer f clients cfg
  verdict_critique_step = unless_rejected f clients cfg verdict_node
