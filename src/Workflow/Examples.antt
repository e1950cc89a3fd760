-- ===== src/Workflow/Examples.antt =====
-- Tests of the workflow, and its theorems with a model whose candidates gain four on every fold.
use strategy_gpt.Workflow.{
  and_then, HypothesizeState, NodeClients, AttemptResult, Stage1Idea, Stage2Commitments,
  Stage3Build, no_reason,
}
use strategy_gpt.Workflow.Steps.{
  generate_stage1_step, cheap_critique_step, generate_stage2_step, generate_stage3_step,
}
use strategy_gpt.Workflow.Trials.{mini_optimize_step, mechanical_gate_step, verdict_critique_step}
use strategy_gpt.Workflow.Graph.{rank_step, candidate_pass, run_workflow}
use strategy_gpt.Repair.{run_stage_with_repair, ValidationOutcome}
use strategy_gpt.MechanicalGate.{mechanical_gate}
use strategy_gpt.Prelude.Sorting.{sorted_desc}
use strategy_gpt.RejectTaxonomy.{of_value}
use strategy_gpt.Prelude.{
  ℕ, ◌+◌, ◌≡◌, ◌⊎◌, refl, true, false, none, some, List, [], ◌∷◌, arith, length,
}
use strategy_gpt.Prelude.Int.{ℤ, pos}
use strategy_gpt.Prelude.Result.{Result, Error, ok, raise}
use strategy_gpt.Prelude.Samples.{whole, whole-IsOrdered, whole_arith}
use strategy_gpt.Json.{null, string, object, field, end, get}
use strategy_gpt.HypothesisLoop.{running}
use strategy_gpt.Nodes.{HypothesisLoopConfig}
use strategy_gpt.Workflow.Pass.{IsCommitted, candidate_pass_lem}
use strategy_gpt.Workflow.Loop.{IsSelected}
use strategy_gpt.Workflow.Run.{run_workflow-IsSelected}

abbrev valid : {P : Type 0} → P → ValidationOutcome P
valid p = record { accepts = true; kind = "ok"; feedback = []; parsed = some p }

abbrev idea : Stage1Idea ℤ
idea = record { candidate_name = "wider stop"; expected_lift_confidence = pos 1; sections = null }

abbrev commitments : Stage2Commitments
commitments = record {
  falsification = field "primary" (object (field "metric" (string "sharpe") end)) end;
  param_intent = end;
}

abbrev build : Stage3Build
build = record { files = object end; library_path = some "libcandidate.so" }

abbrev attempt : AttemptResult ℤ
attempt = record {
  per_fold_best_scores = pos 5 ∷ pos 5 ∷ [];
  baseline_per_fold_scores = pos 1 ∷ pos 1 ∷ [];
  aggregate_score = pos 5;
  baseline_aggregate_score = pos 1;
  side_effect_flags = [];
}

-- The world counts the calls of the model.
abbrev clients : NodeClients ℤ ℕ
clients = record {
  diagnose = λ result. ok result;
  kb_query = λ d cites priors w. (ok cites, w);
  kb_filter = λ d cites priors. cites;
  build_stage1_prompt = λ s. record { system = []; user = [] };
  build_stage2_prompt = λ i s. record { system = []; user = [] };
  build_stage3_prompt = λ c s. record { system = []; user = [] };
  emit_stage = λ prompt stage model w. (stage ∷ [], w + 1);
  validate_stage1 = λ text w. (valid idea, w);
  validate_stage2 = λ text w. (valid commitments, w);
  validate_stage3 = λ c text w. (valid build, w);
  cheap_critique = λ i priors d. none;
  build_falsification = λ c. ok null;
  build_param_intent = λ c. ok (record { added = []; removed = []; model_dump = object end });
  evaluate_fold_factory = λ library w. (ok tt, w);
  attempt_with_optimize = λ library intent fal folds trials w. (ok attempt, w);
  critique_verdict = λ i a g n w. (record { accept = true; rationale = "a real gain" }, w);
  utcnow = λ w. (7, w);
  has_evaluate_fold_factory = true;
  baseline_per_fold_scores = pos 1 ∷ pos 1 ∷ [];
  repair_config = record { k_repair = pos 2 };
  render = λ r. "rejected";
  evidence_of = λ a g. null;
}

abbrev config : HypothesisLoopConfig ℤ
config = record {
  reasoning_model = "model";
  iteration_budget = pos 4;
  target_candidates = pos 2;
  similarity_threshold = pos 1;
}

-- The limit pays for one candidate: 64 trials on two folds.
abbrev initial : HypothesizeState ℤ
initial = record {
  strategy = "buy-hold";
  baseline_result = null;
  diagnosis = none;
  kb_cites = [];
  prior_decisions = [];
  accepted = [];
  rejected = [];
  intra_run_history = [];
  iteration = 0;
  backtests_consumed = 0;
  termination_reason = running;
  max_backtests = some 200;
  stage1_response = [];
  stage1_idea = none;
  stage2_response = [];
  stage2_parsed = none;
  stage3_response = [];
  stage3_parsed = none;
  candidate_library_path = none;
  candidate_reject_kind = none;
  candidate_reject_rationale = no_reason;
  candidate_attempt_result = none;
  gate_outcome = none;
  verdict_decision = none;
}

candidate_pass_lem_example :
    ((e : Error) × ((candidate_pass whole clients config initial 0).0 ≡ raise e))
    ⊎ ((s : HypothesizeState ℤ) × ((candidate_pass whole clients config initial 0).0 ≡ ok s)
        × IsCommitted whole clients config initial s)
candidate_pass_lem_example = candidate_pass_lem whole clients config initial 0 (omega arith)

run_workflow-IsSelected_example :
    ((e : Error) × (w : ℕ) × (run_workflow whole clients config true initial 0 ≡ some (raise e, w)))
    ⊎ ((s : HypothesizeState ℤ) × (w : ℕ) × (run_workflow whole clients config true initial 0
          ≡ some (ok s, w))
        × IsSelected whole whole-IsOrdered clients config 2 refl 0 (some 200) s)
run_workflow-IsSelected_example =
    run_workflow-IsSelected whole whole-IsOrdered clients config 2 refl true initial 0 refl
      (omega arith)

-- How many entries are accepted and rejected, and the iterations and the backtests.
abbrev counts : Result (HypothesizeState ℤ) × ℕ → List ℕ
counts (ok s, w) =
    length s.accepted ∷ length s.rejected ∷ s.iteration ∷ s.backtests_consumed ∷ w ∷ []
counts (raise e, w) = []

-- A model whose first stage is never accepted.
abbrev poor_clients : NodeClients ℤ ℕ
poor_clients = record clients {
  validate_stage1 = λ text w.
      (record { accepts = false; kind = "reject_format"; feedback = []; parsed = none }, w);
}

-- Three attempts, and no entry for them.
poor_pass : counts (candidate_pass whole poor_clients config initial 0) ≡ 0 ∷ 0 ∷ 1 ∷ 0 ∷ 3 ∷ []
unfolding candidate_pass and_then generate_stage1_step cheap_critique_step generate_stage2_step
    generate_stage3_step mini_optimize_step mechanical_gate_step verdict_critique_step rank_step
    run_stage_with_repair mechanical_gate sorted_desc get of_value whole_arith
poor_pass = refl
