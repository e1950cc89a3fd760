-- ===== src/Workflow.antt =====
-- python/strategy_gpt/workflow.py: the graph of the hypothesis loop. The language model, the
-- validators, the optimizer and the critics are arguments that may change the outside world `W`.
pub mod Steps
pub mod Trials
pub mod Graph
pub mod Invariant
pub mod Stages
pub mod Vetted
pub mod Pass
pub mod Loop
pub mod Run
mod Examples
use strategy_gpt.Prelude.{
  ℕ, ◌+◌, ◌*◌, String, Bool, true, false, Option, none, some, List, [], ◌∷◌, ◌++◌, ltb,
  if◌then◌else◌, length, get_last?,
}
use strategy_gpt.Prelude.Int.{ℤ, pos, sub_ℕ}
use strategy_gpt.Prelude.Floats.{Float}
use strategy_gpt.Prelude.Result.{
  Error, Result, ok, raise, value_error, type_error, key_error, index_error, runtime_error,
  not_implemented, attribute_error, os_error, overflow_error,
}
use strategy_gpt.Json.{Json, Fields, null, boolean, number, string, array, object, get}
use strategy_gpt.RejectTaxonomy.{RejectKind, of_value}
use strategy_gpt.Repair.{
  Text, codes, ValidationOutcome, StageRepairResult, RepairConfig, run_stage_with_repair,
}
use strategy_gpt.MechanicalGate.{MechanicalGateOutcome, Rationale, default_config, mechanical_gate}
use strategy_gpt.HypothesisLoop.{
  KbCitation, HypothesisCandidate, AcceptedHypothesis, RejectedHypothesis, TerminationReason,
  PriorDecision,
}
use strategy_gpt.Nodes.{HypothesisLoopConfig}

-- What the stages parse to, by the fields that the workflow reads.
pub record Stage1Idea (F : Type 0) : Type 0 where
  pub candidate_name : String
  pub expected_lift_confidence : F
  pub sections : Json

pub record Stage2Commitments : Type 0 where
  pub falsification : Fields
  pub param_intent : Fields

pub record Stage3Build : Type 0 where
  pub files : Json
  pub library_path : Option String

pub record StagePrompt : Type 0 where
  pub system : Text
  pub user : Text

-- A pydantic model of the parameters, and its dump.
pub record ParamIntent : Type 0 where
  pub added : List Json
  pub removed : List Json
  pub model_dump : Json

pub record AttemptResult (F : Type 0) : Type 0 where
  pub per_fold_best_scores : List F
  pub baseline_per_fold_scores : List F
  pub aggregate_score : F
  pub baseline_aggregate_score : F
  pub side_effect_flags : List String

pub record VerdictDecision : Type 0 where
  pub accept : Bool
  pub rationale : String

-- The texts of `candidate_reject_rationale`, by what is put into them.
pub data RejectReason (F : Type 0) : Type 0 where
  no_reason : RejectReason F
  stage1_text : Text → RejectReason F
  stage_text : Text → RejectReason F
  critique_text : String → RejectReason F
  budget_text : ℕ → ℤ → RejectReason F
  construction_text : Error → RejectReason F
  gate_text : Rationale F → RejectReason F

-- A key that is absent and one that holds `None` are both `none`.
pub record HypothesizeState (F : Type 0) : Type 0 where
  pub strategy : String
  pub baseline_result : Json
  pub diagnosis : Option Json
  pub kb_cites : List KbCitation
  pub prior_decisions : List PriorDecision
  pub accepted : List (AcceptedHypothesis F)
  pub rejected : List (RejectedHypothesis F)
  pub intra_run_history : List (HypothesisCandidate F)
  pub iteration : ℕ
  pub backtests_consumed : ℕ
  pub termination_reason : TerminationReason
  pub max_backtests : Option ℕ
  pub stage1_response : Text
  pub stage1_idea : Option (Stage1Idea F)
  pub stage2_response : Text
  pub stage2_parsed : Option Stage2Commitments
  pub stage3_response : Text
  pub stage3_parsed : Option Json
  pub candidate_library_path : Option String
  pub candidate_reject_kind : Option RejectKind
  pub candidate_reject_rationale : RejectReason F
  pub candidate_attempt_result : Option (AttemptResult F)
  pub gate_outcome : Option (MechanicalGateOutcome F)
  pub verdict_decision : Option VerdictDecision

pub record NodeClients (F W : Type 0) : Type 0 where
  pub diagnose : Json → Result Json
  pub kb_query :
      Option Json → List KbCitation → List PriorDecision → W → Result (List KbCitation) × W
  pub kb_filter : Option Json → List KbCitation → List PriorDecision → List KbCitation
  -- The prompts of the three stages.
  pub build_stage1_prompt : HypothesizeState F → StagePrompt
  pub build_stage2_prompt : Stage1Idea F → HypothesizeState F → StagePrompt
  pub build_stage3_prompt : Stage2Commitments → HypothesizeState F → StagePrompt
  pub emit_stage : StagePrompt → ℕ → String → W → Text × W
  pub validate_stage1 : Text → W → ValidationOutcome (Stage1Idea F) × W
  pub validate_stage2 : Text → W → ValidationOutcome Stage2Commitments × W
  pub validate_stage3 : Stage2Commitments → Text → W → ValidationOutcome Stage3Build × W
  -- The rationale of a rejection.
  pub cheap_critique : Stage1Idea F → List PriorDecision → Option Json → Option String
  pub build_falsification : Stage2Commitments → Result Json
  pub build_param_intent : Stage2Commitments → Result ParamIntent
  -- Makes the evaluator of a library, which `attempt_with_optimize` then uses.
  pub evaluate_fold_factory : String → W → Result (Unit {0}) × W
  -- With the library of the candidate, or the baseline's evaluator.
  pub attempt_with_optimize :
      Option String → ParamIntent → Json → (folds trials : ℕ) → W → Result (AttemptResult F) × W
  pub critique_verdict :
      Stage1Idea F
      → AttemptResult F
      → MechanicalGateOutcome F
      → (delta_params : ℤ) → W
      → VerdictDecision × W
  -- The time stamps of entries.
  pub utcnow : W → ℕ × W
  pub has_evaluate_fold_factory : Bool
  pub baseline_per_fold_scores : List F
  pub repair_config : RepairConfig
  -- Texts and dumps.
  pub render : RejectReason F → String
  pub evidence_of : Option (AttemptResult F) → Option (MechanicalGateOutcome F) → Json

-- The next call, unless one has raised.
unfoldable pub and_then : {A B W : Type 0} → Result A × W → (A → W → Result B × W) → Result B × W
and_then (ok a, w) next = next a w
and_then (raise e, w) next = (raise e, w)

abbrev pub or_text : Text → Text → Text
or_text [] other = other
or_text (c ∷ cs) other = c ∷ cs

-- `getattr(cfg, "mini_optimize_trials", 64)`: the configuration has no such field.
abbrev pub mini_optimize_trials : ℕ
mini_optimize_trials = 64

-- `parsed, response, kind, last_feedback`
pub record StageAnswer (P : Type 0) : Type 0 where
  pub parsed : Option P
  pub response : Text
  pub kind : RejectKind
  pub last_feedback : Text

-- `RejectKind(s)`, or the exhausted budget for a string that is no kind.
abbrev pub kind_or_exhausted_budget : Option RejectKind → RejectKind
kind_or_exhausted_budget none = RejectKind.exhausted_repair_budget
kind_or_exhausted_budget (some kind) = kind

abbrev pub stage_answer : {P : Type 0} → Result (StageRepairResult P) → Result (StageAnswer P)
stage_answer (raise e) = raise e
stage_answer (ok outcome) =
    if outcome.accepted
    then ok (record {
      parsed = outcome.final_parsed;
      response = outcome.final_response;
      kind = RejectKind.ok;
      last_feedback = [];
    })
    else ok (record {
      parsed = none;
      response = outcome.final_response;
      kind = kind_or_exhausted_budget (of_value outcome.final_reject_kind);
      last_feedback = elim (get_last? outcome.attempts) [
        | none ↦ []
        | some last ↦ last.outcome.feedback
      ];
    })

-- `kind is RejectKind.OK`
abbrev pub is_ok : RejectKind → Bool
is_ok RejectKind.ok = true
is_ok kind = false

-- The prompt of a retry carries the feedback.
abbrev pub retry_prompt : StagePrompt → Text → StagePrompt
retry_prompt prompt [] = prompt
retry_prompt prompt (c ∷ cs) = record {
  system = prompt.system;
  user = prompt.user ++ (10 ∷ 10 ∷ (codes "---" ++ (10 ∷ 10 ∷ c ∷ cs)));
}

-- `falsification["primary"]["metric"]`
abbrev pub metric_of : Option Json → Result String
metric_of none = raise key_error
metric_of (some (string s)) = ok s
metric_of (some null) = raise value_error
metric_of (some (boolean b)) = raise value_error
metric_of (some (number s)) = raise value_error
metric_of (some (array items)) = raise value_error
metric_of (some (object fields)) = raise value_error

abbrev pub primary_metric : Option Json → Result String
primary_metric none = raise key_error
primary_metric (some (object primary)) = metric_of (get "metric" primary)
primary_metric (some null) = raise type_error
primary_metric (some (boolean b)) = raise type_error
primary_metric (some (number s)) = raise type_error
primary_metric (some (string s)) = raise type_error
primary_metric (some (array items)) = raise type_error

-- `except (ValueError, TypeError, KeyError)`
abbrev pub is_caught : Error → Bool
is_caught value_error = true
is_caught type_error = true
is_caught key_error = true
is_caught index_error = false
is_caught runtime_error = false
is_caught not_implemented = false
is_caught attribute_error = false
is_caught os_error = false
is_caught overflow_error = false
