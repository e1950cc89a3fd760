-- ===== src/Workflow/Steps.antt =====
-- python/strategy_gpt/workflow.py: the nodes from the diagnosis to the third stage.
use strategy_gpt.Prelude.{ℕ, String, Option, none, some, if◌then◌else◌}
use strategy_gpt.Prelude.Floats.{Float}
use strategy_gpt.Prelude.Result.{Result, ok, raise, attribute_error}
use strategy_gpt.Json.{Json}
use strategy_gpt.RejectTaxonomy.{RejectKind}
use strategy_gpt.Repair.{Text, codes, ValidationOutcome, run_stage_with_repair}
use strategy_gpt.Nodes.{HypothesisLoopConfig}
use strategy_gpt.Workflow.{
  HypothesizeState, NodeClients, Stage1Idea, Stage2Commitments, Stage3Build, StageAnswer,
  StagePrompt, and_then, or_text, retry_prompt, stage_answer, stage1_text, stage_text,
  critique_text, is_ok,
}

module _ {F W : Type 0} (f : Float F) (clients : NodeClients F W)
    (cfg : HypothesisLoopConfig F) where
  -- What a node leaves: the whole state with its update, or an exception.
  abbrev pub Answer : Type 0
  Answer = Result (HypothesizeState F) × W

  abbrev pub emit_with_repair :
      {P : Type 0}
      → (stage : ℕ) → StagePrompt
      → (Text → W → ValidationOutcome P × W)
      → W
      → Result (StageAnswer P) × W
  emit_with_repair stage prompt validate w =
      let (outcome, w') =
        run_stage_with_repair
          (λ feedback w₁.
            clients.emit_stage (retry_prompt prompt feedback) stage cfg.reasoning_model w₁)
          validate stage clients.repair_config w in
      (stage_answer outcome, w')

  -- A node that does nothing for a candidate that is rejected already.
  abbrev pub unless_rejected : (HypothesizeState F → W → Answer) → HypothesizeState F → W → Answer
  unless_rejected node state w = elim state.candidate_reject_kind [
    | some kind ↦ (ok state, w)
    | none ↦ node state w
  ]

  unfoldable pub diagnose_step : HypothesizeState F → W → Answer
  diagnose_step state w = elim (clients.diagnose state.baseline_result) [
    | raise e ↦ (raise e, w)
    | ok diagnosis ↦ (ok (record state { diagnosis = some diagnosis }), w)
  ]

  unfoldable pub kb_query_step : HypothesizeState F → W → Answer
  kb_query_step state w =
      and_then (clients.kb_query state.diagnosis state.kb_cites state.prior_decisions w)
        (λ cites w'. (ok (record state { kb_cites = cites }), w'))

  unfoldable pub kb_filter_step : HypothesizeState F → W → Answer
  kb_filter_step state w = (
    ok (record state {
      kb_cites = clients.kb_filter state.diagnosis state.kb_cites state.prior_decisions;
    }),
    w,
  )

  abbrev pub after_stage1 : HypothesizeState F → StageAnswer (Stage1Idea F) → HypothesizeState F
  after_stage1 state answer =
      if is_ok answer.kind
      then record state {
        stage1_response = answer.response;
        stage1_idea = answer.parsed;
        candidate_reject_kind = none;
      }
      else record state {
        candidate_reject_kind = some answer.kind;
        candidate_reject_rationale =
            stage1_text (or_text answer.last_feedback (codes "stage-1 emission failed validation"));
        stage1_response = answer.response;
      }

  unfoldable pub generate_stage1_step : HypothesizeState F → W → Answer
  generate_stage1_step state w =
      and_then (emit_with_repair 1 (clients.build_stage1_prompt state) clients.validate_stage1 w)
        (λ answer w'. (ok (after_stage1 state answer), w'))

  abbrev pub cheap_critique_node : HypothesizeState F → W → Answer
  cheap_critique_node state w = elim state.stage1_idea [
    | none ↦ (raise attribute_error, w)
    | some idea ↦ elim (clients.cheap_critique idea state.prior_decisions state.diagnosis) [
      | none ↦ (ok state, w)
      | some rationale ↦ (
        ok (record state {
          candidate_reject_kind = some RejectKind.reject_verdict;
          candidate_reject_rationale = critique_text rationale;
        }),
        w,
      )
    ]
  ]

  unfoldable pub cheap_critique_step : HypothesizeState F → W → Answer
  cheap_critique_step = unless_rejected cheap_critique_node

  abbrev pub after_stage2 : HypothesizeState F → StageAnswer Stage2Commitments → HypothesizeState F
  after_stage2 state answer =
      if is_ok answer.kind
      then record state { stage2_response = answer.response; stage2_parsed = answer.parsed }
      else record state {
        candidate_reject_kind = some answer.kind;
        candidate_reject_rationale =
            stage_text (or_text answer.last_feedback (codes "stage-2 emission failed validation"));
        stage2_response = answer.response;
      }

  abbrev pub stage2_node : HypothesizeState F → W → Answer
  stage2_node state w = elim state.stage1_idea [
    | none ↦ (raise attribute_error, w)
    | some idea ↦
        and_then
          (emit_with_repair 2 (clients.build_stage2_prompt idea state) clients.validate_stage2 w)
          (λ answer w'. (ok (after_stage2 state answer), w'))
  ]

  unfoldable pub generate_stage2_step : HypothesizeState F → W → Answer
  generate_stage2_step = unless_rejected stage2_node

  abbrev files_of : Option Stage3Build → Option Json
  files_of none = none
  files_of (some build) = some build.files

  abbrev library_of : Option Stage3Build → Option String
  library_of none = none
  library_of (some build) = build.library_path

  abbrev pub after_stage3 : HypothesizeState F → StageAnswer Stage3Build → HypothesizeState F
  after_stage3 state answer =
      if is_ok answer.kind
      then record state {
        stage3_response = answer.response;
        stage3_parsed = files_of answer.parsed;
        candidate_library_path = library_of answer.parsed;
      }
      else record state {
        candidate_reject_kind = some answer.kind;
        candidate_reject_rationale =
            stage_text (or_text answer.last_feedback (codes "stage-3 emission failed validation"));
        stage3_response = answer.response;
      }

  abbrev pub stage3_node : HypothesizeState F → W → Answer
  stage3_node state w = elim state.stage2_parsed [
    | none ↦ (raise attribute_error, w)
    | some stage2 ↦
        and_then
          (emit_with_repair 3 (clients.build_stage3_prompt stage2 state)
            (clients.validate_stage3 stage2) w)
          (λ answer w'. (ok (after_stage3 state answer), w'))
  ]

  unfoldable pub generate_stage3_step : HypothesizeState F → W → Answer
  generate_stage3_step = unless_rejected stage3_node
