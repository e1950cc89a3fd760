-- ===== src/Workflow/Graph.antt =====
-- python/strategy_gpt/workflow.py: the nodes rank and select, the conditional edge, and the graph.
use strategy_gpt.Prelude.{
  ℕ, zero, suc, ◌+◌, ◌-◌, Option, none, some, List, [], ◌∷◌, ◌++◌, Bool, true, false, leb,
  if◌then◌else◌, length, take, String,
}
use strategy_gpt.Prelude.Int.{ℤ, pos, negsuc, pos_part, leb_ℤ}
use strategy_gpt.Prelude.Floats.{Float}
use strategy_gpt.Prelude.Result.{Result, ok, raise, ◌>>=◌}
use strategy_gpt.Prelude.Sorting.{sorted_desc}
use strategy_gpt.Json.{Json, object, field, end, get}
use strategy_gpt.RejectTaxonomy.{RejectKind, value}
use strategy_gpt.HypothesisLoop.{
  HypothesisCandidate, AcceptedHypothesis, RejectedHypothesis, TerminationReason, running,
  sufficient_candidates, budget_exhausted,
}
use strategy_gpt.Nodes.{HypothesisLoopConfig, default_weights, ranks_below}
use strategy_gpt.Workflow.{
  HypothesizeState, NodeClients, Stage1Idea, Stage2Commitments, VerdictDecision, and_then,
  primary_metric, no_reason,
}
use strategy_gpt.Workflow.Steps.{
  diagnose_step, kb_query_step, kb_filter_step, generate_stage1_step, cheap_critique_step,
  generate_stage2_step, generate_stage3_step,
}
use strategy_gpt.Workflow.Trials.{mini_optimize_step, mechanical_gate_step, verdict_critique_step}

-- `candidate_reject_kind in (None, RejectKind.OK)`
abbrev pub is_pass : Option RejectKind → Bool
is_pass none = true
is_pass (some RejectKind.ok) = true
is_pass (some kind) = false

abbrev pub kind_string : Option RejectKind → Option String
kind_string none = none
kind_string (some kind) = some (value kind)

abbrev rationale_of : Option VerdictDecision → String
rationale_of none = "accepted"
rationale_of (some verdict) = verdict.rationale

-- `accepted[:target]`; a negative target counts from the end.
abbrev pub slice_to {ℓ} : {A : Type ℓ} → ℤ → List A → List A
slice_to (pos n) xs = take n xs
slice_to (negsuc n) xs = take (length xs - suc n) xs

module _ {F W : Type 0} (f : Float F) (clients : NodeClients F W)
    (cfg : HypothesisLoopConfig F) where
  abbrev pub candidate_with :
      HypothesizeState F → Stage1Idea F → String → Json → Json → HypothesisCandidate F
  candidate_with state idea metric falsification intent = record {
    name = idea.candidate_name;
    target_metric = metric;
    falsification = falsification;
    proposed_change = object (
        field "param_intent" intent (
          field "files_manifest"
            (elim state.stage3_parsed [ none ↦ object end | some files ↦ files ]) end));
    kb_cites = state.kb_cites;
    estimated_lift_confidence = idea.expected_lift_confidence;
  }

  abbrev pub candidate_of :
      HypothesizeState F
      → Option (Stage1Idea F)
      → Option Stage2Commitments
      → Result (Option (HypothesisCandidate F))
  candidate_of state none stage2 = ok none
  candidate_of state (some idea) none =
      ok (some (candidate_with state idea "sharpe" (object end) (object end)))
  candidate_of state (some idea) (some stage2) = clients.build_param_intent stage2 >>= λ intent.
      primary_metric (get "primary" stage2.falsification) >>= λ metric.
      ok (some (candidate_with state idea metric (object stage2.falsification) intent.model_dump))

  abbrev pub accepted_entry : ℕ → HypothesisCandidate F → HypothesizeState F → AcceptedHypothesis F
  accepted_entry now candidate state = record {
    candidate = candidate;
    rationale = rationale_of state.verdict_decision;
    evidence = clients.evidence_of state.candidate_attempt_result state.gate_outcome;
    accepted_at = now;
  }

  abbrev pub rejected_entry : ℕ → HypothesisCandidate F → HypothesizeState F → RejectedHypothesis F
  rejected_entry now candidate state = record {
    candidate = candidate;
    reason = clients.render state.candidate_reject_rationale;
    rejected_at = now;
    reject_kind = kind_string state.candidate_reject_kind;
  }

  -- The candidate moves to the accepted or to the rejected entries.
  abbrev pub commit : ℕ → Option (HypothesisCandidate F) → HypothesizeState F → HypothesizeState F
  commit now none state = state
  commit now (some candidate) state =
      if is_pass state.candidate_reject_kind
      then record state {
        intra_run_history = state.intra_run_history ++ candidate ∷ [];
        accepted = state.accepted ++ accepted_entry now candidate state ∷ [];
      }
      else record state {
        intra_run_history = state.intra_run_history ++ candidate ∷ [];
        rejected = state.rejected ++ rejected_entry now candidate state ∷ [];
      }

  abbrev pub finish_pass : HypothesizeState F → HypothesizeState F
  finish_pass state = record state {
    accepted = sorted_desc (ranks_below f (default_weights f)) state.accepted;
    iteration = state.iteration + 1;
    stage1_idea = none;
    stage2_parsed = none;
    stage3_parsed = none;
    candidate_library_path = none;
    candidate_attempt_result = none;
    gate_outcome = none;
    verdict_decision = none;
    candidate_reject_kind = none;
    candidate_reject_rationale = no_reason;
  }

  unfoldable pub rank_step : HypothesizeState F → W → Result (HypothesizeState F) × W
  rank_step state w =
      let (now, w') = clients.utcnow w in
      and_then (candidate_of state state.stage1_idea state.stage2_parsed, w')
        (λ candidate w₁. (ok (finish_pass (commit now candidate state)), w₁))

  abbrev pub reason_after : TerminationReason → ℕ → TerminationReason
  reason_after running count =
      if leb_ℤ cfg.target_candidates (pos count) then sufficient_candidates else budget_exhausted
  reason_after reason count = reason

  unfoldable pub select_step : HypothesizeState F → HypothesizeState F
  select_step state =
      let accepted = slice_to cfg.target_candidates state.accepted in
      record state {
        accepted = accepted;
        termination_reason = reason_after state.termination_reason (length accepted);
      }

  abbrev pub is_spent : Option ℕ → ℕ → Bool
  is_spent none consumed = false
  is_spent (some limit) consumed = leb limit consumed

  -- The reason to select, or `none` to continue.
  unfoldable pub should_continue : HypothesizeState F → Option TerminationReason
  should_continue state =
      if leb_ℤ cfg.target_candidates (pos (length state.accepted))
      then some sufficient_candidates
      else if leb_ℤ cfg.iteration_budget (pos state.iteration)
      then some budget_exhausted
      else if is_spent state.max_backtests state.backtests_consumed
      then some budget_exhausted
      else none

  -- One way round the cycle of the graph.
  unfoldable pub candidate_pass : HypothesizeState F → W → Result (HypothesizeState F) × W
  candidate_pass state w = and_then (generate_stage1_step f clients cfg state w) (λ s₁ w₁.
      and_then (cheap_critique_step f clients cfg s₁ w₁) (λ s₂ w₂.
        and_then (generate_stage2_step f clients cfg s₂ w₂) (λ s₃ w₃.
          and_then (generate_stage3_step f clients cfg s₃ w₃) (λ s₄ w₄.
            and_then (mini_optimize_step f clients cfg s₄ w₄) (λ s₅ w₅.
              and_then (mechanical_gate_step f clients cfg s₅ w₅)
                (λ s₆ w₆. and_then (verdict_critique_step f clients cfg s₆ w₆) rank_step))))))

  -- The conditional edge writes the reason into its argument. Whether LangGraph keeps the write is
  -- `keeps_writes`.
  abbrev pub written : Bool → TerminationReason → HypothesizeState F → HypothesizeState F
  written keeps_writes reason state =
      if keeps_writes then record state { termination_reason = reason } else state

  unfoldable pub after_pass :
      (keeps_writes : Bool)
      (again : HypothesizeState F → W → Option (Result (HypothesizeState F) × W))
      → Result (HypothesizeState F)
      → W
      → Option (Result (HypothesizeState F) × W)
  unfolding should_continue
  after_pass keeps_writes again (raise e) w = some (raise e, w)
  after_pass keeps_writes again (ok state) w = elim (should_continue state) [
    | some reason ↦ some (ok (select_step (written keeps_writes reason state)), w)
    | none ↦ again state w
  ]

  -- The cycle, on fuel; `none` means that the fuel ran out.
  unfoldable pub cycle :
      (keeps_writes : Bool) (fuel : ℕ)
      → HypothesizeState F
      → W
      → Option (Result (HypothesizeState F) × W)
  unfolding after_pass
  cycle keeps_writes zero state w = none
  cycle keeps_writes (suc fuel) state w =
      let (passed, w') = candidate_pass state w in
      after_pass keeps_writes (cycle keeps_writes fuel) passed w'

  abbrev pub prepare : HypothesizeState F → W → Result (HypothesizeState F) × W
  prepare state w =
      and_then (diagnose_step f clients cfg state w)
        (λ s₁ w₁. and_then (kb_query_step f clients cfg s₁ w₁) (kb_filter_step f clients cfg))

  abbrev pub start :
      (HypothesizeState F → W → Option (Result (HypothesizeState F) × W))
      → Result (HypothesizeState F) × W
      → Option (Result (HypothesizeState F) × W)
  start loop (raise e, w) = some (raise e, w)
  start loop (ok state, w) = loop state w

  -- `compile_workflow(clients).invoke(state)`, with fuel for one pass more than the budget.
  unfoldable pub run_workflow :
      (keeps_writes : Bool) → HypothesizeState F → W → Option (Result (HypothesizeState F) × W)
  unfolding cycle
  run_workflow keeps_writes state w =
      start (cycle keeps_writes (suc (pos_part cfg.iteration_budget))) (prepare state w)
