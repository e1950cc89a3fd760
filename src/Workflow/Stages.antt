-- ===== src/Workflow/Stages.antt =====
-- The stages and the optimization keep the committed entries and the budget.
use strategy_gpt.Prelude.{◌≡◌, inl, inr, refl, none, false, Bool-cases, Option-cases}
use strategy_gpt.Prelude.Floats.{Float}
use strategy_gpt.Prelude.Result.{Result, ok, raise}
use strategy_gpt.RejectTaxonomy.{RejectKind}
use strategy_gpt.Nodes.{HypothesisLoopConfig}
use strategy_gpt.Workflow.{
  HypothesizeState, NodeClients, AttemptResult, Stage1Idea, Stage2Commitments, StageAnswer,
  Stage3Build, is_ok, is_caught,
}
use strategy_gpt.Workflow.Steps.{
  generate_stage1_step, cheap_critique_step, generate_stage2_step, generate_stage3_step,
  after_stage1, cheap_critique_node, after_stage2, stage2_node, after_stage3, stage3_node,
}
use strategy_gpt.Workflow.Trials.{
  mini_optimize_step, over_budget, after_attempt, attempt_node, mini_optimize_node,
}
use strategy_gpt.Workflow.Invariant.{
  Holds, and_then-any, is_ok-false, Inv, Open, Judged, Tried, unless_rejected-Holds,
  over_budget-Fits,
}

module _ {F W : Type 0} (f : Float F) (clients : NodeClients F W)
    (cfg : HypothesisLoopConfig F) where
  module _ (s₀ : HypothesizeState F) where
    after_stage1-Judged :
        (s : HypothesizeState F) (answer : StageAnswer (Stage1Idea F))
        → Inv f clients cfg s₀ s
        → Judged f clients cfg s₀ (after_stage1 f clients cfg s answer)
    after_stage1-Judged s answer i = elim (Bool-cases (is_ok answer.kind)) [
      | inl e ↦ rw (e, after_stage1) (i, inl refl)
      | inr e ↦ rw (e, after_stage1) (i, inr (answer.kind, refl, is_ok-false answer.kind e))
    ]

    pub stage1-Judged :
        (s : HypothesizeState F) (w : W)
        → Inv f clients cfg s₀ s
        → Holds (Judged f clients cfg s₀) (generate_stage1_step f clients cfg s w)
    unfolding generate_stage1_step
    stage1-Judged s w i =
        and_then-any (Judged f clients cfg s₀) _ _ (λ answer w'. after_stage1-Judged s answer i)

    pub cheap_critique-Judged :
        (s : HypothesizeState F) (w : W)
        → Judged f clients cfg s₀ s
        → Holds (Judged f clients cfg s₀) (cheap_critique_step f clients cfg s w)
    unfolding cheap_critique_step
    cheap_critique-Judged s w (i, j) =
        unless_rejected-Holds f clients cfg s₀ (Judged f clients cfg s₀)
          (cheap_critique_node f clients cfg) s w (λ r. (i, inr r)) (λ e. node e) j
      where
        node :
            s.candidate_reject_kind ≡ none
            → Holds (Judged f clients cfg s₀) (cheap_critique_node f clients cfg s w)
        node e = elim (Option-cases s.stage1_idea) [
          | inl h ↦ rw (h, cheap_critique_node) tt
          | inr (idea, h) ↦
              elim (Option-cases (clients.cheap_critique idea s.prior_decisions s.diagnosis)) [
                | inl g ↦ rw (h, g, cheap_critique_node) (i, inl e)
                | inr (rationale, g) ↦
                    rw (h, g, cheap_critique_node)
                      (i, inr (RejectKind.reject_verdict, refl, is_ok-false _ refl))
              ]
        ]

    after_stage2-Judged :
        (s : HypothesizeState F) (answer : StageAnswer Stage2Commitments)
        → Inv f clients cfg s₀ s
        → Open f clients cfg s₀ s
        → Judged f clients cfg s₀ (after_stage2 f clients cfg s answer)
    after_stage2-Judged s answer i o = elim (Bool-cases (is_ok answer.kind)) [
      | inl e ↦ rw (e, after_stage2) (i, inl o)
      | inr e ↦ rw (e, after_stage2) (i, inr (answer.kind, refl, is_ok-false answer.kind e))
    ]

    pub stage2-Judged :
        (s : HypothesizeState F) (w : W)
        → Judged f clients cfg s₀ s
        → Holds (Judged f clients cfg s₀) (generate_stage2_step f clients cfg s w)
    unfolding generate_stage2_step
    stage2-Judged s w (i, j) =
        unless_rejected-Holds f clients cfg s₀ (Judged f clients cfg s₀) (stage2_node f clients cfg)
          s w (λ r. (i, inr r)) (λ o. node o) j
      where
        node :
            s.candidate_reject_kind ≡ none
            → Holds (Judged f clients cfg s₀) (stage2_node f clients cfg s w)
        node o = elim (Option-cases s.stage1_idea) [
          | inl h ↦ rw (h, stage2_node) tt
          | inr (idea, h) ↦
              rw (h, stage2_node)
                (and_then-any (Judged f clients cfg s₀) _ _
                  (λ answer w'. after_stage2-Judged s answer i o))
        ]

    after_stage3-Judged :
        (s : HypothesizeState F) (answer : StageAnswer Stage3Build)
        → Inv f clients cfg s₀ s
        → Open f clients cfg s₀ s
        → Judged f clients cfg s₀ (after_stage3 f clients cfg s answer)
    after_stage3-Judged s answer i o = elim (Bool-cases (is_ok answer.kind)) [
      | inl e ↦ rw (e, after_stage3) (i, inl o)
      | inr e ↦ rw (e, after_stage3) (i, inr (answer.kind, refl, is_ok-false answer.kind e))
    ]

    pub stage3-Judged :
        (s : HypothesizeState F) (w : W)
        → Judged f clients cfg s₀ s
        → Holds (Judged f clients cfg s₀) (generate_stage3_step f clients cfg s w)
    unfolding generate_stage3_step
    stage3-Judged s w (i, j) =
        unless_rejected-Holds f clients cfg s₀ (Judged f clients cfg s₀) (stage3_node f clients cfg)
          s w (λ r. (i, inr r)) (λ o. node o) j
      where
        node :
            s.candidate_reject_kind ≡ none
            → Holds (Judged f clients cfg s₀) (stage3_node f clients cfg s w)
        node o = elim (Option-cases s.stage2_parsed) [
          | inl h ↦ rw (h, stage3_node) tt
          | inr (stage2, h) ↦
              rw (h, stage3_node)
                (and_then-any (Judged f clients cfg s₀) _ _
                  (λ answer w'. after_stage3-Judged s answer i o))
        ]

    -- The optimization in the budget.
    after_attempt-Tried :
        (s : HypothesizeState F) (result : Result (AttemptResult F)) (w : W)
        → Inv f clients cfg s₀ s
        → Open f clients cfg s₀ s
        → over_budget f clients cfg s.backtests_consumed s.max_backtests ≡ false
        → Holds (Tried f clients cfg s₀) (after_attempt f clients cfg s result, w)
    after_attempt-Tried s (ok result) w (a, r, h, n, m, t, fits) o within = (
      (
        a,
        r,
        h,
        n,
        m,
        t,
        over_budget-Fits f clients cfg s.backtests_consumed s₀.max_backtests (rw m at within),
      ),
      inr (o, (result, refl)),
    )
    after_attempt-Tried s (raise e) w i o within = elim (Bool-cases (is_caught e)) [
      | inl c ↦ rw (c, after_attempt) (i, inl (RejectKind.reject_schema, refl, is_ok-false _ refl))
      | inr c ↦ rw (c, after_attempt) tt
    ]

    attempt_node-Tried :
        (s : HypothesizeState F) (w : W)
        → Inv f clients cfg s₀ s
        → Open f clients cfg s₀ s
        → over_budget f clients cfg s.backtests_consumed s.max_backtests ≡ false
        → Holds (Tried f clients cfg s₀) (attempt_node f clients cfg s w)
    attempt_node-Tried s w i o within = elim (Option-cases s.stage2_parsed) [
      | inl h ↦ rw (h, attempt_node) tt
      | inr (stage2, h) ↦
          rw (h, attempt_node)
            (and_then-any (Tried f clients cfg s₀) _ _ (λ falsification w₁.
              and_then-any (Tried f clients cfg s₀) _ _ (λ intent w₂.
                and_then-any (Tried f clients cfg s₀) _ _
                  (λ made w₃. after_attempt-Tried s _ _ i o within))))
    ]

    pub mini_optimize-Tried :
        (s : HypothesizeState F) (w : W)
        → Judged f clients cfg s₀ s
        → Holds (Tried f clients cfg s₀) (mini_optimize_step f clients cfg s w)
    unfolding mini_optimize_step
    mini_optimize-Tried s w (i, j) =
        unless_rejected-Holds f clients cfg s₀ (Tried f clients cfg s₀)
          (mini_optimize_node f clients cfg) s w (λ r. (i, inl r)) (λ o. node o) j
      where
        node :
            s.candidate_reject_kind ≡ none
            → Holds (Tried f clients cfg s₀) (mini_optimize_node f clients cfg s w)
        node o =
            elim (Bool-cases (over_budget f clients cfg s.backtests_consumed s.max_backtests)) [
              | inl e ↦
                  rw (e, mini_optimize_node)
                    (i, inl (RejectKind.reject_noise, refl, is_ok-false _ refl))
              | inr e ↦ rw (e, mini_optimize_node) (attempt_node-Tried s w i o e)
            ]
