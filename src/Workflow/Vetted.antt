-- ===== src/Workflow/Vetted.antt =====
-- The gate and the critic: what a candidate has passed that is still open after them.
use strategy_gpt.Prelude.{◌≡◌, inl, inr, refl, Option, none, some, Bool-cases, arith}
use strategy_gpt.Prelude.Floats.{Float}
use strategy_gpt.Prelude.Result.{ok, Result-cases}
use strategy_gpt.RejectTaxonomy.{RejectKind}
use strategy_gpt.MechanicalGate.Verdict.{reject_kind-mechanical_gate}
use strategy_gpt.MechanicalGate.{MechanicalGateOutcome, default_config, mechanical_gate}
use strategy_gpt.Nodes.{HypothesisLoopConfig}
use strategy_gpt.Workflow.{
  HypothesizeState, NodeClients, AttemptResult, Stage1Idea, Stage2Commitments, VerdictDecision,
  and_then,
}
use strategy_gpt.Workflow.Trials.{
  mechanical_gate_step, verdict_critique_step, after_gate, gate_node, after_verdict, verdict_of,
  verdict_node,
}
use strategy_gpt.Workflow.Invariant.{
  Holds, and_then-any, Vetting, Inv, Open, Tried, Gated, unless_rejected-Holds, is_ok-false,
}

module _ {F W : Type 0} (f : Float F) (clients : NodeClients F W)
    (cfg : HypothesisLoopConfig F) where
  module _ (s₀ : HypothesizeState F) where
    after_gate-Gated :
        (s : HypothesizeState F) (a : AttemptResult F) (g : MechanicalGateOutcome F)
        → Inv f clients cfg s₀ s
        → Open f clients cfg s₀ s
        → s.candidate_attempt_result ≡ some a
        → mechanical_gate f a.per_fold_best_scores a.baseline_per_fold_scores
            (some (default_config f))
          ≡ ok g
        → Gated f clients cfg s₀ (after_gate f clients cfg s g)
    after_gate-Gated s a g i o e m = elim (Bool-cases g.accept) [
      | inl b ↦ simp (b, after_gate) (i, inr (o, (a, g, e, refl, (m, b))))
      | inr b ↦
          rw (b, after_gate)
            (i, inl (g.reject_kind, refl, reject_kind-mechanical_gate f _ _ _ g m b))
    ]

    gate_node-Gated :
        (s : HypothesizeState F) (w : W) (a : AttemptResult F)
        → Inv f clients cfg s₀ s
        → Open f clients cfg s₀ s
        → s.candidate_attempt_result ≡ some a
        → Holds (Gated f clients cfg s₀) (gate_node f clients cfg s w)
    unfolding and_then
    gate_node-Gated s w a i o e =
        elim (Result-cases (
          mechanical_gate f a.per_fold_best_scores a.baseline_per_fold_scores
            (some (default_config f)))) [
              | inl (g, m) ↦ rw (e, m, gate_node) (after_gate-Gated s a g i o e m)
              | inr (x, m) ↦ rw (e, m, gate_node) tt
            ]

    pub gate-Gated :
        (s : HypothesizeState F) (w : W)
        → Tried f clients cfg s₀ s
        → Holds (Gated f clients cfg s₀) (mechanical_gate_step f clients cfg s w)
    unfolding mechanical_gate_step
    gate-Gated s w (i, inl (k, r, n)) =
        unless_rejected-Holds f clients cfg s₀ (Gated f clients cfg s₀) (gate_node f clients cfg) s
          w (λ r'. (i, inl r')) (λ o. absurd (ground (arith, r))) (inr (k, r, n))
    gate-Gated s w (i, inr (o, (a, e))) =
        unless_rejected-Holds f clients cfg s₀ (Gated f clients cfg s₀) (gate_node f clients cfg) s
          w (λ r'. (i, inl r')) (λ o'. gate_node-Gated s w a i o e) (inl o)

    verdict_node-Gated :
        (s : HypothesizeState F) (w : W) (a : AttemptResult F) (g : MechanicalGateOutcome F)
        → Inv f clients cfg s₀ s
        → Open f clients cfg s₀ s
        → s.candidate_attempt_result ≡ some a
        → s.gate_outcome ≡ some g
        → Vetting f clients cfg a g
        → Holds (Gated f clients cfg s₀) (verdict_node f clients cfg s w)
    verdict_node-Gated s w a g i o e h (m, b) =
        simp (h, e, b, verdict_node) (asked s.stage1_idea s.stage2_parsed)
      where
        judged : (d : VerdictDecision) → Gated f clients cfg s₀ (after_verdict f clients cfg s d)
        judged d = elim (Bool-cases d.accept) [
          | inl c ↦ simp (c, after_verdict) (i, inr (o, (a, g, e, h, (m, b))))
          | inr c ↦
              rw (c, after_verdict) (i, inl (RejectKind.reject_verdict, refl, is_ok-false _ refl))
        ]

        asked :
            (idea : Option (Stage1Idea F)) (stage2 : Option Stage2Commitments)
            → Holds (Gated f clients cfg s₀) (verdict_of f clients cfg idea stage2 a g s w)
        asked (some idea) (some stage2) =
            and_then-any (Gated f clients cfg s₀) _ _ (λ intent w₁. judged _)
        asked (some idea) none = tt
        asked none stage2 = tt

    pub verdict-Gated :
        (s : HypothesizeState F) (w : W)
        → Gated f clients cfg s₀ s
        → Holds (Gated f clients cfg s₀) (verdict_critique_step f clients cfg s w)
    unfolding verdict_critique_step
    verdict-Gated s w (i, inl (k, r, n)) =
        unless_rejected-Holds f clients cfg s₀ (Gated f clients cfg s₀) (verdict_node f clients cfg)
          s w (λ r'. (i, inl r')) (λ o. absurd (ground (arith, r))) (inr (k, r, n))
    verdict-Gated s w (i, inr (o, (a, g, e, h, v))) =
        unless_rejected-Holds f clients cfg s₀ (Gated f clients cfg s₀) (verdict_node f clients cfg)
          s w (λ r'. (i, inl r')) (λ o'. verdict_node-Gated s w a g i o e h v) (inl o)
