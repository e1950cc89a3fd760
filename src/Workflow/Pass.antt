-- ===== src/Workflow/Pass.antt =====
-- One way round the cycle: what becomes of the candidate, and what one has passed that is accepted.
use strategy_gpt.Prelude.{
  ℕ, ◌+◌, ◌≡◌, ◌≢◌, ◌⊎◌, inl, inr, refl, ap, ◌∙◌, Option, none, some, List, [], ◌∷◌, ◌++◌, false,
  arith, Bool-cases,
}
use strategy_gpt.Prelude.Floats.{Float}
use strategy_gpt.Prelude.Result.{ok, raise, Error}
use strategy_gpt.Prelude.Sorting.{sorted_desc}
use strategy_gpt.RejectTaxonomy.{RejectKind, value}
use strategy_gpt.MechanicalGate.{MechanicalGateOutcome}
use strategy_gpt.HypothesisLoop.{HypothesisCandidate, AcceptedHypothesis, RejectedHypothesis}
use strategy_gpt.Nodes.{HypothesisLoopConfig, default_weights, ranks_below}
use strategy_gpt.Workflow.{HypothesizeState, NodeClients, AttemptResult}
use strategy_gpt.Workflow.Graph.{
  commit, finish_pass, accepted_entry, rejected_entry, rank_step, candidate_pass, is_pass,
  kind_string,
}
use strategy_gpt.Workflow.Invariant.{
  Holds, Holds-cases, and_then-Holds, and_then-any, Fits, Vetting, Gated, Tried, Judged,
}
use strategy_gpt.Workflow.Stages.{
  stage1-Judged, cheap_critique-Judged, stage2-Judged, stage3-Judged, mini_optimize-Tried,
}
use strategy_gpt.Workflow.Vetted.{gate-Gated, verdict-Gated}

module _ {F W : Type 0} (f : Float F) (clients : NodeClients F W)
    (cfg : HypothesisLoopConfig F) where
  abbrev pub ranked : List (AcceptedHypothesis F) → List (AcceptedHypothesis F)
  ranked = sorted_desc (ranks_below f (default_weights f))

  -- What became of the candidate of a pass, from the state before the pass to the one after it.
  pub data Fate (s₀ s : HypothesizeState F) : Type 0 where
    unrecorded :
        s.accepted ≡ ranked s₀.accepted
        → s.rejected ≡ s₀.rejected
        → s.intra_run_history ≡ s₀.intra_run_history
        → Fate s₀ s
    refused :
        (r : RejectedHypothesis F) (k : RejectKind)
        → k ≢ RejectKind.ok
        → r.reject_kind ≡ some (value k)
        → s.accepted ≡ ranked s₀.accepted
        → s.rejected ≡ s₀.rejected ++ r ∷ []
        → s.intra_run_history ≡ s₀.intra_run_history ++ r.candidate ∷ []
        → Fate s₀ s
    approved :
        (a : AcceptedHypothesis F) (attempt : AttemptResult F) (gate : MechanicalGateOutcome F)
        → Vetting f clients cfg attempt gate
        → a.evidence ≡ clients.evidence_of (some attempt) (some gate)
        → s.accepted ≡ ranked (s₀.accepted ++ a ∷ [])
        → s.rejected ≡ s₀.rejected
        → s.intra_run_history ≡ s₀.intra_run_history ++ a.candidate ∷ []
        → Fate s₀ s

  -- A pass has come to its end.
  pub record IsCommitted (s₀ s : HypothesizeState F) : Type 0 where
    pub iteration : s.iteration ≡ s₀.iteration + 1
    pub limit : s.max_backtests ≡ s₀.max_backtests
    pub reason : s.termination_reason ≡ s₀.termination_reason
    pub within : Fits s₀.max_backtests s.backtests_consumed
    pub cleared : s.candidate_reject_kind ≡ none
    pub fate : Fate s₀ s

  is_pass-some : (k : RejectKind) → k ≢ RejectKind.ok → is_pass (some k) ≡ false
  is_pass-some k n = ground arith

  module _ (s₀ : HypothesizeState F) where
    commit-keeps :
        (now : ℕ) (c : Option (HypothesisCandidate F)) (s : HypothesizeState F)
        → let s' = commit f clients cfg now c s in
          (s'.iteration ≡ s.iteration)
          × (s'.max_backtests ≡ s.max_backtests)
          × (s'.termination_reason ≡ s.termination_reason)
          × (s'.backtests_consumed ≡ s.backtests_consumed)
    commit-keeps now none s = (refl, refl, refl, refl)
    commit-keeps now (some c) s = elim (Bool-cases (is_pass s.candidate_reject_kind)) [
      | inl e ↦ simp (e, commit) (refl, refl, refl, refl)
      | inr e ↦ simp (e, commit) (refl, refl, refl, refl)
    ]

    commit-Fate :
        (now : ℕ) (c : Option (HypothesisCandidate F)) (s : HypothesizeState F)
        → Gated f clients cfg s₀ s
        → Fate s₀ (finish_pass f clients cfg (commit f clients cfg now c s))
    commit-Fate now none s ((a, r, h, n₀, m, q, fits), j) = unrecorded (ap ranked a) r h
    commit-Fate now (some c) s ((a, r, h, n₀, m, q, fits), inl (k, e, n)) =
        let failed = ap is_pass e ∙ is_pass-some k n in
        simp (failed, commit)
          (refused (rejected_entry f clients cfg now c s) k n (ap kind_string e) (ap ranked a)
            (ap (λ l. l ++ rejected_entry f clients cfg now c s ∷ []) r) (ap (λ l. l ++ c ∷ []) h))
    commit-Fate now (some c) s ((a, r, h, n₀, m, q, fits), inr (o, (t, g, e, d, v))) =
        let passed = ap is_pass o in
        simp (passed, commit)
          (approved (accepted_entry f clients cfg now c s) t g v
            (ap (λ x. clients.evidence_of x s.gate_outcome) e ∙ ap (clients.evidence_of (some t)) d)
            (ap (λ l. ranked (l ++ accepted_entry f clients cfg now c s ∷ [])) a) r
            (ap (λ l. l ++ c ∷ []) h))

    commit-IsCommitted :
        (now : ℕ) (c : Option (HypothesisCandidate F)) (s : HypothesizeState F)
        → Gated f clients cfg s₀ s
        → IsCommitted s₀ (finish_pass f clients cfg (commit f clients cfg now c s))
    commit-IsCommitted now c s (i, j) =
        let kept = commit-keeps now c s in
        record {
          iteration = ap (λ (n : ℕ). n + 1) (kept.0 ∙ i.3);
          limit = kept.1 ∙ i.4;
          reason = kept.2 ∙ i.5;
          within = rw kept.3 i.6;
          cleared = refl;
          fate = commit-Fate now c s (i, j);
        }

    rank-IsCommitted :
        (s : HypothesizeState F) (w : W)
        → Gated f clients cfg s₀ s
        → Holds (IsCommitted s₀) (rank_step f clients cfg s w)
    unfolding rank_step
    rank-IsCommitted s w gated =
        and_then-any (IsCommitted s₀) _ _ (λ c w₁. commit-IsCommitted _ c s gated)

    pass-IsCommitted :
        (w : W)
        → Fits s₀.max_backtests s₀.backtests_consumed
        → Holds (IsCommitted s₀) (candidate_pass f clients cfg s₀ w)
    unfolding candidate_pass
    pass-IsCommitted w fits =
        let judged = Judged f clients cfg s₀ in
        let goal = IsCommitted s₀ in
        and_then-Holds judged goal _ _
          (stage1-Judged f clients cfg s₀ s₀ w (refl, refl, refl, refl, refl, refl, fits))
          (λ s₁ j₁ w₁.
            and_then-Holds judged goal _ _ (cheap_critique-Judged f clients cfg s₀ s₁ w₁ j₁)
              (λ s₂ j₂ w₂.
                and_then-Holds judged goal _ _ (stage2-Judged f clients cfg s₀ s₂ w₂ j₂)
                  (λ s₃ j₃ w₃.
                    and_then-Holds judged goal _ _ (stage3-Judged f clients cfg s₀ s₃ w₃ j₃)
                      (λ s₄ j₄ w₄.
                        and_then-Holds (Tried f clients cfg s₀) goal _ _
                          (mini_optimize-Tried f clients cfg s₀ s₄ w₄ j₄)
                          (λ s₅ j₅ w₅.
                            and_then-Holds (Gated f clients cfg s₀) goal _ _
                              (gate-Gated f clients cfg s₀ s₅ w₅ j₅)
                              (λ s₆ j₆ w₆.
                                and_then-Holds (Gated f clients cfg s₀) goal _ _
                                  (verdict-Gated f clients cfg s₀ s₆ w₆ j₆)
                                  (λ s₇ j₇ w₇. rank-IsCommitted s₇ w₇ j₇)))))))

  -- A pass that starts within the limit on backtests either raises or ends one iteration later,
  -- still within the limit and with its candidate cleared. No earlier entry is lost. At most one
  -- entry is new: a rejected one has a kind that is not `ok`, and an accepted one has per-fold
  -- scores, part of its evidence, that the mechanical gate accepts; the accepted entries are
  -- ranked.
  pub candidate_pass_lem :
      (s₀ : HypothesizeState F) (w : W)
      → Fits s₀.max_backtests s₀.backtests_consumed
      → ((e : Error) × ((candidate_pass f clients cfg s₀ w).0 ≡ raise e))
        ⊎ ((s : HypothesizeState F) × ((candidate_pass f clients cfg s₀ w).0 ≡ ok s)
            × IsCommitted s₀ s)
  candidate_pass_lem s₀ w fits =
      Holds-cases (IsCommitted s₀) (candidate_pass f clients cfg s₀ w) (pass-IsCommitted s₀ w fits)
