-- ===== src/Workflow/Invariant.antt =====
-- What the nodes before the gate do to the committed entries, the candidate and the budget.
use strategy_gpt.Prelude.{
  ℕ, ◌+◌, ◌≤◌, ◌≡◌, ◌≢◌, ◌⊎◌, inl, inr, refl, Option, none, some, true, false, arith,
}
use strategy_gpt.Prelude.Floats.{Float}
use strategy_gpt.Prelude.Result.{Result, ok, raise, Error}
use strategy_gpt.RejectTaxonomy.{RejectKind}
use strategy_gpt.MechanicalGate.{MechanicalGateOutcome, default_config, mechanical_gate}
use strategy_gpt.Nodes.{HypothesisLoopConfig}
use strategy_gpt.Workflow.{HypothesizeState, NodeClients, AttemptResult, and_then, is_ok}
use strategy_gpt.Workflow.Steps.{Answer, unless_rejected}
use strategy_gpt.Workflow.Trials.{over_budget, cost}

-- What a call leaves, unless it raises.
abbrev pub Holds : {A W : Type 0} → (A → Type 0) → Result A × W → Type 0
Holds P (ok a, w) = P a
Holds P (raise e, w) = Unit

pub and_then-Holds :
    {A B W : Type 0} (P : A → Type 0) (Q : B → Type 0) (out : Result A × W)
    (next : A → W → Result B × W)
    → Holds P out
    → ((a : A) → P a → (w : W) → Holds Q (next a w))
    → Holds Q (and_then out next)
unfolding and_then
and_then-Holds P Q (ok a, w) next h step = step a h w
and_then-Holds P Q (raise e, w) next h step = tt

pub and_then-any :
    {A B W : Type 0} (Q : B → Type 0) (out : Result A × W) (next : A → W → Result B × W)
    → ((a : A) (w : W) → Holds Q (next a w))
    → Holds Q (and_then out next)
unfolding and_then
and_then-any Q (ok a, w) next step = step a w
and_then-any Q (raise e, w) next step = tt

pub Holds-cases :
    {A W : Type 0} (P : A → Type 0) (out : Result A × W)
    → Holds P out
    → ((e : Error) × (out.0 ≡ raise e)) ⊎ ((a : A) × (out.0 ≡ ok a) × P a)
Holds-cases P (ok a, w) h = inr (a, refl, h)
Holds-cases P (raise e, w) h = inl (e, refl)

-- A count of backtests within the limit, where there is one.
abbrev pub Fits : Option ℕ → ℕ → Type 0
Fits none consumed = Unit
Fits (some limit) consumed = consumed ≤ limit

pub is_ok-false : (k : RejectKind) → is_ok k ≡ false → k ≢ RejectKind.ok
is_ok-false k h = ground arith

module _ {F W : Type 0} (f : Float F) (clients : NodeClients F W)
    (cfg : HypothesisLoopConfig F) where
  -- The gate has accepted the scores of the attempt.
  abbrev pub Vetting : AttemptResult F → MechanicalGateOutcome F → Type 0
  Vetting attempt gate =
      (mechanical_gate f attempt.per_fold_best_scores attempt.baseline_per_fold_scores
          (some (default_config f))
        ≡ ok gate)
      × (gate.accept ≡ true)

  pub over_budget-Fits :
      (consumed : ℕ) (limit : Option ℕ)
      → over_budget f clients cfg consumed limit ≡ false
      → Fits limit (consumed + cost f clients cfg)
  over_budget-Fits consumed none h = tt
  over_budget-Fits consumed (some limit) h = ground arith

  module _ (s₀ : HypothesizeState F) where
    -- The entries of before are still there, and the backtests are within their limit.
    abbrev pub Inv : HypothesizeState F → Type 0
    Inv s =
        (s.accepted ≡ s₀.accepted)
        × (s.rejected ≡ s₀.rejected)
        × (s.intra_run_history ≡ s₀.intra_run_history)
        × (s.iteration ≡ s₀.iteration)
        × (s.max_backtests ≡ s₀.max_backtests)
        × (s.termination_reason ≡ s₀.termination_reason)
        × Fits s₀.max_backtests s.backtests_consumed

    abbrev pub Open : HypothesizeState F → Type 0
    Open s = s.candidate_reject_kind ≡ none

    abbrev pub Refused : HypothesizeState F → Type 0
    Refused s = (k : RejectKind) × (s.candidate_reject_kind ≡ some k) × (k ≢ RejectKind.ok)

    abbrev pub Judged : HypothesizeState F → Type 0
    Judged s = Inv s × (Open s ⊎ Refused s)

    abbrev pub Tried : HypothesizeState F → Type 0
    Tried s =
        Inv s
        × (Refused s ⊎ (Open s × ((a : AttemptResult F) × (s.candidate_attempt_result ≡ some a))))

    abbrev pub Gated : HypothesizeState F → Type 0
    Gated s =
        Inv s
        × (Refused s
            ⊎ (Open s
                × ((a : AttemptResult F) × (g : MechanicalGateOutcome F)
                    × (s.candidate_attempt_result ≡ some a)
                    × (s.gate_outcome ≡ some g)
                    × Vetting a g)))

    pub unless_rejected-Holds :
        (Q : HypothesizeState F → Type 0) (node : HypothesizeState F → W → Answer f clients cfg)
        (s : HypothesizeState F) (w : W)
        → (Refused s → Q s)
        → (s.candidate_reject_kind ≡ none → Holds Q (node s w))
        → Open s ⊎ Refused s
        → Holds Q (unless_rejected f clients cfg node s w)
    unless_rejected-Holds Q node s w stay go (inl e) = rw (e, unless_rejected) (go e)
    unless_rejected-Holds Q node s w stay go (inr (k, e, n)) =
        rw (e, unless_rejected) (stay (k, e, n))
