-- ===== src/Workflow/Run.antt =====
-- A whole run of the workflow, from the diagnosis on.
use strategy_gpt.Prelude.{
  ℕ, suc, ◌≡◌, ◌∙◌, ap, sym, subst, ◌⊎◌, inl, inr, refl, Bool, Option, some, arith,
}
use strategy_gpt.Prelude.Int.{pos, pos_part}
use strategy_gpt.Prelude.Floats.{Float, IsOrdered}
use strategy_gpt.Prelude.Result.{Result, ok, raise, Error, Result-cases}
use strategy_gpt.HypothesisLoop.{running}
use strategy_gpt.Nodes.{HypothesisLoopConfig}
use strategy_gpt.Workflow.{HypothesizeState, NodeClients}
use strategy_gpt.Workflow.Steps.{diagnose_step, kb_query_step, kb_filter_step}
use strategy_gpt.Workflow.Graph.{cycle, prepare, start, run_workflow}
use strategy_gpt.Workflow.Invariant.{Holds, Holds-cases, and_then-Holds, and_then-any, Fits, Inv}
use strategy_gpt.Workflow.Loop.{IsSelected, cycle-Returns}

module _ {F W : Type 0} (f : Float F) (clients : NodeClients F W) (cfg : HypothesisLoopConfig F)
    (s₀ : HypothesizeState F) where
  diagnose-Inv :
      (w : W)
      → Fits s₀.max_backtests s₀.backtests_consumed
      → Holds (Inv f clients cfg s₀) (diagnose_step f clients cfg s₀ w)
  unfolding diagnose_step
  diagnose-Inv w fits = elim (Result-cases (clients.diagnose s₀.baseline_result)) [
    | inl (d, e) ↦ rw (e, diagnose_step) (refl, refl, refl, refl, refl, refl, fits)
    | inr (x, e) ↦ rw (e, diagnose_step) tt
  ]

  prepare-Inv :
      (w : W)
      → Fits s₀.max_backtests s₀.backtests_consumed
      → Holds (Inv f clients cfg s₀) (prepare f clients cfg s₀ w)
  unfolding kb_query_step kb_filter_step
  prepare-Inv w fits =
      let inv = Inv f clients cfg s₀ in
      and_then-Holds inv inv _ _ (diagnose-Inv w fits) (λ s₁ i₁ w₁.
        and_then-Holds inv inv _ _ (and_then-any inv _ _ (λ cites w₂. i₁)) (λ s₂ i₂ w₂. i₂))

module _ {F W : Type 0} (f : Float F) (clients : NodeClients F W) (cfg : HypothesisLoopConfig F)
    (loop : HypothesizeState F → W → Option (Result (HypothesizeState F) × W)) where
  start-ok :
      (out : Result (HypothesizeState F) × W) (s : HypothesizeState F)
      → out.0 ≡ ok s
      → start f clients cfg loop out ≡ loop s out.1
  start-ok (r, w) s e = ap (λ q. start f clients cfg loop (q, w)) e

  start-raise :
      (out : Result (HypothesizeState F) × W) (x : Error)
      → out.0 ≡ raise x
      → start f clients cfg loop out ≡ some (raise x, out.1)
  start-raise (r, w) x e = ap (λ q. start f clients cfg loop (q, w)) e

-- A run with a target that is not negative and scores that are totally ordered, from a running state
-- within its limit on backtests, ends for every model, validator, optimizer and critic, whether or not
-- LangGraph keeps what the conditional edge writes: it raises, or selects. It then has at most the
-- target number of accepted entries, the best score first; the iteration counter has grown, and passes
-- the budget only where the budget left no pass at all; the backtests are within their limit; the
-- reason is `sufficient_candidates` exactly when the target is met, and else `budget_exhausted`, with
-- the iterations or the backtests used up, never `similarity_saturation`.
pub run_workflow-IsSelected :
    {F W : Type 0} (f : Float F) (order : IsOrdered f) (clients : NodeClients F W)
    (cfg : HypothesisLoopConfig F) (t : ℕ) (target : cfg.target_candidates ≡ pos t)
    (keeps_writes : Bool) (s₀ : HypothesizeState F) (w : W)
    → s₀.termination_reason ≡ running
    → Fits s₀.max_backtests s₀.backtests_consumed
    → ((e : Error) × (w' : W) × (run_workflow f clients cfg keeps_writes s₀ w ≡ some (raise e, w')))
      ⊎ ((s : HypothesizeState F) × (w' : W) × (run_workflow f clients cfg keeps_writes s₀ w
            ≡ some (ok s, w'))
          × IsSelected f order clients cfg t target s₀.iteration s₀.max_backtests s)
unfolding run_workflow
run_workflow-IsSelected f order clients cfg t target keeps_writes s₀ w run fits =
    let fuel = suc (pos_part cfg.iteration_budget) in
    let loop = cycle f clients cfg keeps_writes fuel in
    let out = prepare f clients cfg s₀ w in
    elim (Holds-cases (Inv f clients cfg s₀) out (prepare-Inv f clients cfg s₀ w fits)) [
      | inl (e, h) ↦ inl (e, out.1, start-raise f clients cfg loop out e h)
      | inr (s, h, (a, r, x, n, m, q, within)) ↦
          let rest =
            cycle-Returns f order clients cfg t target keeps_writes fuel s out.1 (q ∙ run)
              (subst (λ l. Fits l s.backtests_consumed) (sym m) within) (omega arith)
              (omega arith) in
          let entered = start-ok f clients cfg loop out s h in
          elim rest [
            | inl (e, w', returned) ↦ inl (e, w', entered ∙ returned)
            | inr (s', w', returned, v) ↦ inr (
              s',
              w',
              entered ∙ returned,
              subst (λ l. IsSelected f order clients cfg t target s₀.iteration l s') m
                  (subst (λ k. IsSelected f order clients cfg t target k s.max_backtests s') n v),
            )
          ]
    ]
