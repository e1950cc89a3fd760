-- ===== src/Optimizer/Driver.antt =====
-- What `optimize` returns: its trials, the count of the rejected ones and the best accepted one.
use mathlib.Core.List.{append-nil, append_assoc}
use strategy_gpt.Prelude.Result.{Error, Result-cases, Result, ok, raise}
use strategy_gpt.Optimizer.{
  Trial, scored_below, ParamSet, rejected_in, OptimizerResult, EvaluationOutcome, gate_pass,
  attempt, run_trials, is_accepted, optimize, trial_of, result_of,
}
use strategy_gpt.Prelude.Sorting.{IsWeakOrder}
use strategy_gpt.Prelude.{
  List, Option, ◌≡◌, All, ◌+◌, ◌&&◌, ◌⊎◌, inl, ◌++◌, arith, inr, [], refl, ◌∙◌, ap, map, length,
  filter, ◌∷◌, none, some,
}
use strategy_gpt.Prelude.Floats.{Float, IsOrdered}
use strategy_gpt.Prelude.Maximum.{IsFirstMax, max_of, max_from-IsFirstMax}

module _ {F V M : Type 0} (f : Float F) where
  params_of : List (Trial F V M) → List (ParamSet V)
  params_of trials = map (λ (t : Trial F V M). t.params) trials

  rejected_in-filter :
      (trials : List (Trial F V M))
      → rejected_in f trials + length (filter (is_accepted f) trials) ≡ length trials
  rejected_in-filter [] = refl
  rejected_in-filter (t ∷ trials) = ground (arith, rejected_in-filter trials)

  scored_below-IsWeakOrder : IsOrdered f → IsWeakOrder (scored_below {V = V} {M = M} f)
  scored_below-IsWeakOrder order = record {
    asymm = λ s t. order.lt_asymm _ _;
    cotrans = λ s t u. order.lt_cotrans _ _ _;
  }

  -- An accepted trial satisfies the objective and reaches the threshold, if there is one.
  abbrev pub IsGated : Option F → Trial F V M → Type 0
  IsGated oos_min_score t =
      t.accepted ≡ (t.outcome.accepted && gate_pass f oos_min_score t.outcome.score)

  -- The first of the best trials, or none of no trials.
  abbrev pub IsBest : List (Trial F V M) → Option (Trial F V M) → Type 0
  IsBest trials none = trials ≡ []
  IsBest trials (some t) = IsFirstMax (scored_below f) t trials

  max_of-IsBest :
      IsOrdered f → (trials : List (Trial F V M)) → IsBest trials (max_of (scored_below f) trials)
  max_of-IsBest order [] = refl
  max_of-IsBest order (t ∷ trials) =
      max_from-IsFirstMax (scored_below f) (scored_below-IsWeakOrder order) t trials

  -- The best trial is the first accepted one that no accepted one surpasses.
  pub record IsOptimum (oos_min_score : Option F) (candidates : List (ParamSet V))
      (r : OptimizerResult F V M) : Type 0 where
    pub in_order : map (λ (t : Trial F V M). t.params) r.trials ≡ candidates
    pub gated : All (IsGated oos_min_score) r.trials
    pub counted : r.rejected_count + length (filter (is_accepted f) r.trials) ≡ length r.trials
    pub best_of : IsBest (filter (is_accepted f) r.trials) r.best

  module _ {W : Type 0} (evaluate : ParamSet V → W → Result M × W)
      (score : M → Result (EvaluationOutcome F)) (oos_min_score : Option F) where
    -- The trials that a loop adds, or the exception of one of its calls.
    abbrev Added : List (ParamSet V) → List (Trial F V M) → Result (List (Trial F V M)) × W → Type 0
    Added candidates trials out =
        ((new : List (Trial F V M)) × (w : W) × (out ≡ (ok (trials ++ new), w))
          × (map (λ (t : Trial F V M). t.params) new ≡ candidates)
          × All (IsGated oos_min_score) new)
        ⊎ ((e : Error) × (p : ParamSet V) × (v : W) × (w : W) × (out ≡ (raise e, w))
            × (attempt f evaluate score oos_min_score p v ≡ (raise e, w)))

    attempt-cases :
        (params : ParamSet V) (w : W)
        → ((t : Trial F V M) × (w' : W) × (attempt f evaluate score oos_min_score params w
              ≡ (ok t, w'))
            × (t.params ≡ params)
            × IsGated oos_min_score t)
          ⊎ ((e : Error) × (w' : W) × (attempt f evaluate score oos_min_score params w
                ≡ (raise e, w')))
    attempt-cases params w = elim (Result-cases (evaluate params w).0) [
      | inr (e, h) ↦ inr (e, (evaluate params w).1, rw h refl)
      | inl (metrics, h) ↦ elim (Result-cases (score metrics)) [
        | inr (e, k) ↦ inr (e, (evaluate params w).1, rw (h, k) refl)
        | inl (outcome, k) ↦ inl (
          trial_of f oos_min_score params metrics outcome,
          (evaluate params w).1,
          rw (h, k) refl,
          refl,
          refl,
        )
      ]
    ]

    run_trials-Added :
        (candidates : List (ParamSet V)) (trials : List (Trial F V M)) (w : W)
        → Added candidates trials (run_trials f evaluate score oos_min_score candidates trials w)
    unfolding run_trials
    run_trials-Added [] trials w = inl ([], w, rw append-nil refl, refl, tt)
    run_trials-Added (params ∷ rest) trials w = elim (attempt-cases params w) [
      | inr (e, w', h) ↦ inr (e, params, w, w', rw h refl, h)
      | inl (t, w', h, p, g) ↦ rw h (elim (run_trials-Added rest (trials ++ t ∷ []) w') [
        | inr raised ↦ inr raised
        | inl (new, v, made, ps, gs) ↦ inl (
          t ∷ new,
          v,
          made ∙ ap (λ ts. (ok ts, v)) (append_assoc trials (t ∷ []) new),
          cc,
          (g, gs),
        )
      ])
    ]

  module _ {W : Type 0} (order : IsOrdered f) (evaluate : ParamSet V → W → Result M × W)
      (score : M → Result (EvaluationOutcome F)) (oos_min_score : Option F) where
    -- Either a call raises, and `optimize` raises that, or it returns the trials of all
    -- candidates in order and the first best of the accepted ones.
    pub optimize-IsOptimum :
        (candidates : List (ParamSet V)) (w : W)
        → ((r : OptimizerResult F V M) × (w' : W) × (optimize f evaluate score oos_min_score
                candidates w
              ≡ (ok r, w'))
            × IsOptimum oos_min_score candidates r)
          ⊎ ((e : Error) × (p : ParamSet V) × (v : W) × (w' : W) × (optimize f evaluate score
                  oos_min_score candidates w
                ≡ (raise e, w'))
              × (attempt f evaluate score oos_min_score p v ≡ (raise e, w')))
    unfolding optimize
    optimize-IsOptimum candidates w =
        elim (run_trials-Added evaluate score oos_min_score candidates [] w) [
          | inr (e, p, v, w', h, k) ↦ inr (e, p, v, w', rw h refl, k)
          | inl (trials, w', h, ps, gs) ↦ inl (
            result_of f trials,
            w',
            rw h refl,
            record {
              in_order = ps;
              gated = gs;
              counted = rejected_in-filter trials;
              best_of = max_of-IsBest order (filter (is_accepted f) trials);
            },
          )
        ]
