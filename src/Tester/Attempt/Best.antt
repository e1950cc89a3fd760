-- ===== src/Tester/Attempt/Best.antt =====
-- The loop over the proposals: the best one by the mean of its scores, and the best score per fold.
use strategy_gpt.Prelude.Sorting.{IsWeakOrder}
use strategy_gpt.Tester.Attempt.{Progress, explore, Evaluated, improved, noted, worse, evaluated}
use strategy_gpt.Tester.Claims.{BacktestMetrics}
use strategy_gpt.Prelude.Result.{Result, ok, Error, raise, Result-cases, ◌>>=◌}
use strategy_gpt.Prelude.{
  ℕ, String, List, ◌∷◌, [], ◌≡◌, some, arith, All, false, refl, ◌⊎◌, inl, inr, ap, ◌∙◌,
  if◌then◌else◌,
}
use strategy_gpt.Prelude.Floats.{Float, IsOrdered}
use strategy_gpt.Prelude.Maximum.{max_from}
use strategy_gpt.Optimizer.{ParamSet}

module _ {F V : Type 0} (f : Float F) (evaluate_fold : ParamSet V → ℕ → Result (BacktestMetrics F))
    (objective_metric : String) where
  -- The proposals, each with what it evaluates to.
  pub data Runs (folds : ℕ) : List (ParamSet V) → List (Evaluated F V) → Type 0 where
    no_runs : Runs folds [] []
    run :
        {p : ParamSet V} {r : Evaluated F V} {ps : List (ParamSet V)} {rs : List (Evaluated F V)}
        → evaluated f evaluate_fold objective_metric folds p ≡ ok r
        → Runs folds ps rs
        → Runs folds (p ∷ ps) (r ∷ rs)

  abbrev pub noted_all : Progress F V → List (Evaluated F V) → Progress F V
  noted_all progress [] = progress
  noted_all progress (r ∷ rs) = noted_all (noted f evaluate_fold objective_metric progress r) rs

  pub explore-Runs :
      (folds : ℕ) (ps : List (ParamSet V)) (progress : Progress F V)
      → ((rs : List (Evaluated F V)) × Runs folds ps rs
          × (explore f evaluate_fold objective_metric folds ps progress
              ≡ ok (noted_all progress rs)))
        ⊎ ((e : Error) × (p : ParamSet V) × (explore f evaluate_fold objective_metric folds ps
                progress
              ≡ raise e)
            × (evaluated f evaluate_fold objective_metric folds p ≡ raise e))
  unfolding explore
  explore-Runs folds [] progress = inl ([], no_runs, refl)
  explore-Runs folds (p ∷ ps) progress =
      elim (Result-cases (evaluated f evaluate_fold objective_metric folds p)) [
        | inr (e, h) ↦ inr (
          e,
          p,
          ap
              (λ x. x >>= λ r.
                explore f evaluate_fold objective_metric folds ps
                  (noted f evaluate_fold objective_metric progress r))
              h,
          h,
        )
        | inl (r, h) ↦
            let again =
              ap
                (λ x. x >>= λ run.
                  explore f evaluate_fold objective_metric folds ps
                    (noted f evaluate_fold objective_metric progress run))
                h in
            elim (explore-Runs folds ps (noted f evaluate_fold objective_metric progress r)) [
              | inl (rs, rest, k) ↦ inl (r ∷ rs, run h rest, again ∙ k)
              | inr (e, q, k, l) ↦ inr (e, q, again ∙ k, l)
            ]
      ]

  pub aggregate_best-noted_all :
      (per_fold : List F) (best : Evaluated F V) (rs : List (Evaluated F V))
      → (noted_all
          (record { per_fold_best_score = per_fold; aggregate_best = some best })
          rs).aggregate_best
        ≡ some (max_from (worse f evaluate_fold objective_metric) best rs)
  aggregate_best-noted_all per_fold best [] = refl
  aggregate_best-noted_all per_fold best (r ∷ rs) =
      aggregate_best-noted_all (improved f evaluate_fold objective_metric per_fold r.fold_scores)
        (if worse f evaluate_fold objective_metric best r then r else best) rs

  pub worse-IsWeakOrder : IsOrdered f → IsWeakOrder (worse f evaluate_fold objective_metric)
  worse-IsWeakOrder order = record {
    asymm = λ a b. order.lt_asymm _ _;
    cotrans = λ a b c. order.lt_cotrans _ _ _;
  }

  -- No score is above the best one of its fold.
  abbrev pub NotBelow : List F → List F → Type 0
  NotBelow [] scores = Unit
  NotBelow (b ∷ best) [] = Unit
  NotBelow (b ∷ best) (s ∷ scores) = (f.lt b s ≡ false) × NotBelow best scores

  module _ (order : IsOrdered f) where
    improved-NotBelow :
        (best scores : List F)
        → NotBelow (improved f evaluate_fold objective_metric best scores) scores
    improved-NotBelow [] scores = tt
    improved-NotBelow (b ∷ best) [] = tt
    improved-NotBelow (b ∷ best) (s ∷ scores) =
        (ground (arith, order.lt_asymm s s), improved-NotBelow best scores)

    NotBelow-improved :
        (best old scores : List F)
        → NotBelow best old
        → NotBelow (improved f evaluate_fold objective_metric best scores) old
    NotBelow-improved [] old scores h = tt
    NotBelow-improved (b ∷ best) old [] h = h
    NotBelow-improved (b ∷ best) [] (s ∷ scores) h = tt
    NotBelow-improved (b ∷ best) (o ∷ old) (s ∷ scores) h = (
      ground (arith, h.0, order.lt_asymm b s, order.lt_cotrans s b o),
      NotBelow-improved best old scores h.1,
    )

    NotBelow-noted_all :
        (progress : Progress F V) (old : List F) (rs : List (Evaluated F V))
        → NotBelow progress.per_fold_best_score old
        → NotBelow (noted_all progress rs).per_fold_best_score old
    NotBelow-noted_all progress old [] h = h
    NotBelow-noted_all progress old (r ∷ rs) h =
        NotBelow-noted_all (noted f evaluate_fold objective_metric progress r) old rs
          (NotBelow-improved progress.per_fold_best_score old r.fold_scores h)

    pub per_fold-noted_all :
        (progress : Progress F V) (rs : List (Evaluated F V))
        → All (λ r. NotBelow (noted_all progress rs).per_fold_best_score r.fold_scores) rs
    per_fold-noted_all progress [] = tt
    per_fold-noted_all progress (r ∷ rs) = (
      NotBelow-noted_all (noted f evaluate_fold objective_metric progress r) r.fold_scores rs
          (improved-NotBelow progress.per_fold_best_score r.fold_scores),
      per_fold-noted_all (noted f evaluate_fold objective_metric progress r) rs,
    )
