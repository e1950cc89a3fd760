-- ===== src/Tester/Attempt/Outcome.antt =====
-- The whole attempt: it returns the best proposal and the verdict on it, or says what is at fault.
use strategy_gpt.Tester.SearchSpace.{build_search_space}
use strategy_gpt.Tester.Claims.{BacktestMetrics, aggregate}
use strategy_gpt.Prelude.Maximum.{IsFirstMax}
use strategy_gpt.Tester.Attempt.Best.{Runs, NotBelow}
use strategy_gpt.Prelude.Dict.{Dict}
use strategy_gpt.Prelude.{ℕ, List, ◌≡◌, length, none, ◌≢◌, ◌⊎◌, [], All}
use strategy_gpt.Prelude.Int.{ℤ}
use strategy_gpt.Prelude.Result.{Result, Error, ok, raise}
use strategy_gpt.Prelude.Floats.{Float}
use strategy_gpt.Tester.Attempt.{
  AttemptArguments, Searchers, AttemptWithOptimizeResult, Progress, Evaluated, all_minus_inf,
  run_search, worse, evaluated, check_claim,
}
use strategy_gpt.Optimizer.{ParamSet, RandomParam}

module _ {F V : Type 0} (f : Float F) (truncate : F → Result ℤ) (searchers : Searchers F V)
    (evaluate_fold : ParamSet V → ℕ → Result (BacktestMetrics F)) (a : AttemptArguments F V) where
  abbrev pub space_of : Result (Dict (RandomParam F V))
  space_of = build_search_space truncate a.param_intent a.kept_bounds

  -- Why an attempt raises `e`.
  pub data Fault (e : Error) : Type 0 where
    no_folds : a.folds ≡ 0 → Fault e
    no_trials : a.trials ≡ 0 → Fault e
    baseline_length : length a.baseline_per_fold_scores ≢ a.folds → Fault e
    bad_space : space_of ≡ raise e → Fault e
    -- The method is unknown, or its searcher raises.
    bad_search :
        (space : Dict (RandomParam F V))
        → run_search searchers space a.method a.trials a.seed ≡ raise e
        → Fault e
    no_proposals :
        (space : Dict (RandomParam F V))
        → run_search searchers space a.method a.trials a.seed ≡ ok []
        → Fault e
    bad_fold :
        (p : ParamSet V)
        → evaluated f evaluate_fold a.objective_metric a.folds p ≡ raise e
        → Fault e
    bad_claim :
        (best : Evaluated F V)
        → check_claim f truncate searchers evaluate_fold a best ≡ raise e
        → Fault e

  -- The first of the best proposals by mean score, with the verdict on it; no score of a proposal
  -- is above the best one of its fold.
  pub record IsBestOf (proposals : List (ParamSet V)) (r : AttemptWithOptimizeResult F V)
      : Type 0 where
    pub space : Dict (RandomParam F V)
    pub built : space_of ≡ ok space
    pub proposed : run_search searchers space a.method a.trials a.seed ≡ ok proposals
    pub runs : List (Evaluated F V)
    pub all_runs : Runs f evaluate_fold a.objective_metric a.folds proposals runs
    pub best : Evaluated F V
    pub first_max : IsFirstMax (worse f evaluate_fold a.objective_metric) best runs
    pub best_params : r.best_params ≡ best.proposal
    pub aggregate_score : r.aggregate_score ≡ aggregate f best.fold_scores
    pub per_fold :
        All
          (λ (run : Evaluated F V).
            NotBelow f evaluate_fold a.objective_metric r.per_fold_best_scores run.fold_scores)
          runs
    pub check : check_claim f truncate searchers evaluate_fold a best ≡ ok r.falsification_check

  abbrev Answer : Result (AttemptWithOptimizeResult F V) → Type 0
  Answer out =
      ((r : AttemptWithOptimizeResult F V) × (proposals : List (ParamSet V)) × (out ≡ ok r)
        × IsBestOf proposals r)
      ⊎ ((e : Error) × (out ≡ raise e) × Fault e)

  abbrev start : Progress F V
  start = record {
    per_fold_best_score = all_minus_inf f evaluate_fold a.objective_metric a.folds;
    aggregate_best = none;
  }
