-- ===== src/Tester/Attempt.antt =====
-- python/strategy_gpt/tester.py: `attempt_with_optimize`, which optimises a candidate's parameters
-- over the folds and checks its falsification claim against the baseline. The searchers are an
-- argument; `evaluate_fold` is a function, as its contract asks.
pub mod Best
pub mod Outcome
use strategy_gpt.Tester.SearchSpace.{build_search_space}
use strategy_gpt.Prelude.Int.{ℤ}
use strategy_gpt.Prelude.Result.{Result, ok, ◌>>=◌, raise, value_error, runtime_error}
use strategy_gpt.Tester.Claims.{
  BacktestMetrics, SideEffect, FalsificationCheck, aggregate, evaluate_guards, side_effect_flags,
  metrics_average, getattr, default_side_effect_tol, classify_falsification,
}
use strategy_gpt.Prelude.Dict.{Dict}
use strategy_gpt.Prelude.Floats.{Float}
use text.Mathlib.Text.{◌==◌}
use strategy_gpt.Prelude.{
  ◌==◌ as ◌==n◌, String, List, ℕ, Option, ◌∷◌, Bool, some, [], if◌then◌else◌, suc, none, ◌+◌, zero,
  ltb, not, length,
}
use strategy_gpt.PerStrategyLedger.{ParamIntent, Falsification}
use strategy_gpt.Optimizer.{ParamSet, RandomParam, result_of}

pub record AttemptWithOptimizeResult (F V : Type 0) : Type 0 where
  pub strategy_artifact : String
  pub method : String
  pub trials : ℕ
  pub folds : ℕ
  pub best_params : ParamSet V
  pub per_fold_best_scores : List F
  pub aggregate_score : F
  pub side_effect_flags : List (SideEffect F)
  pub falsification_check : FalsificationCheck F
  pub objective_metric : String
  pub baseline_aggregate_score : F
  pub baseline_per_fold_scores : List F

-- A proposal with the metrics and the score of each fold.
pub record Evaluated (F V : Type 0) : Type 0 where
  pub proposal : ParamSet V
  pub fold_metrics : List (BacktestMetrics F)
  pub fold_scores : List F

-- `per_fold_best_params`, which nothing reads, is left out.
pub record Progress (F V : Type 0) : Type 0 where
  pub per_fold_best_score : List F
  pub aggregate_best : Option (Evaluated F V)

module _ {F V : Type 0} (f : Float F) (evaluate_fold : ParamSet V → ℕ → Result (BacktestMetrics F))
    (objective_metric : String) where
  -- The folds from `fold` on: their metrics and scores.
  unfoldable pub evaluate_folds :
      ParamSet V → (fold left : ℕ) → Result (List (BacktestMetrics F) × List F)
  evaluate_folds proposal fold zero = ok ([], [])
  evaluate_folds proposal fold (suc left) =
      let again = λ (m : BacktestMetrics F) (score : F).
        evaluate_folds proposal (fold + 1) left >>= λ r. ok (m ∷ r.0, score ∷ r.1) in
      evaluate_fold proposal fold >>= λ m. getattr f objective_metric m >>= again m

  -- A proposal, evaluated on all folds.
  abbrev pub evaluated : ℕ → ParamSet V → Result (Evaluated F V)
  evaluated folds proposal = evaluate_folds proposal 0 folds >>= λ r.
      ok (record { proposal = proposal; fold_metrics = r.0; fold_scores = r.1 })

  -- `if score > per_fold_best_score[fold_idx]`
  abbrev pub improved : List F → List F → List F
  improved [] scores = []
  improved (b ∷ best) [] = b ∷ best
  improved (b ∷ best) (s ∷ scores) = (if f.lt b s then s else b) ∷ improved best scores

  abbrev pub worse : Evaluated F V → Evaluated F V → Bool
  worse a b = f.lt (aggregate f a.fold_scores) (aggregate f b.fold_scores)

  -- `if aggregate_best is None or agg > aggregate_best[0]`
  abbrev pub better_of : Option (Evaluated F V) → Evaluated F V → Option (Evaluated F V)
  better_of none run = some run
  better_of (some best) run = some (if worse best run then run else best)

  abbrev pub noted : Progress F V → Evaluated F V → Progress F V
  noted progress run = record {
    per_fold_best_score = improved progress.per_fold_best_score run.fold_scores;
    aggregate_best = better_of progress.aggregate_best run;
  }

  -- The loop over the proposals.
  unfoldable pub explore : ℕ → List (ParamSet V) → Progress F V → Result (Progress F V)
  unfolding evaluate_folds
  explore folds [] progress = ok progress
  explore folds (p ∷ proposals) progress =
      let again = λ (run : Evaluated F V). explore folds proposals (noted progress run) in
      evaluated folds p >>= again

  abbrev pub all_minus_inf : ℕ → List F
  all_minus_inf zero = []
  all_minus_inf (suc n) = f.minus_inf ∷ all_minus_inf n

-- What the searchers of optimizer.py propose: the space, the number of trials and the seed.
pub record Searchers (F V : Type 0) : Type 0 where
  pub sobol : Dict (RandomParam F V) → ℕ → ℕ → Result (List (ParamSet V))
  pub random : Dict (RandomParam F V) → ℕ → ℕ → Result (List (ParamSet V))

unfoldable pub run_search :
    {F V : Type 0}
    → Searchers F V
    → Dict (RandomParam F V)
    → String
    → ℕ
    → ℕ
    → Result (List (ParamSet V))
run_search searchers space method trials seed =
    if method == "sobol"
    then searchers.sobol space trials seed
    else if method == "random"
    then searchers.random space trials seed
    else raise value_error

-- The keyword arguments that are no functions.
pub record AttemptArguments (F V : Type 0) : Type 0 where
  pub strategy_artifact : String
  pub param_intent : ParamIntent F
  pub falsification : Falsification F
  pub folds : ℕ
  pub method : String
  pub trials : ℕ
  pub kept_bounds : Dict (RandomParam F V)
  pub objective_metric : String
  pub baseline_per_fold_scores : List F
  pub baseline_metrics : Dict F
  pub seed : ℕ

module _ {F V : Type 0} (f : Float F) (truncate : F → Result ℤ) (searchers : Searchers F V)
    (evaluate_fold : ParamSet V → ℕ → Result (BacktestMetrics F)) (a : AttemptArguments F V) where
  abbrev pub result_for :
      List F → Evaluated F V → FalsificationCheck F → AttemptWithOptimizeResult F V
  result_for per_fold best check = record {
    strategy_artifact = a.strategy_artifact;
    method = a.method;
    trials = a.trials;
    folds = a.folds;
    best_params = best.proposal;
    per_fold_best_scores = per_fold;
    aggregate_score = aggregate f best.fold_scores;
    side_effect_flags =
        side_effect_flags f (default_side_effect_tol f) (metrics_average f best.fold_metrics)
          a.baseline_metrics;
    falsification_check = check;
    objective_metric = a.objective_metric;
    baseline_aggregate_score = aggregate f a.baseline_per_fold_scores;
    baseline_per_fold_scores = a.baseline_per_fold_scores;
  }

  -- The claim, checked on the best proposal.
  abbrev pub check_claim : Evaluated F V → Result (FalsificationCheck F)
  check_claim best =
      evaluate_guards f (metrics_average f best.fold_metrics) a.baseline_metrics
        a.falsification.guard_constraints
      >>= classify_falsification f a.falsification.primary
          (f.sub (aggregate f best.fold_scores) (aggregate f a.baseline_per_fold_scores))

  -- After the loop; the assertion that something is the best is `none`'s case.
  abbrev pub concluded : List F → Option (Evaluated F V) → Result (AttemptWithOptimizeResult F V)
  concluded per_fold none = raise runtime_error
  concluded per_fold (some best) = check_claim best >>= λ check. ok (result_for per_fold best check)

  abbrev pub explored : List (ParamSet V) → Result (AttemptWithOptimizeResult F V)
  explored [] = raise value_error
  explored (p ∷ proposals) =
      explore f evaluate_fold a.objective_metric a.folds (p ∷ proposals) (record {
        per_fold_best_score = all_minus_inf f evaluate_fold a.objective_metric a.folds;
        aggregate_best = none;
      })
      >>= λ progress. concluded progress.per_fold_best_score progress.aggregate_best

  unfoldable pub attempt_with_optimize : Result (AttemptWithOptimizeResult F V)
  unfolding build_search_space run_search explore side_effect_flags evaluate_guards
      classify_falsification
  attempt_with_optimize =
      if ltb a.folds 1
      then raise value_error
      else if ltb a.trials 1
      then raise value_error
      else if not (length a.baseline_per_fold_scores ==n a.folds)
      then raise value_error
      else build_search_space truncate a.param_intent a.kept_bounds >>= λ space.
          run_search searchers space a.method a.trials a.seed >>= explored
