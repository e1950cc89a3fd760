-- ===== src/Tester/Examples.antt =====
-- Tests of the tester, and its theorems at concrete inputs.
use strategy_gpt.Tester.SearchSpace.Lookup.{last_added, build_search_space_lem}
use strategy_gpt.Tester.Translation.Params.{
  last_value, translate_param_only_lem, ChangeGives, ChangeGives,
}
use strategy_gpt.Tester.Claims.Verdict.{
  verdict, all_hold, primary_holds, classify_falsification_lem,
}
use strategy_gpt.Tester.Translation.Compare.{opposite, other_kind, judged-opposite}
use strategy_gpt.Tester.SearchSpace.{build_search_space}
use strategy_gpt.Prelude.Samples.{whole, whole_arith, whole-IsOrdered}
use strategy_gpt.Prelude.Result.{Result, ok, ◌>>=◌, raise, Error}
use strategy_gpt.Optimizer.{ParamSet, RandomParam, choice_param}
use strategy_gpt.Tester.Claims.{
  FalsificationCheck, evaluate_guards, BacktestMetrics, Classification, classify_falsification,
}
use strategy_gpt.Prelude.Int.{ℤ, pos}
use strategy_gpt.Prelude.Dict.{lookup, Dict, assign, values, among}
use strategy_gpt.Tester.Claims.{Classification}
use strategy_gpt.HypothesisLoop.{HypothesisCandidate}
use strategy_gpt.Json.{
  Fields, field, null, get, array, object, Json, cons, number, string, end, nil,
}
use strategy_gpt.Tester.Translation.{
  FalsificationCriterion, Verdict, translate_param_only, TranslatedRun, ge, judged, has_any,
  logic_change_keys, parse_param_only_change,
}
use strategy_gpt.Tester.Smoke.{
  SmokePolicy, run_smoke_polled, JobStatus, smoke_failed, timeout, polled, in_progress, completed,
  run_result, dropped,
}
use strategy_gpt.Prelude.{
  ℕ, List, ◌+◌, Option, [], some, none, ◌∷◌, if◌then◌else◌, false, ◌≡◌, ltb, length, String, refl,
  ◌⊎◌, All, ◌*◌,
}
use strategy_gpt.PerStrategyLedger.{ParamIntent, GuardConstraint, FalsificationPrimary}
use strategy_gpt.Tester.Attempt.{
  AttemptArguments, Searchers, AttemptWithOptimizeResult, attempt_with_optimize,
}

-- The smoke run: two polls in progress, then a run with three trades.
abbrev poll : ℕ → Result (JobStatus ℕ)
poll n = if ltb n 2 then ok in_progress else ok (completed (run_result 3 0 none ∷ []))

abbrev policy : SmokePolicy
policy = record { min_trades = 1; max_sanity_trips = 0 }

-- The engine never decides, and the clock gains 30 at each poll: the third poll times out.
times_out :
    run_smoke_polled {M = ℕ} whole
      (λ m. false)
      policy
      (λ n. ok in_progress)
      (λ n. pos (30 * n))
      (pos 60)
      5
      0
      []
    ≡ some (ok (smoke_failed timeout), polled 0 ∷ polled 1 ∷ polled 2 ∷ dropped ∷ [])
unfolding run_smoke_polled
times_out = refl

abbrev criterion : FalsificationCriterion ℤ
criterion = record { metric = "sharpe"; op = ge; threshold = pos 2 }

judged-opposite_example :
    (v : Verdict ℤ) × (w : Verdict ℤ) × (judged whole (λ s. pos 0) criterion (some (pos 3)) ≡ ok v)
    × (judged whole (λ s. pos 0) (record criterion { op = opposite ge }) (some (pos 3)) ≡ ok w)
    × (w.kind ≡ other_kind v.kind)
judged-opposite_example = judged-opposite whole whole-IsOrdered (λ s. pos 0) criterion (pos 3)

abbrev two_diffs : Fields
two_diffs =
    field "diffs"
      (array (
        cons (object (field "param" (string "n") (field "to" (number "5") end)))
          (cons (object (field "param" (string "n") (field "to" (number "6") end))) nil)))
      end

abbrev candidate : HypothesisCandidate ℤ
candidate = record {
  name = "c";
  target_metric = "sharpe";
  falsification = null;
  proposed_change = object two_diffs;
  kb_cites = [];
  estimated_lift_confidence = pos 0;
}

value_of : Result TranslatedRun → Option Json
unfolding lookup
value_of (ok run) = lookup "n" run.params
value_of (raise e) = none

last_diff_wins : value_of (translate_param_only candidate "a" []) ≡ some (number "6")
unfolding translate_param_only get value_of lookup assign
last_diff_wins = refl

translate_param_only_lem_example :
    ((run : TranslatedRun) × (change : Fields) × (translate_param_only candidate "a" [] ≡ ok run)
      × (object two_diffs ≡ object change)
      × (has_any logic_change_keys change ≡ false)
      × ChangeGives change run.diffs
      × (run.strategy_artifact ≡ "a")
      × ((name : String)
          → lookup name run.params ≡ last_value name run.diffs (lookup {A = Json} name [])))
    ⊎ ((e : Error) × (translate_param_only candidate "a" [] ≡ raise e)
        × (parse_param_only_change (object two_diffs) ≡ raise e))
translate_param_only_lem_example = translate_param_only_lem candidate "a" []

-- An attempt with two folds and two proposals: the score of proposal `n` on a fold is `n`.
abbrev intent : ParamIntent ℤ
intent = record {
  added =
      record {
        name = "n";
        kind = "i64";
        lower = some (pos 1);
        upper = some (pos 9);
        default = null;
      }
      ∷ [];
  kept = "k" ∷ [];
  removed = "old" ∷ [];
}

abbrev kept_bounds : Dict (RandomParam ℤ ℕ)
kept_bounds = ("k", choice_param (1 ∷ 2 ∷ [])) ∷ []

abbrev truncate : ℤ → Result ℤ
truncate x = ok x

build_search_space_lem_example :
    (space : Dict (RandomParam ℤ ℕ)) × (build_search_space truncate intent kept_bounds ≡ ok space)
    × ((name : String)
        → lookup name space ≡ (
            if among name intent.kept
            then lookup name kept_bounds
            else last_added truncate name intent.added none))
    × All (λ name. lookup name space ≡ none) intent.removed
unfolding lookup
build_search_space_lem_example =
    build_search_space_lem truncate intent kept_bounds ((refl, _, refl), tt) ((refl, _, refl), tt)

abbrev guard : GuardConstraint ℤ
guard = record {
  metric = "n_trades";
  direction = "gte";
  delta_vs_baseline = none;
  factor = some (pos 2);
}

abbrev primary : FalsificationPrimary ℤ
primary = record {
  metric = "sharpe";
  direction = "gt";
  delta_vs_baseline = pos 1;
  scope = record {
    kind = "aggregate";
    regime = none;
    fold = none;
    window_start = none;
    window_end = none;
  };
}

abbrev candidate_metrics : Dict ℤ
candidate_metrics = ("n_trades", pos 5) ∷ []

abbrev baseline_metrics : Dict ℤ
baseline_metrics = ("n_trades", pos 2) ∷ []

classify_falsification_lem_example :
    (check : FalsificationCheck ℤ) × ((evaluate_guards whole candidate_metrics baseline_metrics
          (guard ∷ [])
        >>= classify_falsification whole primary (pos 3))
      ≡ ok check)
    × (length check.guard_verdicts ≡ 1)
    × (check.classification
        ≡ verdict whole
            (all_hold whole candidate_metrics baseline_metrics (guard ∷ []))
            (primary_holds whole primary (pos 3)))
classify_falsification_lem_example =
    classify_falsification_lem whole candidate_metrics baseline_metrics (guard ∷ []) primary (pos 3)
      ((refl, refl), tt) refl

abbrev sum_of : ParamSet ℕ → ℕ
sum_of [] = 0
sum_of (e ∷ p) = e.1 + sum_of p

abbrev metrics_of : ParamSet ℕ → ℕ → Result (BacktestMetrics ℤ)
metrics_of p fold = ok (record {
  sharpe = pos (sum_of p + fold);
  sortino = pos 0;
  profit_factor = pos 0;
  win_ratio = pos 0;
  max_drawdown = pos 0;
  annualized_return = pos 0;
  n_trades = pos 5;
  avg_trade_length_bars = pos 0;
})

abbrev searchers : Searchers ℤ ℕ
searchers = record {
  sobol = λ space trials seed. ok ((("n", 3) ∷ []) ∷ (("n", 7) ∷ []) ∷ []);
  random = λ space trials seed. ok ([]);
}

abbrev arguments : AttemptArguments ℤ ℕ
arguments = record {
  strategy_artifact = "a";
  param_intent = intent;
  falsification = record { primary = primary; guard_constraints = guard ∷ [] };
  folds = 2;
  method = "sobol";
  trials = 2;
  kept_bounds = kept_bounds;
  objective_metric = "sharpe";
  baseline_per_fold_scores = pos 1 ∷ pos 1 ∷ [];
  baseline_metrics = baseline_metrics;
  seed = 0;
}

-- What an attempt finds: the best value of `n`, the mean score and the class of the verdict.
summary : Result (AttemptWithOptimizeResult ℤ ℕ) → List ℕ × Option (ℤ × Classification)
summary (ok r) =
    (values r.best_params, some (r.aggregate_score, r.falsification_check.classification))
summary (raise e) = ([], none)

abbrev expected : List ℕ × Option (ℤ × Classification)
expected = (7 ∷ [], some (pos 7, Classification.accepted))

best_of_two :
    summary (attempt_with_optimize whole truncate searchers metrics_of arguments) ≡ expected
unfolding attempt_with_optimize summary whole_arith lookup assign
best_of_two = refl
