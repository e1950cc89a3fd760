-- ===== src/Optimizer.antt =====
-- python/strategy_gpt/optimizer.py: the grid searcher, the parameter types of a search space, the
-- driver `optimize`, and the helpers of the other searchers. The float type `F`, the values `V` of
-- parameters and the metrics `M` are parameters; `evaluate` may raise and change the world `W`.
pub mod Grid
pub mod Driver
pub mod RecursiveGrid
mod Examples
use strategy_gpt.Prelude.Result.{Result, ok, ◌>>=◌, raise}
use strategy_gpt.Prelude.Maximum.{max_of}
use strategy_gpt.Prelude.Floats.{Float}
use strategy_gpt.Prelude.Int.{ℤ}
use strategy_gpt.Prelude.Dict.{Dict, keys, values}
use strategy_gpt.Prelude.{
  Bool, ◌≡◌, List, if◌then◌else◌, Option, String, ◌++◌, ◌∷◌, map, [], ℕ, true, ◌&&◌, length, some,
  ◌+◌, filter, ◌*◌, none,
}

abbrev pub ParamSet : Type 0 → Type 0
ParamSet V = Dict V

-- types.py; the texts of its violations are left out.
pub record EvaluationOutcome (F : Type 0) : Type 0 where
  pub accepted : Bool
  pub score : F

pub record Trial (F V M : Type 0) : Type 0 where
  pub params : ParamSet V
  pub metrics : M
  pub outcome : EvaluationOutcome F
  pub accepted : Bool

-- `itertools.product(*values)`: the last list varies fastest.
abbrev pub prefixed : {V : Type 0} → List V → List (List V) → List (List V)
prefixed [] combos = []
prefixed (v ∷ vs) combos = map (λ combo. v ∷ combo) combos ++ prefixed vs combos

abbrev pub product : {V : Type 0} → List (List V) → List (List V)
product [] = [] ∷ []
product (vs ∷ values) = prefixed vs (product values)

-- `dict(zip(keys, combo, strict=True))` for the keys of a dict, which differ, and a combination of
-- the same length.
abbrev pub zip_params : {V : Type 0} → List String → List V → ParamSet V
zip_params [] combo = []
zip_params (k ∷ keys) [] = []
zip_params (k ∷ keys) (v ∷ combo) = (k, v) ∷ zip_params keys combo

-- `GridSearcher.candidates` and `GridSearcher.count`
unfoldable pub grid_candidates : {V : Type 0} → Dict (List V) → List (ParamSet V)
grid_candidates grid = map (zip_params (keys grid)) (product (values grid))

unfoldable pub grid_count : {V : Type 0} → Dict (List V) → ℕ
grid_count [] = 1
grid_count ((k, vs) ∷ grid) = length vs * grid_count grid

pub data RandomParam (F V : Type 0) : Type 0 where
  -- `low`, `high` and `log`
  continuous_param : F → F → Bool → RandomParam F V
  int_param : ℤ → ℤ → RandomParam F V
  choice_param : List V → RandomParam F V

pub record OptimizerResult (F V M : Type 0) : Type 0 where
  pub trials : List (Trial F V M)
  pub best : Option (Trial F V M)
  pub rejected_count : ℕ

-- `oos_min_score is None or outcome.score >= oos_min_score`
abbrev pub gate_pass : {F : Type 0} → Float F → Option F → F → Bool
gate_pass f none score = true
gate_pass f (some oos_min_score) score = f.le oos_min_score score

module _ {F V M : Type 0} (f : Float F) where
  -- `key=lambda t: t.outcome.score`
  abbrev pub scored_below : Trial F V M → Trial F V M → Bool
  scored_below s t = f.lt s.outcome.score t.outcome.score

  abbrev pub trial_of : Option F → ParamSet V → M → EvaluationOutcome F → Trial F V M
  trial_of oos_min_score params metrics outcome = record {
    params = params;
    metrics = metrics;
    outcome = outcome;
    accepted = outcome.accepted && gate_pass f oos_min_score outcome.score;
  }

  abbrev pub is_accepted : Trial F V M → Bool
  is_accepted t = t.accepted

  abbrev pub rejected_in : List (Trial F V M) → ℕ
  rejected_in [] = 0
  rejected_in (t ∷ trials) = (if t.accepted then 0 else 1) + rejected_in trials

  abbrev pub result_of : List (Trial F V M) → OptimizerResult F V M
  result_of trials = record {
    trials = trials;
    best = max_of scored_below (filter is_accepted trials);
    rejected_count = rejected_in trials;
  }

  module _ {W : Type 0} (evaluate : ParamSet V → W → Result M × W)
      (score : M → Result (EvaluationOutcome F)) (oos_min_score : Option F) where
    -- One candidate: evaluated, scored and gated.
    abbrev pub attempt : ParamSet V → W → Result (Trial F V M) × W
    attempt params w =
        let (answer, w') = evaluate params w in
        (
          answer >>= λ metrics.
              score metrics >>= λ outcome. ok (trial_of oos_min_score params metrics outcome),
          w',
        )

    -- The loop over the candidates, with the trials so far. `again` is the rest of the loop.
    abbrev pub after_attempt :
        (List (Trial F V M) → W → Result (List (Trial F V M)) × W)
        → List (Trial F V M)
        → Result (Trial F V M) × W
        → Result (List (Trial F V M)) × W
    after_attempt again trials (ok trial, w) = again (trials ++ trial ∷ []) w
    after_attempt again trials (raise e, w) = (raise e, w)

    unfoldable pub run_trials :
        List (ParamSet V) → List (Trial F V M) → W → Result (List (Trial F V M)) × W
    run_trials [] trials w = (ok trials, w)
    run_trials (params ∷ rest) trials w = after_attempt (run_trials rest) trials (attempt params w)

    unfoldable pub optimize : List (ParamSet V) → W → Result (OptimizerResult F V M) × W
    unfolding run_trials
    optimize candidates w =
        let (trials, w') = run_trials candidates [] w in (trials >>= λ ts. ok (result_of ts), w')
