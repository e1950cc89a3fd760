-- ===== src/Tester/Claims.antt =====
-- python/strategy_gpt/tester.py: guards, side effects and the verdict on a falsification claim. Of a
-- text the numbers are kept that it shows.
pub mod Verdict
use strategy_gpt.Prelude.Result.{Result, raise, ok, ◌>>=◌, value_error, attribute_error}
use strategy_gpt.Prelude.Dict.{Dict, lookup}
use strategy_gpt.Prelude.Floats.{Float, of_ℕ}
use strategy_gpt.Prelude.{
  String, Bool, List, Option, ◌||◌, ◌∷◌, if◌then◌else◌, some, false, length, [], map, ◌++◌, not,
  none,
}
use strategy_gpt.Prelude.Int.{ℤ, pos}
use text.Mathlib.Text.{◌==◌}
use strategy_gpt.PerStrategyLedger.{GuardConstraint, FalsificationPrimary}

-- types.py
pub record BacktestMetrics (F : Type 0) : Type 0 where
  pub sharpe : F
  pub sortino : F
  pub profit_factor : F
  pub win_ratio : F
  pub max_drawdown : F
  pub annualized_return : F
  pub n_trades : ℤ
  pub avg_trade_length_bars : F

pub record FalsificationGuardVerdict (F : Type 0) : Type 0 where
  pub metric : String
  pub direction : String
  pub held : Bool
  pub candidate_value : F
  pub baseline_value : F
  pub threshold : F

pub data Classification : Type 0 where
  accepted falsified regression : Classification

pub record FalsificationCheck (F : Type 0) : Type 0 where
  pub primary_metric : String
  pub primary_direction : String
  pub primary_delta_target : F
  pub primary_observed_delta : F
  pub primary_met : Bool
  pub classification : Classification
  pub guard_verdicts : List (FalsificationGuardVerdict F)

-- `<metric>_changed_from_zero`, `<metric>_up_<ratio>x` and `<metric>_down_<ratio>x`
pub data SideEffect (F : Type 0) : Type 0 where
  changed_from_zero : String → SideEffect F
  moved_up : String → F → SideEffect F
  moved_down : String → F → SideEffect F

abbrev pub is_up : String → Bool
is_up direction = (direction == "gt") || (direction == "gte")

abbrev pub is_down : String → Bool
is_down direction = (direction == "lt") || (direction == "lte")

module _ {F : Type 0} (f : Float F) where
  -- `_aggregate`
  abbrev pub aggregate : List F → F
  aggregate [] = of_ℕ f 0
  aggregate (x ∷ xs) = f.div (f.sum (x ∷ xs)) (of_ℕ f (length (x ∷ xs)))

  -- The fields as floats, all of which are numbers.
  abbrev pub model_dump : BacktestMetrics F → Dict F
  model_dump m =
      ("sharpe", m.sharpe)
      ∷ ("sortino", m.sortino)
      ∷ ("profit_factor", m.profit_factor)
      ∷ ("win_ratio", m.win_ratio)
      ∷ ("max_drawdown", m.max_drawdown)
      ∷ ("annualized_return", m.annualized_return)
      ∷ ("n_trades", f.literal m.n_trades 0)
      ∷ ("avg_trade_length_bars", m.avg_trade_length_bars)
      ∷ []

  abbrev pub value_or_zero : Option F → F
  value_or_zero none = of_ℕ f 0
  value_or_zero (some x) = x

  -- `float(getattr(metrics, name))`
  abbrev pub getattr : String → BacktestMetrics F → Result F
  getattr name m = elim (lookup name (model_dump m)) [
    | none ↦ raise attribute_error
    | some x ↦ ok x
  ]

  -- `candidate_metrics_avg`
  abbrev pub metrics_average : List (BacktestMetrics F) → Dict F
  metrics_average [] = []
  metrics_average (m ∷ ms) =
      map
        (λ (e : String × F). (
          e.0,
          f.div (f.sum (map (λ x. value_or_zero (lookup e.0 (model_dump x))) (m ∷ ms)))
              (of_ℕ f (length (m ∷ ms))),
        ))
        (model_dump m)

  -- `_DEFAULT_SIDE_EFFECT_TOL`
  abbrev pub default_side_effect_tol : Dict F
  default_side_effect_tol =
      ("n_trades", f.literal (pos 5) 1)
      ∷ ("avg_trade_length_bars", f.literal (pos 5) 1)
      ∷ ("max_drawdown", f.literal (pos 5) 1)
      ∷ []

  abbrev pub flag_of : String → F → F → F → List (SideEffect F)
  flag_of metric tol b c =
      if f.eq b (of_ℕ f 0)
      then if f.eq c (of_ℕ f 0) then [] else changed_from_zero metric ∷ []
      else let ratio = f.div c b in
        if f.le (f.add (of_ℕ f 1) tol) ratio
        then moved_up metric ratio ∷ []
        else if f.le ratio (f.sub (of_ℕ f 1) tol)
        then moved_down metric ratio ∷ []
        else []

  abbrev pub flags_for : String → F → Option F → Option F → List (SideEffect F)
  flags_for metric tol (some b) (some c) = flag_of metric tol b c
  flags_for metric tol (some b) none = []
  flags_for metric tol none candidate = []

  unfoldable pub side_effect_flags : Dict F → Dict F → Dict F → List (SideEffect F)
  side_effect_flags [] candidate baseline = []
  side_effect_flags ((metric, tol) ∷ tols) candidate baseline =
      flags_for metric tol (lookup metric baseline) (lookup metric candidate)
      ++ side_effect_flags tols candidate baseline

  abbrev pub guard_verdict : GuardConstraint F → F → F → F → Bool → FalsificationGuardVerdict F
  guard_verdict guard candidate_value baseline_value threshold held = record {
    metric = guard.metric;
    direction = guard.direction;
    held = held;
    candidate_value = candidate_value;
    baseline_value = baseline_value;
    threshold = threshold;
  }

  -- A test in the guard's direction: `x <= limit` or `x >= limit`.
  abbrev pub held_in : String → F → F → Result Bool
  held_in direction x limit =
      if is_down direction
      then ok (f.le x limit)
      else if is_up direction
      then ok (f.le limit x)
      else raise value_error

  abbrev pub factor_guard :
      GuardConstraint F → Option F → F → F → Result (FalsificationGuardVerdict F)
  factor_guard guard none candidate_value baseline_value = raise value_error
  factor_guard guard (some factor) candidate_value baseline_value =
      held_in guard.direction candidate_value (f.mul factor baseline_value) >>= λ held.
      ok (guard_verdict guard candidate_value baseline_value factor held)

  abbrev pub delta_guard :
      GuardConstraint F → Option F → F → F → Result (FalsificationGuardVerdict F)
  delta_guard guard none candidate_value baseline_value =
      factor_guard guard guard.factor candidate_value baseline_value
  delta_guard guard (some threshold) candidate_value baseline_value =
      held_in guard.direction (f.sub candidate_value baseline_value) threshold >>= λ held.
      ok (guard_verdict guard candidate_value baseline_value threshold held)

  unfoldable pub evaluate_guard : GuardConstraint F → F → F → Result (FalsificationGuardVerdict F)
  evaluate_guard guard = delta_guard guard guard.delta_vs_baseline

  unfoldable pub evaluate_guards :
      Dict F → Dict F → List (GuardConstraint F) → Result (List (FalsificationGuardVerdict F))
  unfolding evaluate_guard
  evaluate_guards candidate baseline [] = ok []
  evaluate_guards candidate baseline (guard ∷ guards) =
      let again = λ (v : FalsificationGuardVerdict F).
        evaluate_guards candidate baseline guards >>= λ vs. ok (v ∷ vs) in
      evaluate_guard guard (value_or_zero (lookup guard.metric candidate))
        (value_or_zero (lookup guard.metric baseline))
      >>= again

  -- `primary_met`; `-x` is written `0 - x`, which no comparison tells from it.
  abbrev pub primary_met_of : String → F → F → Result Bool
  primary_met_of direction target observed =
      if is_up direction
      then ok (f.le target observed)
      else if is_down direction
      then ok (f.le observed (f.sub (of_ℕ f 0) (f.absolute target)))
      else raise value_error

  abbrev pub any_guard_failed : List (FalsificationGuardVerdict F) → Bool
  any_guard_failed [] = false
  any_guard_failed (g ∷ gs) = not g.held || any_guard_failed gs

  abbrev pub classification_of : Bool → Bool → Classification
  classification_of guard_failed primary_met =
      if guard_failed then regression else if primary_met then accepted else falsified

  abbrev pub check_of :
      FalsificationPrimary F → F → List (FalsificationGuardVerdict F) → Bool → FalsificationCheck F
  check_of primary observed guard_verdicts met = record {
    primary_metric = primary.metric;
    primary_direction = primary.direction;
    primary_delta_target = primary.delta_vs_baseline;
    primary_observed_delta = observed;
    primary_met = met;
    classification = classification_of (any_guard_failed guard_verdicts) met;
    guard_verdicts = guard_verdicts;
  }

  unfoldable pub classify_falsification :
      FalsificationPrimary F
      → F
      → List (FalsificationGuardVerdict F)
      → Result (FalsificationCheck F)
  classify_falsification primary observed guard_verdicts =
      primary_met_of primary.direction primary.delta_vs_baseline observed >>= λ met.
      ok (check_of primary observed guard_verdicts met)
