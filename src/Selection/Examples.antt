-- ===== src/Selection/Examples.antt =====
-- Tests of the selection layer, and its theorems at concrete inputs.
use strategy_gpt.Selection.Cscv.Splits.{enumerate_splits_lem}
use strategy_gpt.Prelude.Sorting.{sorted_desc}
use strategy_gpt.Selection.Selector.Decision.{IsDecision, run_selection-IsDecision}
use strategy_gpt.Prelude.Samples.{whole, whole-IsOrdered, whole_arith}
use strategy_gpt.Selection.Selector.Order.{EqOfOrder}
use strategy_gpt.Selection.Selector.{run_selection, pbo_of, top_k_candidates}
use strategy_gpt.Prelude.Dict.{Dict}
use strategy_gpt.Selection.Dsr.{Normal}
use strategy_gpt.Prelude.Int.{ℤ, pos}
use strategy_gpt.Selection.Cscv.{
  enumerate_splits, PboKnobs, compute_pbo, is_overfit, comb, range_from,
}
use strategy_gpt.Prelude.Result.{Result, ok, raise, Error, value_error}
use strategy_gpt.Prelude.{
  List, ℕ, [], ◌≡◌, ◌%◌, true, Bool, false, length, none, some, arith, ◌∷◌, ◌++◌, refl, ◌/◌, ◌⊎◌,
  All, ◌≢◌,
}
use mathlib.Core.List.{Perm}
use strategy_gpt.Selection.Candidates.{
  SelectionCandidate, SelectionArguments, SelectionDecision, SensitivityResult,
}

abbrev no_sample : ℕ → ℕ → ℕ → List (List ℕ × List ℕ)
no_sample s n seed = []

splits_of_four : Result (List (List ℕ × List ℕ)) → List ℕ
splits_of_four (ok ((a, b) ∷ splits)) = a ++ b
splits_of_four (ok []) = []
splits_of_four (raise e) = []

first_of_four : splits_of_four (enumerate_splits 4) ≡ 0 ∷ 1 ∷ 2 ∷ 3 ∷ []
unfolding enumerate_splits splits_of_four
first_of_four = refl

enumerate_splits_lem_example :
    ((splits : List (List ℕ × List ℕ)) × (4 % 2 ≡ 0)
      × (enumerate_splits 4 ≡ ok splits)
      × (length splits ≡ comb 4 (4 / 2))
      × All
          (λ (p : List ℕ × List ℕ). (length p.0 ≡ 4 / 2) × Perm (p.0 ++ p.1) (range_from 0 4))
          splits)
    ⊎ ((4 % 2 ≢ 0) × (enumerate_splits 4 ≡ raise value_error))
enumerate_splits_lem_example = enumerate_splits_lem 4

abbrev log : ℤ → ℤ
log x = x

-- Two trials on four folds.
abbrev row : List ℤ
row = pos 4 ∷ pos 4 ∷ pos 0 ∷ pos 0 ∷ []

abbrev rows : List (List ℤ)
rows = (pos 1 ∷ pos 1 ∷ pos 1 ∷ pos 1 ∷ []) ∷ []

abbrev pbo_knobs : PboKnobs ℤ
pbo_knobs = record { enabled = true; threshold = pos 1; top_k = 50; max_splits = 4096 }

abbrev normal : Normal ℤ
normal = record { phi = λ x. x; phi_inv = λ x. x; e = pos 3; gamma = pos 1; is_finite = λ x. true }

abbrev candidate : ℕ → ℕ → Bool → SelectionCandidate ℤ ℕ
candidate id score fits = record {
  trial_id = id;
  params = ("n", id) ∷ [];
  aggregate_score = pos score;
  aggregate_metrics = [];
  per_fold_oos_primary = pos score ∷ pos score ∷ pos score ∷ pos score ∷ [];
  trade_count = 10;
  accepted = fits;
  skew = pos 0;
  kurt = pos 3;
}

abbrev arguments : SelectionArguments ℤ
arguments = record {
  knobs = record {
    pbo = pbo_knobs;
    dsr_enabled = false;
    by_trial_count = true;
    sensitivity_enabled = false;
  };
  robust_objective = true;
  force = false;
  pbo_threshold_override = none;
  pbo_seed = 0;
}

abbrev same_params : Dict ℕ → Dict ℕ → Bool
same_params p q = false

abbrev unused : SelectionCandidate ℤ ℕ → SensitivityResult ℤ
unused c = record {
  raw_score = pos 0;
  neighborhood_mean = pos 0;
  neighborhood_std = pos 0;
  robust_score = pos 0;
  neighbors_used = 0;
}

abbrev decision : Result (SelectionDecision ℤ)
decision =
    run_selection whole log no_sample normal same_params unused
      (candidate 7 9 false ∷ candidate 3 5 true ∷ candidate 4 6 true ∷ []) [] arguments

picked : Result (SelectionDecision ℤ) → List ℕ
picked (ok d) = elim d.best_trial_id [ some id ↦ id ∷ d.ranking | none ↦ d.ranking ]
picked (raise e) = []

-- The best score does not satisfy the constraints.
best_accepted : picked decision ≡ 4 ∷ 4 ∷ 3 ∷ 7 ∷ []
unfolding run_selection compute_pbo is_overfit enumerate_splits sorted_desc whole_arith picked
best_accepted = refl

whole-EqOfOrder : EqOfOrder whole
whole-EqOfOrder a b = ground arith

run_selection-IsDecision_example :
    ((d : SelectionDecision ℤ) × (decision ≡ ok d)
      × IsDecision whole log no_sample normal same_params unused whole-IsOrdered whole-EqOfOrder
          arguments
          (candidate 7 9 false ∷ candidate 3 5 true ∷ candidate 4 6 true ∷ [])
          d)
    ⊎ ((e : Error) × (decision ≡ raise e)
        × (pbo_of whole log no_sample normal same_params unused arguments (
              top_k_candidates whole log no_sample normal same_params unused
                (candidate 7 9 false ∷ candidate 3 5 true ∷ candidate 4 6 true ∷ [])
                50)
            ≡ raise e))
run_selection-IsDecision_example =
    run_selection-IsDecision whole log no_sample normal same_params unused whole-IsOrdered
      whole-EqOfOrder (candidate 7 9 false) (candidate 3 5 true ∷ candidate 4 6 true ∷ []) []
      arguments
