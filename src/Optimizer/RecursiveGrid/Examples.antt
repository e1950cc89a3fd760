-- ===== src/Optimizer/RecursiveGrid/Examples.antt =====
-- The recursive grid on two parameters, and the theorems there.
use strategy_gpt.Prelude.Sorting.{sorted_desc}
use strategy_gpt.Optimizer.RecursiveGrid.Clipping.{IsRound, observe-IsRound, of_ok}
use strategy_gpt.Prelude.{
  ℕ, List, [], ◌∷◌, ◌≡◌, Option, some, none, true, false, refl, arith, map, length, zero, suc, ◌+◌,
  ◌++◌, length-map,
}
use strategy_gpt.Prelude.Dict.{lookup, values}
use strategy_gpt.Prelude.Int.{ℤ, pos, ◌+ℤ◌}
use strategy_gpt.Prelude.Result.{Result, ok, raise, ◌>>=◌}
use strategy_gpt.Prelude.Samples.{whole, whole_arith, whole-IsOrdered}
use strategy_gpt.Optimizer.{int_param, choice_param, ParamSet, Trial, EvaluationOutcome, result_of}
use strategy_gpt.Optimizer.RecursiveGrid.{
  Numbers, round_candidates, shrink_box, dim_grid_points, all_converged,
}
use strategy_gpt.Optimizer.RecursiveGrid.Search.{
  RecursiveGridSearcher, Random, drive, new_driver, search, validate, observe, RecursiveGridDriver,
  driver_candidates,
}
use strategy_gpt.Optimizer.RecursiveGrid.Rounds.{drive-search, IsOnePerCandidate, reseeded}

abbrev numbers : Numbers ℤ ℤ
numbers = record { of_float = λ x. x; of_int = λ x. x; as_float = λ x. x; round = λ x. x }

abbrev searcher : RecursiveGridSearcher ℤ ℤ
searcher = record {
  space =
      ("lookback", int_param (pos 0) (pos 20)) ∷ ("mode", choice_param (pos 1 ∷ pos 2 ∷ [])) ∷ [];
  resolution = 3;
  top_k = 10;
  depth = 3;
  plateau_epsilon = pos 1;
  seed = pos 7;
  per_dim_resolution = ("lookback", 5) ∷ [];
}

-- A generator that never changes the order; it counts its calls.
abbrev in_order : ℕ → List ℕ
in_order zero = []
in_order (suc n) = in_order n ++ n ∷ []

abbrev random : Random ℤ
random = record { seeded = λ seed. seed; shuffle = λ n rng. (in_order n, rng) }

-- The metrics of a candidate are its values, and its score is the first; the world counts batches.
abbrev evaluate_batch : List (ParamSet ℤ) → ℕ → Result (List (List ℤ)) × ℕ
evaluate_batch ps w = (ok (map values ps), w + 1)

abbrev score : List ℤ → Result (EvaluationOutcome ℤ)
score [] = ok (record { accepted = false; score = pos 0 })
score (x ∷ xs) = ok (record { accepted = true; score = x })

abbrev counts : Option (Result (List (Trial ℤ ℤ (List ℤ))) × ℕ) → List ℕ
counts none = []
counts (some (raise e, w)) = []
counts (some (ok trials, w)) = length trials ∷ w ∷ []

valid : validate whole searcher ≡ ok tt
unfolding validate whole_arith lookup
valid = refl

one_each : IsOnePerCandidate whole numbers random evaluate_batch score searcher
one_each ps w entries h =
    of_ok (λ (ms : List (List ℤ)). length ms ≡ length ps) h (length-map ps values)

drive-search_example :
    (trials : Result (List (Trial ℤ ℤ (List ℤ)))) × (w' : ℕ) × (drive whole numbers random
        evaluate_batch score searcher 3
        (new_driver whole numbers random evaluate_batch score searcher (pos 1000003))
        []
        0
      ≡ some (trials, w'))
    × (search whole numbers random evaluate_batch score
          (reseeded whole numbers random evaluate_batch score searcher
            (searcher.seed +ℤ pos 1000003))
          none
          0
        ≡ (trials >>= λ ts. ok (result_of whole ts), w'))
drive-search_example =
    drive-search whole numbers random evaluate_batch score searcher (pos 1000003) 3 0 valid
      (tt, (omega arith, tt)) (omega arith) one_each

-- The ten best cells are all of them, so that no round shrinks the box.
three_rounds :
    counts (
      drive whole numbers random evaluate_batch score searcher 3
        (new_driver whole numbers random evaluate_batch score searcher (pos 0))
        []
        0)
    ≡ 30 ∷ 3 ∷ []
unfolding drive observe round_candidates dim_grid_points shrink_box all_converged driver_candidates
    whole_arith lookup sorted_desc
three_rounds = refl

abbrev first_driver : RecursiveGridDriver whole numbers random evaluate_batch score searcher
first_driver = new_driver whole numbers random evaluate_batch score searcher (pos 0)

abbrev trial_at : ℤ → Trial ℤ ℤ (List ℤ)
trial_at x = record {
  params = ("lookback", x) ∷ ("mode", pos 1) ∷ [];
  metrics = x ∷ pos 1 ∷ [];
  outcome = record { accepted = true; score = x };
  accepted = true;
}

abbrev ends : List (Trial ℤ ℤ (List ℤ))
ends = trial_at (pos 0) ∷ trial_at (pos 20) ∷ []

abbrev second_driver : RecursiveGridDriver whole numbers random evaluate_batch score searcher
second_driver = record {
  box = ((pos 0, pos 20), (pos 1 ∷ pos 2 ∷ [], tt));
  rng = pos 7;
  round_index = 1;
  done = false;
}

ends_observed :
    observe whole numbers random evaluate_batch score searcher ends first_driver ≡ ok second_driver
unfolding observe shrink_box all_converged whole_arith lookup sorted_desc
ends_observed = refl

observe-IsRound_example :
    IsRound whole numbers random evaluate_batch score searcher whole-IsOrdered first_driver
      second_driver
observe-IsRound_example =
    observe-IsRound whole numbers random evaluate_batch score searcher whole-IsOrdered ends
      first_driver second_driver ends_observed
