-- ===== src/Optimizer/Examples.antt =====
-- Tests of the grid and of the driver, and the theorems at concrete inputs.
use strategy_gpt.Optimizer.Driver.{IsOptimum, optimize-IsOptimum}
use strategy_gpt.Optimizer.Grid.{Has, Chooses, grid_candidates_lem}
use mathlib.Core.Option.{some, none}
use strategy_gpt.Prelude.Samples.{whole_arith, whole, whole-IsOrdered}
use strategy_gpt.Prelude.Result.{Result, Error, ok, raise}
use strategy_gpt.Prelude.{length, List, ◌≡◌, ◌∷◌, not, ◌+◌, ◌↔◌, ◌==◌, ◌⊎◌, refl, ◌++◌, ℕ, []}
use strategy_gpt.Optimizer.{
  grid_candidates, ParamSet, optimize, OptimizerResult, grid_count, EvaluationOutcome, attempt,
}
use strategy_gpt.Prelude.Dict.{Dict, values}
use strategy_gpt.Prelude.Int.{ℤ, pos}

abbrev grid : Dict (List ℕ)
grid = ("lookback", 10 ∷ 20 ∷ []) ∷ ("threshold", 5 ∷ 6 ∷ []) ∷ []

second_key_varies_first :
    grid_candidates grid
    ≡ (("lookback", 10) ∷ ("threshold", 5) ∷ [])
      ∷ (("lookback", 10) ∷ ("threshold", 6) ∷ [])
      ∷ (("lookback", 20) ∷ ("threshold", 5) ∷ [])
      ∷ (("lookback", 20) ∷ ("threshold", 6) ∷ [])
      ∷ []
unfolding grid_candidates
second_key_varies_first = refl

grid_candidates_lem_example :
    (length (grid_candidates grid) ≡ grid_count grid)
    × (Has (("lookback", 20) ∷ ("threshold", 5) ∷ []) (grid_candidates grid)
        ↔ Chooses grid (("lookback", 20) ∷ ("threshold", 5) ∷ []))
grid_candidates_lem_example = grid_candidates_lem grid (("lookback", 20) ∷ ("threshold", 5) ∷ [])

-- The metrics of a candidate are its values; the score is their sum, and 26 violates a constraint.
abbrev evaluate : ParamSet ℕ → ℕ → Result (List ℕ) × ℕ
evaluate params w = (ok (values params), w + 1)

abbrev total : List ℕ → ℕ
total [] = 0
total (x ∷ xs) = x + total xs

abbrev score : List ℕ → Result (EvaluationOutcome ℤ)
score metrics = ok (record { accepted = not (total metrics == 26); score = pos (total metrics) })

abbrev found : Result (OptimizerResult ℤ ℕ (List ℕ)) × ℕ
found = optimize whole evaluate score (some (pos 16)) (grid_candidates grid) 0

-- The keys' values of the best trial, the count of the rejected ones and the calls of `evaluate`.
summary : Result (OptimizerResult ℤ ℕ (List ℕ)) × ℕ → List ℕ
summary (ok r, w) = elim r.best [
  | some t ↦ values t.params ++ r.rejected_count ∷ w ∷ []
  | none ↦ []
]
summary (raise e, w) = []

best_of_grid : summary found ≡ 20 ∷ 5 ∷ 2 ∷ 4 ∷ []
unfolding optimize grid_candidates whole_arith summary
best_of_grid = refl

optimize-IsOptimum_example :
    ((r : OptimizerResult ℤ ℕ (List ℕ)) × (w : ℕ) × (found ≡ (ok r, w))
      × IsOptimum whole (some (pos 16)) (grid_candidates grid) r)
    ⊎ ((e : Error) × (p : ParamSet ℕ) × (v : ℕ) × (w : ℕ) × (found ≡ (raise e, w))
        × (attempt whole evaluate score (some (pos 16)) p v ≡ (raise e, w)))
optimize-IsOptimum_example =
    optimize-IsOptimum whole whole-IsOrdered evaluate score (some (pos 16)) (grid_candidates grid) 0
