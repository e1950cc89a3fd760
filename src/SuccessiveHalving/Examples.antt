-- ===== src/SuccessiveHalving/Examples.antt =====
-- Tests of the cascade, and its theorems with an engine that scores the run of candidate `p` with `p`.
use strategy_gpt.Prelude.{
  ℕ, ◌+◌, ◌*◌, ◌≤◌, ◌≡◌, refl, true, some, List, [], ◌∷◌, map, length, length-map, arith,
}
use strategy_gpt.Prelude.Int.{ℤ, pos}
use strategy_gpt.Prelude.Result.{ok}
use strategy_gpt.Prelude.Samples.{whole, whole_arith}
use strategy_gpt.Prelude.Sorting.{sorted_desc}
use strategy_gpt.SuccessiveHalving.{
  SuccessiveHalvingKnobs, Outcome, TrialRow, rung_budgets, rung_survivor_counts, planned_run_count,
  search_global,
}
use strategy_gpt.SuccessiveHalving.Rungs.{
  IsSchedule, IsHalving, rung_budgets-IsSchedule, rung_survivor_counts-IsHalving,
}
use strategy_gpt.SuccessiveHalving.Runs.{search_global_lem}

abbrev knobs : SuccessiveHalvingKnobs
knobs = record { initial_candidates = 4; eta = 2; initial_folds = 1 }

budgets_of_five : rung_budgets 1 2 5 ≡ some (1 ∷ 2 ∷ 4 ∷ 5 ∷ [])
unfolding rung_budgets
budgets_of_five = refl

-- Four candidates on one fold, two on two, one on three, and nine runs of the cross-validation.
planned_of_three : planned_run_count knobs 3 ≡ some (ok (4 * 1 + 2 * 2 + 1 * 3 + 9))
unfolding planned_run_count
planned_of_three = refl

abbrev outcome_of : ℕ × ℕ → Outcome ℤ
outcome_of run = record { accepted = true; score = pos run.0 }

abbrev engine : List (ℕ × ℕ) → ℕ → List (Outcome ℤ) × ℕ
engine runs w = (map outcome_of runs, w + 1)

rung_budgets-IsSchedule_example :
    (budgets : List ℕ) × (rung_budgets 1 2 5 ≡ some budgets) × IsSchedule 1 2 5 budgets
rung_budgets-IsSchedule_example = rung_budgets-IsSchedule 1 2 5 (omega arith) (omega arith)

rung_survivor_counts-IsHalving_example :
    (length (rung_survivor_counts 64 3 4) ≡ 4)
    × (rest : List ℕ) × (rung_survivor_counts 64 3 4 ≡ 64 ∷ rest)
    × IsHalving 64 3 rest
rung_survivor_counts-IsHalving_example =
    rung_survivor_counts-IsHalving 64 3 4 (omega arith) (omega arith) (omega arith)

sixty_four : rung_survivor_counts 64 3 4 ≡ 64 ∷ 22 ∷ 8 ∷ 3 ∷ []
unfolding rung_survivor_counts
sixty_four = refl

-- The best candidate survives the three rungs, each of them one batch.
survivor :
    (elim (search_global whole engine knobs 3 (7 ∷ 9 ∷ 3 ∷ 8 ∷ []) 0) [
      | some (ok (rows, last), w) ↦ (length rows ∷ w ∷ last)
      | _ ↦ []
    ])
    ≡ 11 ∷ 3 ∷ 9 ∷ []
unfolding search_global sorted_desc whole_arith
survivor = refl

search_global_lem_example :
    (rows : List (TrialRow ℤ ℕ)) × (last : List ℕ) × (w : ℕ) × (planned : ℕ) × (search_global whole
        engine knobs 3
        (7 ∷ 9 ∷ 3 ∷ 8 ∷ [])
        0
      ≡ some (ok (rows, last), w))
    × (planned_run_count knobs 3 ≡ some (ok planned))
    × (planned ≡ length rows + 3 * 3)
    × (1 ≤ length last)
search_global_lem_example =
    search_global_lem whole engine (λ runs w. length-map runs outcome_of) knobs 3
      (7 ∷ 9 ∷ 3 ∷ 8 ∷ []) 0 (omega arith) (omega arith) (omega arith) refl
