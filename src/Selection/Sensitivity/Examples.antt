-- ===== src/Selection/Sensitivity/Examples.antt =====
-- The robust score of a candidate among three trials, with whole numbers as floats.
use strategy_gpt.Prelude.{
  map, Bool, List, [], ◌∷◌, ◌≡◌, ◌⊎◌, Option, some, none, if◌then◌else◌, true, not, ◌&&◌, refl,
}
use strategy_gpt.Prelude.Dict.{lookup, assign}
use strategy_gpt.Prelude.Int.{ℤ, pos, ltb_ℤ}
use strategy_gpt.Prelude.Samples.{whole, whole_arith, whole-IsOrdered}
use strategy_gpt.Prelude.Sorting.{sorted_desc}
use strategy_gpt.Selection.Candidates.{SensitivityResult}
use strategy_gpt.Selection.Sensitivity.{SensitivityKnobs, TrialPoint, compute_sensitivity}
use strategy_gpt.Selection.Sensitivity.Nearest.{
  IsNearest, unchanged, FiniteScores, measured, compute_sensitivity-IsNearest,
}

-- From 15 on, a value stands for a category.
abbrev number : ℤ → Option ℤ
number x = if ltb_ℤ x (pos 15) then some x else none

abbrev same : ℤ → ℤ → Bool
same a b = not (ltb_ℤ a b) && not (ltb_ℤ b a)

-- A score below a thousand counts as finite.
abbrev is_finite : ℤ → Bool
is_finite x = ltb_ℤ x (pos 1000)

abbrev pstdev : List ℤ → ℤ
pstdev xs = pos 2

abbrev at : ℤ → ℤ → TrialPoint ℤ ℤ
at x score = record { params = ("lookback", x) ∷ []; score = score }

abbrev trials : List (TrialPoint ℤ ℤ)
trials = at (pos 20) (pos 100) ∷ at (pos 10) (pos 6) ∷ at (pos 11) (pos 2000) ∷ []

abbrev knobs : SensitivityKnobs ℤ
knobs = record { enabled = true; neighborhood_k = 2; penalty = pos 1 }

abbrev robust : SensitivityResult ℤ
robust = compute_sensitivity whole number same is_finite pstdev (at (pos 10) (pos 8)) trials knobs

compute_sensitivity-IsNearest_example :
    (pool : List (TrialPoint ℤ ℤ)) × FiniteScores whole whole-IsOrdered number same is_finite pstdev
      (at (pos 10) (pos 8) ∷ trials)
      pool
    × (((pool ≡ [])
          × (robust ≡ unchanged whole whole-IsOrdered number same is_finite pstdev (pos 8)))
        ⊎ IsNearest whole whole-IsOrdered number same is_finite pstdev knobs
            (pos 8)
            (map
              (measured whole whole-IsOrdered number same is_finite pstdev
                (at (pos 10) (pos 8))
                trials)
              pool)
            robust)
compute_sensitivity-IsNearest_example =
    compute_sensitivity-IsNearest whole whole-IsOrdered number same is_finite pstdev
      (at (pos 10) (pos 8)) trials knobs

-- The mean of 8 and 6, less the spread.
robust_score_of_two : robust.robust_score ≡ pos 5
unfolding compute_sensitivity sorted_desc whole_arith lookup assign
robust_score_of_two = refl
