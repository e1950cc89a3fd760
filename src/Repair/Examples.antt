-- ===== src/Repair/Examples.antt =====
-- Tests of the repair driver, and its theorems at concrete callbacks: the emitter counts its calls,
-- and the validator accepts the third of them.
use strategy_gpt.Prelude.{ℕ, ◌+◌, ◌≡◌, refl, true, some, [], ◌∷◌, leb, take}
use strategy_gpt.Prelude.Int.{pos, negsuc}
use strategy_gpt.Prelude.Result.{ok, raise, index_error}
use strategy_gpt.Repair.{
  Text, ValidationOutcome, StageRepairResult, codes, synthesize_repair_feedback,
  run_stage_with_repair,
}
use strategy_gpt.Repair.Budget.{negative_budget}

abbrev emit : Text → ℕ → Text × ℕ
emit feedback calls = ((calls + 1) ∷ [], calls + 1)

abbrev check : Text → ℕ → ValidationOutcome ℕ × ℕ
check response calls = (
  record { accepts = leb 3 calls; kind = "reject_build"; feedback = []; parsed = some calls },
  calls,
)

accepted_third :
    (r : StageRepairResult ℕ) × (run_stage_with_repair emit check 3 (record { k_repair = pos 2 }) 0
      ≡ (ok r, 3))
    × (r.accepted ≡ true)
    × (r.final_parsed ≡ some 3)
unfolding run_stage_with_repair synthesize_repair_feedback
accepted_third = (_, refl, refl, refl)

first_line :
    take 41 (synthesize_repair_feedback (check [] 0).0 3 [])
    ≡ codes "Your previous stage-3 attempt was rejecte"
unfolding synthesize_repair_feedback
first_line = refl

negative_budget_example :
    run_stage_with_repair emit check 3 (record { k_repair = negsuc 0 }) 0 ≡ (raise index_error, 0)
negative_budget_example = negative_budget emit check 3 0 0
