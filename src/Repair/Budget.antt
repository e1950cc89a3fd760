-- ===== src/Repair/Budget.antt =====
-- How the repair budget bounds a stage.
use strategy_gpt.Prelude.{
  ℕ, zero, suc, ◌+◌, ◌≡◌, refl, sym, subst, ap, ◌∙◌, true, List, [], ◌∷◌, ◌++◌, arith, inl, inr,
  Bool-cases, Option-cases, if_true, if_false, get_last?,
}
use strategy_gpt.Prelude.Int.{pos, negsuc}
use strategy_gpt.Prelude.Result.{Result, ok, raise, index_error}
use strategy_gpt.Repair.{
  Text, ValidationOutcome, RepairAttempt, StageRepairResult, synthesize_repair_feedback, exhausted,
  attempt_rounds, run_stage_with_repair,
}
use strategy_gpt.Repair.Trail.{attempt_at, world_after}

module _ {P W : Type 0} (emit_fn : Text → W → Text × W)
    (validate_fn : Text → W → ValidationOutcome P × W) (stage : ℕ) where
  exhausted_refuses :
      (attempts : List (RepairAttempt P)) (r : StageRepairResult P)
      → exhausted emit_fn validate_fn stage attempts ≡ ok r
      → ¬ (r.accepted ≡ true)
  unfolding exhausted
  exhausted_refuses attempts r h t = elim (Option-cases (get_last? attempts)) [
    | inl e ↦ ground arith
    | inr (a, e) ↦ ground arith
  ]

  more_rounds :
      (rounds extra idx : ℕ) (feedback : Text) (before : List (RepairAttempt P)) (w w' : W)
      (r : StageRepairResult P)
      → attempt_rounds emit_fn validate_fn stage rounds idx feedback before w ≡ (ok r, w')
      → r.accepted ≡ true
      → attempt_rounds emit_fn validate_fn stage (rounds + extra) idx feedback before w ≡ (ok r, w')
  unfolding attempt_rounds
  more_rounds zero extra idx feedback before w w' r h t =
      absurd (exhausted_refuses before r (ap (λ (o : Result (StageRepairResult P) × W). o.0) h) t)
  more_rounds (suc rounds) extra idx feedback before w w' r h t =
      let e : suc rounds + extra ≡ suc (rounds + extra) = omega arith in
      let a = attempt_at emit_fn validate_fn stage idx feedback w in
      rw e (elim (Bool-cases a.outcome.accepts) [
        | inl y ↦ if_true _ _ y ∙ sym (if_true _ _ y) ∙ h
        | inr f ↦
            if_false _ _ f
            ∙ more_rounds rounds extra (idx + 1)
                (synthesize_repair_feedback a.outcome stage a.response) (before ++ a ∷ [])
                (world_after emit_fn validate_fn stage feedback w) w' r (sym (if_false _ _ f) ∙ h) t
      ])

  -- A stage that is accepted within a budget of `k` repairs has the same result, and leaves the
  -- same world, under every larger budget.
  pub larger_budget :
      (k extra : ℕ) (w w' : W) (r : StageRepairResult P)
      → run_stage_with_repair emit_fn validate_fn stage (record { k_repair = pos k }) w ≡ (ok r, w')
      → r.accepted ≡ true
      → run_stage_with_repair emit_fn validate_fn stage (record { k_repair = pos (k + extra) }) w
        ≡ (ok r, w')
  unfolding run_stage_with_repair
  larger_budget k extra w w' r h t =
      subst (λ n. attempt_rounds emit_fn validate_fn stage n 0 [] [] w ≡ (ok r, w'))
        {x = suc k + extra} {y = suc (k + extra)} (omega arith)
        (more_rounds (suc k) extra 0 [] [] w w' r h t)

  -- A negative budget is the one case in which the driver raises: no attempt is made, so
  -- `attempts[-1]` fails, and the world is left as it was.
  pub negative_budget :
      (k : ℕ) (w : W)
      → run_stage_with_repair emit_fn validate_fn stage (record { k_repair = negsuc k }) w
        ≡ (raise index_error, w)
  unfolding run_stage_with_repair exhausted
  negative_budget k w = refl
