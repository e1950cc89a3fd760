-- ===== src/Repair.antt =====
-- python/strategy_gpt/repair.py: one stage with its repair budget. The emitter and the validator
-- are the caller's, and may change the outside world `W`; texts are lists of code points.
pub mod Budget
pub mod Trail
pub mod Feedback
mod Examples
use Prim.Native.Char.{code}
use Prim.Native.String
use text.Mathlib.Text.{◌==◌}
use strategy_gpt.Prelude.{
  ℕ, zero, suc, ◌+◌, ◌-◌, ◌/◌, ◌%◌, String, Bool, true, false, Option, none, some, List, [], ◌∷◌,
  ◌++◌, ltb, if◌then◌else◌, length, take, drop, get_last?,
}
use strategy_gpt.Prelude.Int.{ℤ, pos, negsuc}
use strategy_gpt.Prelude.Result.{Result, ok, raise, index_error}

abbrev pub Text : Type 0
Text = List ℕ

abbrev pub codes : String → Text
codes String.[] = []
codes (String.◌∷◌ c s) = code c ∷ codes s

pub record ValidationOutcome (P : Type 0) : Type 0 where
  pub accepts : Bool
  pub kind : String
  pub feedback : Text
  pub parsed : Option P

pub record RepairAttempt (P : Type 0) : Type 0 where
  pub index : ℕ
  pub response : Text
  pub outcome : ValidationOutcome P

pub record StageRepairResult (P : Type 0) : Type 0 where
  pub stage : ℕ
  pub accepted : Bool
  pub final_response : Text
  pub final_parsed : Option P
  pub final_reject_kind : String
  pub attempts : List (RepairAttempt P)

pub record RepairConfig : Type 0 where
  pub k_repair : ℤ

abbrev pub prev_response_max_chars : ℕ
prev_response_max_chars = 8000

-- `"\n"`
abbrev newline : Text
newline = 10 ∷ []

-- `"\n".join(parts)`
join_lines : List Text → Text
join_lines [] = []
join_lines (p ∷ []) = p
join_lines (p ∷ q ∷ ps) = p ++ (newline ++ join_lines (q ∷ ps))

-- `s[-n:]`
abbrev last_chars : ℕ → Text → Text
last_chars n s = drop (length s - n) s

truncation_mark : Text
truncation_mark = newline ++ (codes "... [truncated] ..." ++ newline)

-- What is quoted of the previous emission.
pub excerpt : Text → Text
unfolding truncation_mark
excerpt s =
    if ltb prev_response_max_chars (length s)
    then take 4000 s ++ (truncation_mark ++ last_chars 4000 s)
    else s

-- `str(n)`; `n` is fuel enough for its own digits.
decimal_digits : ℕ → ℕ → Text
decimal_digits zero n = []
decimal_digits (suc fuel) n =
    let front = decimal_digits fuel (n / 10) in
    if ltb n 10 then (48 + n) ∷ [] else front ++ (48 + n % 10) ∷ []

decimal : ℕ → Text
unfolding decimal_digits
decimal n = decimal_digits (suc n) n

opening_part : {P : Type 0} → ValidationOutcome P → ℕ → Text
unfolding decimal
opening_part outcome stage =
    codes "Your previous stage-"
    ++ (decimal stage ++ (codes " attempt was rejected as `" ++ (codes outcome.kind ++ codes "`.")))

-- `outcome.feedback or "(no validator feedback)"`
feedback_part : Text → Text
feedback_part [] = codes "(no validator feedback)"
feedback_part (c ∷ cs) = c ∷ cs

-- The parts that are there only for a response that is given and not empty.
quoted_parts : Text → List Text
unfolding excerpt
quoted_parts [] = []
quoted_parts (c ∷ cs) =
    []
    ∷ codes "Your previous emission was:"
    ∷ codes "<<<PREVIOUS_EMISSION"
    ∷ excerpt (c ∷ cs)
    ∷ codes "PREVIOUS_EMISSION>>>"
    ∷ []

closing_parts : List Text
closing_parts =
    []
    ∷ (codes "Re-emit the same stage following the same contract. Fix the "
        ++ (codes "specific issue(s) named above; keep everything that already "
            ++ (codes "worked. Earlier stages (if any) remain locked and MUST NOT be "
                ++ codes "re-opened.")))
    ∷ []

unfoldable pub synthesize_repair_feedback : {P : Type 0} → ValidationOutcome P → ℕ → Text → Text
unfolding join_lines opening_part feedback_part quoted_parts closing_parts
synthesize_repair_feedback outcome stage prev_response = join_lines (
    opening_part outcome stage
    ∷ feedback_part outcome.feedback
    ∷ (quoted_parts prev_response ++ closing_parts))

-- `last.outcome.kind or "exhausted_repair_budget"`
pub kind_or_exhausted : String → String
kind_or_exhausted kind = if kind == "" then "exhausted_repair_budget" else kind

module _ {P W : Type 0} (emit_fn : Text → W → Text × W)
    (validate_fn : Text → W → ValidationOutcome P × W) (stage : ℕ) where
  pub passed : List (RepairAttempt P) → Text → ValidationOutcome P → StageRepairResult P
  passed attempts response outcome = record {
    stage = stage;
    accepted = true;
    final_response = response;
    final_parsed = outcome.parsed;
    final_reject_kind = "ok";
    attempts = attempts;
  }

  -- After the loop: `attempts[-1]` of an empty list is an `IndexError`.
  pub exhausted : List (RepairAttempt P) → Result (StageRepairResult P)
  unfolding kind_or_exhausted
  exhausted attempts = elim (get_last? attempts) [
    | none ↦ raise index_error
    | some last ↦ ok (record {
      stage = stage;
      accepted = false;
      final_response = last.response;
      final_parsed = none;
      final_reject_kind = kind_or_exhausted last.outcome.kind;
      attempts = attempts;
    })
  ]

  -- `for attempt_idx in range(...)`, with the rounds that are left.
  pub attempt_rounds :
      (rounds attempt_idx : ℕ) (feedback : Text) (attempts : List (RepairAttempt P)) (w : W)
      → Result (StageRepairResult P) × W
  unfolding passed exhausted
  attempt_rounds zero attempt_idx feedback attempts w = (exhausted attempts, w)
  attempt_rounds (suc rounds) attempt_idx feedback attempts w =
      let (response, w₁) = emit_fn feedback w in
      let (outcome, w₂) = validate_fn response w₁ in
      let attempts' =
        attempts ++ record { index = attempt_idx; response = response; outcome = outcome } ∷ [] in
      let again =
        attempt_rounds rounds (attempt_idx + 1) (synthesize_repair_feedback outcome stage response)
          attempts' w₂ in
      if outcome.accepts then (ok (passed attempts' response outcome), w₂) else again

  -- `range(config.k_repair + 1)`
  pub budget_rounds : RepairConfig → ℕ
  budget_rounds config = elim config.k_repair [ pos k ↦ suc k | negsuc k ↦ 0 ]

  unfoldable pub run_stage_with_repair : RepairConfig → W → Result (StageRepairResult P) × W
  unfolding attempt_rounds budget_rounds
  run_stage_with_repair config w = attempt_rounds (budget_rounds config) 0 [] [] w
