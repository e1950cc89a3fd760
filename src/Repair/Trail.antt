-- ===== src/Repair/Trail.antt =====
-- What a run of a stage with its budget did: the attempts that it returns are the transcript of the
-- calls that it made, and the result is read off the last of them.
use mathlib.Core.List.{append_assoc}
use strategy_gpt.Prelude.{
  ℕ, zero, suc, ◌+◌, ◌≤◌, ◌≡◌, ◌∙◌, ap, refl, false, none, List, [], ◌∷◌, ◌++◌, ◌⊎◌, inl, inr,
  if_false, arith, if◌then◌else◌, Bool-cases, length, get_last?-append, true, All,
}
use strategy_gpt.Prelude.Result.{Result, ok}
use strategy_gpt.Repair.{
  Text, ValidationOutcome, RepairAttempt, StageRepairResult, synthesize_repair_feedback,
  kind_or_exhausted, attempt_rounds,
}

module _ {P W : Type 0} (emit_fn : Text → W → Text × W)
    (validate_fn : Text → W → ValidationOutcome P × W) (stage : ℕ) where
  -- One attempt: the emitter's answer to `feedback`, and the validator's to that.
  abbrev pub attempt_at : ℕ → Text → W → RepairAttempt P
  attempt_at idx feedback w = record {
    index = idx;
    response = (emit_fn feedback w).0;
    outcome = (validate_fn (emit_fn feedback w).0 (emit_fn feedback w).1).0;
  }

  abbrev pub world_after : Text → W → W
  world_after feedback w = (validate_fn (emit_fn feedback w).0 (emit_fn feedback w).1).1

  -- The attempts from number `idx` on are what the two callbacks give when the emitter is first
  -- called with `feedback` in the world `w`, and then with the feedback on the attempt before; they
  -- leave the world `w'`.
  abbrev pub IsTranscript : ℕ → Text → W → List (RepairAttempt P) → W → Type 0
  IsTranscript idx feedback w [] w' = w ≡ w'
  IsTranscript idx feedback w (a ∷ rest) w' =
      (a ≡ attempt_at idx feedback w)
      × IsTranscript (idx + 1) (synthesize_repair_feedback a.outcome stage a.response)
          (world_after feedback w) rest w'

  -- The result that the last attempt decides.
  abbrev pub verdict : RepairAttempt P → List (RepairAttempt P) → StageRepairResult P
  verdict last attempts = record {
    stage = stage;
    accepted = last.outcome.accepts;
    final_response = last.response;
    final_parsed = if last.outcome.accepts then last.outcome.parsed else none;
    final_reject_kind = if last.outcome.accepts then "ok" else kind_or_exhausted last.outcome.kind;
    attempts = attempts;
  }

  pub record Answer (rounds idx : ℕ) (feedback : Text) (before : List (RepairAttempt P)) (w : W)
      (out : Result (StageRepairResult P) × W) : Type 0 where
    pub earlier : List (RepairAttempt P)
    pub last : RepairAttempt P
    pub world : W
    pub returns : out ≡ (ok (verdict last (before ++ (earlier ++ last ∷ []))), world)
    pub transcript : IsTranscript idx feedback w (earlier ++ last ∷ []) world
    pub failed : All (λ (a : RepairAttempt P). a.outcome.accepts ≡ false) earlier
    pub within : length earlier ≤ rounds
    pub used_up : (last.outcome.accepts ≡ true) ⊎ (length earlier ≡ rounds)

  pub attempt_rounds-Answer :
      (rounds idx : ℕ) (feedback : Text) (before : List (RepairAttempt P)) (w : W)
      → Answer rounds idx feedback before w
          (attempt_rounds emit_fn validate_fn stage (suc rounds) idx feedback before w)
  unfolding attempt_rounds
  attempt_rounds-Answer zero idx feedback before w = record {
    earlier = [];
    last = attempt_at idx feedback w;
    world = world_after feedback w;
    returns = ground (arith, get_last?-append before (attempt_at idx feedback w));
    transcript = (refl, refl);
    failed = tt;
    within = omega arith;
    used_up = inr refl;
  }
  attempt_rounds-Answer (suc rounds) idx feedback before w =
      elim (Bool-cases (attempt_at idx feedback w).outcome.accepts) [
        | inl t ↦ record {
          earlier = [];
          last = attempt_at idx feedback w;
          world = world_after feedback w;
          returns = ground arith;
          transcript = (refl, refl);
          failed = tt;
          within = omega arith;
          used_up = inl t;
        }
        | inr f ↦
            let a = attempt_at idx feedback w in
            let next =
              attempt_rounds-Answer rounds (idx + 1)
                (synthesize_repair_feedback a.outcome stage a.response) (before ++ a ∷ [])
                (world_after feedback w) in
            record {
              earlier = a ∷ next.earlier;
              last = next.last;
              world = next.world;
              returns =
                  if_false _ _ f
                  ∙ next.returns
                  ∙ ap (λ l. (ok (verdict next.last l), next.world))
                      (append_assoc before (a ∷ []) (next.earlier ++ next.last ∷ []));
              transcript = (refl, next.transcript);
              failed = (f, next.failed);
              within = omega (arith, next.within);
              used_up = ground (arith, next.used_up);
            }
      ]
