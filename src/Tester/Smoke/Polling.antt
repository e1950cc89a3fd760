-- ===== src/Tester/Smoke/Polling.antt =====
-- The polling loop ends with the first status that decides it or the first reading past the
-- deadline, and it drops its handle once, at the end.
use strategy_gpt.Prelude.Result.{Result, ok, raise, Error}
use strategy_gpt.Prelude.{
  String, Bool, ℕ, List, suc, [], ◌≡◌, ◌+◌, none, ◌∷◌, zero, Option, true, false,
}
use strategy_gpt.Prelude.Floats.{Float}
use strategy_gpt.Tester.Smoke.{
  in_progress, completed, failed, cancelled, smoke_failed, was_cancelled, timeout, RunEntry,
  classify_smoke_completed, error_kind, SmokePolicy, JobStatus, SmokeOutcome, EngineCall, ends_at,
  polled,
}

module _ {M F : Type 0} (f : Float F) (sanity_violation : String → Bool) (policy : SmokePolicy)
    (poll : ℕ → Result (JobStatus M)) (clock : ℕ → F) (deadline : F) where
  -- The polls from `n` on, `count` of them.
  abbrev pub polls : ℕ → ℕ → List (EngineCall f sanity_violation policy poll clock deadline)
  polls n zero = []
  polls n (suc count) = polled n ∷ polls (n + 1) count

  -- The run ends with the `n`-th poll, and how: the poll raises, the job has ended, or it has not
  -- and the clock is at the deadline.
  pub data EndsWith (n : ℕ) : Result (SmokeOutcome M) → Type 0 where
    engine_raises : {e : Error} → poll n ≡ raise e → EndsWith n (raise e)
    job_completed :
        {results : List (RunEntry M)}
        → poll n ≡ ok (completed results)
        → EndsWith n (classify_smoke_completed f sanity_violation policy results)
    job_failed :
        {error : Option String}
        → poll n ≡ ok (failed error)
        → EndsWith n (ok (smoke_failed (error_kind sanity_violation error)))
    job_cancelled : poll n ≡ ok cancelled → EndsWith n (ok (smoke_failed was_cancelled))
    past_deadline :
        poll n ≡ ok in_progress
        → f.le deadline (clock n) ≡ true
        → EndsWith n (ok (smoke_failed timeout))

  -- For `count` polls from `n` on, the job is in progress and the clock is before the deadline.
  abbrev pub Waiting : ℕ → ℕ → Type 0
  Waiting n zero = Unit
  Waiting n (suc count) =
      (poll n ≡ ok in_progress) × (f.le deadline (clock n) ≡ false) × Waiting (n + 1) count

  abbrev Undecided : ℕ → ℕ → Type 0
  Undecided n zero = Unit
  Undecided n (suc count) =
      (ends_at f sanity_violation policy poll clock deadline n ≡ none) × Undecided (n + 1) count
