-- ===== src/Tester/Smoke.antt =====
-- python/strategy_gpt/tester.py: the smoke run. The engine answers the `n`-th poll with `poll n`, and
-- the clock reads `clock n` after it; both are arguments. Of a failed outcome its kind is kept, of
-- an engine error whether it is a sanity violation.
pub mod Polling
use strategy_gpt.Prelude.Result.{Result, raise, ok, ◌>>=◌}
use strategy_gpt.Prelude.Floats.{Float}
use strategy_gpt.Prelude.{
  ℕ, String, List, Option, Bool, if◌then◌else◌, ◌∷◌, none, ltb, some, suc, [], ◌++◌, ◌+◌, zero,
}
use text.Mathlib.Text.{◌==◌}

pub record SmokePolicy : Type 0 where
  pub min_trades : ℕ
  pub max_sanity_trips : ℕ

-- The result of one run, by what the check reads: a failed run, or the number of trades, the
-- events of the log that name a sanity bound, and the metrics, which pydantic reads or refuses.
pub data RunEntry (M : Type 0) : Type 0 where
  run_failed : String → RunEntry M
  run_result : (trades sanity_events : ℕ) → Option (Result M) → RunEntry M

-- `JobStatus`, with a completed job's results and a failed one's error.
pub data JobStatus (M : Type 0) : Type 0 where
  in_progress : JobStatus M
  completed : List (RunEntry M) → JobStatus M
  failed : Option String → JobStatus M
  cancelled : JobStatus M

pub data SmokeKind : Type 0 where
  sanity engine_failed was_cancelled timeout empty_results bad_run sanity_trips no_trades :
      SmokeKind

pub data SmokeOutcome (M : Type 0) : Type 0 where
  smoke_failed : SmokeKind → SmokeOutcome M
  smoke_passed : (trades : ℕ) → Option M → SmokeOutcome M

-- What an engine error is.
abbrev pub error_kind : (String → Bool) → Option String → SmokeKind
error_kind sanity_violation none =
    if sanity_violation "unknown engine failure" then sanity else engine_failed
error_kind sanity_violation (some error) =
    let message = if error == "" then "unknown engine failure" else error in
    if sanity_violation message then sanity else engine_failed

module _ {M F : Type 0} (f : Float F) (sanity_violation : String → Bool)
    (policy : SmokePolicy) where
  abbrev pub passed_with : ℕ → Option (Result M) → Result (SmokeOutcome M)
  passed_with trades none = ok (smoke_passed trades none)
  passed_with trades (some metrics) = metrics >>= λ m. ok (smoke_passed trades (some m))

  abbrev pub classify_entry : RunEntry M → Result (SmokeOutcome M)
  classify_entry (run_failed message) = ok (smoke_failed bad_run)
  classify_entry (run_result trades sanity_events metrics) =
      if ltb policy.max_sanity_trips sanity_events
      then ok (smoke_failed sanity_trips)
      else if ltb trades policy.min_trades
      then ok (smoke_failed no_trades)
      else passed_with trades metrics

  -- `_classify_smoke_completed`
  abbrev pub classify_smoke_completed : List (RunEntry M) → Result (SmokeOutcome M)
  classify_smoke_completed [] = ok (smoke_failed empty_results)
  classify_smoke_completed (entry ∷ entries) = classify_entry entry

  -- What a status decides; `none` goes on to the deadline.
  abbrev pub decided : JobStatus M → Option (Result (SmokeOutcome M))
  decided in_progress = none
  decided (completed results) = some (classify_smoke_completed results)
  decided (failed error) = some (ok (smoke_failed (error_kind sanity_violation error)))
  decided cancelled = some (ok (smoke_failed was_cancelled))

  module _ (poll : ℕ → Result (JobStatus M)) (clock : ℕ → F) (deadline : F) where
    -- The calls of the engine, in order: `poll` and, in `finally`, `drop_handle`.
    pub data EngineCall : Type 0 where
      polled : ℕ → EngineCall
      dropped : EngineCall

    abbrev pub ends_at : ℕ → Option (Result (SmokeOutcome M))
    ends_at n = elim (poll n) [
      | raise e ↦ some (raise e)
      | ok status ↦ elim (decided status) [
        | some outcome ↦ some outcome
        | none ↦ if f.le deadline (clock n) then some (ok (smoke_failed timeout)) else none
      ]
    ]

    abbrev pub stop_or :
        (List EngineCall → Option (Result (SmokeOutcome M) × List EngineCall))
        → List EngineCall
        → Option (Result (SmokeOutcome M))
        → Option (Result (SmokeOutcome M) × List EngineCall)
    stop_or again calls none = again calls
    stop_or again calls (some result) = some (result, calls ++ dropped ∷ [])

    -- `while True`, on fuel; `none` means that the fuel ran out.
    unfoldable pub run_smoke_polled :
        (fuel n : ℕ) → List EngineCall → Option (Result (SmokeOutcome M) × List EngineCall)
    run_smoke_polled zero n calls = none
    run_smoke_polled (suc fuel) n calls =
        stop_or (run_smoke_polled fuel (n + 1)) (calls ++ polled n ∷ []) (ends_at n)
