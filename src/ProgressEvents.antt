-- ===== src/ProgressEvents.antt =====
-- python/strategy_gpt/progress/events.py: the progress events, with times as the caller's floats `F`.
pub mod Wire
use strategy_gpt.Prelude.{String, Option}
use strategy_gpt.Prelude.Int.{ℤ}
use strategy_gpt.Prelude.Dict.{Dict}

pub data PhaseStatus : Type 0 where
  ok fail skip cancelled : PhaseStatus

pub record PhaseBegin (F : Type 0) : Type 0 where
  pub path : String
  pub emitted_at : F
  pub started_at : F
  pub total : Option ℤ
  pub unit : Option String
  pub msg : Option String

pub record PhaseProgress (F : Type 0) : Type 0 where
  pub path : String
  pub emitted_at : F
  pub current : ℤ
  pub total : Option ℤ
  pub msg : Option String
  pub metrics : Option (Dict F)

pub record PhaseEnd (F : Type 0) : Type 0 where
  pub path : String
  pub emitted_at : F
  pub status : PhaseStatus
  pub wall_secs : F
  pub msg : Option String
  pub metrics : Option (Dict F)

pub record Heartbeat (F : Type 0) : Type 0 where
  pub path : String
  pub emitted_at : F
  pub wall_secs : F
  pub since_last_event_secs : F
  pub msg : Option String

pub data ProgressEvent (F : Type 0) : Type 0 where
  phase_begin : PhaseBegin F → ProgressEvent F
  phase_progress : PhaseProgress F → ProgressEvent F
  phase_end : PhaseEnd F → ProgressEvent F
  heartbeat : Heartbeat F → ProgressEvent F
