-- ===== src/PerStrategyLedger.antt =====
-- python/strategy_gpt/per_strategy_ledger.py: the records. A time is the number of microseconds
-- since the epoch, with or without a time zone; the numbers are of a float type `F`.
pub mod Store
pub mod Rows
pub mod Baseline
pub mod Sources
mod Examples
use strategy_gpt.Prelude.Dict.{Dict}
use strategy_gpt.Prelude.{ℕ, String, Option, List, Bool}
use strategy_gpt.Json.{Json}

-- A `datetime` without a time zone, by its digits, or with one, by its instant.
pub data Datetime : Type 0 where
  naive : ℕ → Datetime
  aware : ℕ → Datetime

pub record AddedParam (F : Type 0) : Type 0 where
  pub name : String
  pub kind : String
  -- the fields `min` and `max`
  pub lower : Option F
  pub upper : Option F
  pub default : Json

pub record ParamIntent (F : Type 0) : Type 0 where
  pub added : List (AddedParam F)
  pub kept : List String
  pub removed : List String

pub record GuardConstraint (F : Type 0) : Type 0 where
  pub metric : String
  pub direction : String
  pub delta_vs_baseline : Option F
  pub factor : Option F

pub record FalsificationScope : Type 0 where
  pub kind : String
  pub regime : Option String
  pub fold : Option ℕ
  pub window_start : Option Datetime
  pub window_end : Option Datetime

pub record FalsificationPrimary (F : Type 0) : Type 0 where
  pub metric : String
  pub direction : String
  pub delta_vs_baseline : F
  pub scope : FalsificationScope

pub record Falsification (F : Type 0) : Type 0 where
  pub primary : FalsificationPrimary F
  pub guard_constraints : List (GuardConstraint F)

pub record StageResponses : Type 0 where
  pub stage1_hash : String
  pub stage2_hash : String
  pub stage3_hash : String

pub record HypothesisRecordV2 (F : Type 0) : Type 0 where
  pub id : String
  pub strategy : String
  pub candidate_name : String
  pub files_manifest : Dict String
  pub deleted_files : List String
  pub baseline_files_hash : String
  pub param_intent : ParamIntent F
  pub falsification : Falsification F
  pub expected_lift_confidence : F
  pub expected_side_effects : List String
  pub rationale : String
  pub stage_responses : StageResponses
  pub kb_cites : List Json
  pub created_at : Datetime

pub record DecisionStage : Type 0 where
  pub kind : String
  pub stage : Option String

pub record RepairAttempt : Type 0 where
  pub stage : String
  pub attempt_index : ℕ
  pub files_hash : Option String
  pub reject_kind : String
  pub feedback : String

pub record DecisionRecordV2 : Type 0 where
  pub id : String
  pub hypothesis_id : String
  pub strategy : String
  pub outcome : DecisionStage
  pub rationale : String
  pub evidence : Json
  pub repair_attempts : List RepairAttempt
  pub decided_at : Datetime
