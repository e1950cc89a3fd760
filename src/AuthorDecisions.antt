-- ===== src/AuthorDecisions.antt =====
-- python/strategy_gpt/author_decisions.py: the events of the author dialog's decision log, and the
-- decisions that they amount to.
pub mod Replay
mod Examples
use strategy_gpt.Prelude.{String, Option, none, some, List, [], ◌∷◌}
use strategy_gpt.Prelude.Int.{ℤ}
use strategy_gpt.Prelude.Dict.{Dict, assign}
use strategy_gpt.Json.{Json}

pub record DialogStarted : Type 0 where
  pub timestamp : String
  pub seed : Option String
  pub model : String

pub record DecisionLocked : Type 0 where
  pub timestamp : String
  -- the attribute `field`
  pub field_name : String
  pub value : Json

pub record DecisionAmended : Type 0 where
  pub timestamp : String
  pub field_name : String
  pub old_value : Json
  pub new_value : Json

pub record IntentFinalized : Type 0 where
  pub timestamp : String
  pub intent : Json

pub record RepairBudgetExhausted : Type 0 where
  pub timestamp : String
  pub stage : String
  pub attempts : ℤ
  pub last_feedback : String

pub data DecisionEvent : Type 0 where
  dialog_started : DialogStarted → DecisionEvent
  decision_locked : DecisionLocked → DecisionEvent
  decision_amended : DecisionAmended → DecisionEvent
  intent_finalized : IntentFinalized → DecisionEvent
  repair_budget_exhausted : RepairBudgetExhausted → DecisionEvent

-- The field and the value that an event decides, if it is a decision.
abbrev pub decision_of : DecisionEvent → Option (String × Json)
decision_of (decision_locked e) = some (e.field_name, e.value)
decision_of (decision_amended e) = some (e.field_name, e.new_value)
decision_of (dialog_started e) = none
decision_of (intent_finalized e) = none
decision_of (repair_budget_exhausted e) = none

-- One step of the replay.
abbrev pub apply_event : Option (String × Json) → Dict Json → Dict Json
apply_event none current = current
apply_event (some decision) current = assign decision.0 decision.1 current

pub replay : List DecisionEvent → Dict Json → Dict Json
replay [] current = current
replay (event ∷ events) current = replay events (apply_event (decision_of event) current)

unfoldable pub project : List DecisionEvent → Dict Json
unfolding replay
project events = replay events []
