-- ===== src/AuthorDecisions/Replay.antt =====
-- The projection holds the last value of each field.
use text.Mathlib.Text.{◌==◌}
use text.Mathlib.TextEquality.{eq_iff}
use strategy_gpt.Prelude.{
  String, ◌≡◌, refl, ap, ◌∙◌, sym, Option, none, some, List, [], ◌∷◌, inl, inr, Bool-cases,
  if◌then◌else◌,
}
use strategy_gpt.Prelude.Dict.{Dict, lookup, assign, lookup-assign_self, lookup-assign_other}
use strategy_gpt.Json.{Json}
use strategy_gpt.AuthorDecisions.{
  decision_locked, decision_amended, dialog_started, intent_finalized, repair_budget_exhausted,
  DecisionEvent, decision_of, apply_event, replay, project,
}

-- The value that an event gives to the field: a locked decision gives its value, an amended one its
-- new value.
abbrev pub given : String → DecisionEvent → Option Json
given name (decision_locked e) = if e.field_name == name then some e.value else none
given name (decision_amended e) = if e.field_name == name then some e.new_value else none
given name (dialog_started e) = none
given name (intent_finalized e) = none
given name (repair_budget_exhausted e) = none

abbrev value_of : String → Option (String × Json) → Option Json
value_of name none = none
value_of name (some decision) = if decision.0 == name then some decision.1 else none

abbrev or_else : Option Json → Option Json → Option Json
or_else none other = other
or_else (some v) other = some v

-- The value that the last event which decides the field gives to it, scanned from the end.
unfoldable pub last_value : String → List DecisionEvent → Option Json
last_value name [] = none
last_value name (event ∷ events) = or_else (last_value name events) (given name event)

value_of-given :
    (name : String) (event : DecisionEvent) → value_of name (decision_of event) ≡ given name event
value_of-given name (decision_locked e) = refl
value_of-given name (decision_amended e) = refl
value_of-given name (dialog_started e) = refl
value_of-given name (intent_finalized e) = refl
value_of-given name (repair_budget_exhausted e) = refl

lookup-apply_event :
    (name : String) (d : Option (String × Json)) (current : Dict Json)
    → lookup name (apply_event d current) ≡ or_else (value_of name d) (lookup name current)
lookup-apply_event name none current = refl
lookup-apply_event name (some d) current = elim (Bool-cases (d.0 == name)) [
  | inl e ↦ rw e (
      ap (λ s. lookup s (assign d.0 d.1 current)) (sym ((eq_iff d.0 name).0 e))
      ∙ lookup-assign_self d.0 d.1 current)
  | inr e ↦ rw e (lookup-assign_other name d.0 d.1 current e)
]

or_else_assoc : (a b c : Option Json) → or_else a (or_else b c) ≡ or_else (or_else a b) c
or_else_assoc none b c = refl
or_else_assoc (some v) b c = refl

lookup-replay :
    (name : String) (events : List DecisionEvent) (current : Dict Json)
    → lookup name (replay events current) ≡ or_else (last_value name events) (lookup name current)
unfolding replay last_value
lookup-replay name [] current = refl
lookup-replay name (event ∷ events) current =
    lookup-replay name events (apply_event (decision_of event) current)
    ∙ ap (or_else (last_value name events)) (lookup-apply_event name (decision_of event) current)
    ∙ or_else_assoc (last_value name events) (value_of name (decision_of event))
        (lookup name current)
    ∙ ap (λ v. or_else (or_else (last_value name events) v) (lookup name current))
        (value_of-given name event)

or_else-none : (a : Option Json) → or_else a none ≡ a
or_else-none none = refl
or_else-none (some v) = refl

-- The projection of a log gives each field the value of the last event that locks or amends it, and
-- no value to a field that no event locks or amends.
pub lookup-project :
    (name : String) (events : List DecisionEvent)
    → lookup name (project events) ≡ last_value name events
unfolding project lookup
lookup-project name events = lookup-replay name events [] ∙ or_else-none (last_value name events)
