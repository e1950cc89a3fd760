-- ===== src/AuthorDecisions/Examples.antt =====
-- Tests of the decision log: the projection of a field that is locked, then amended.
use strategy_gpt.Prelude.{String, ◌≡◌, refl, some, [], ◌∷◌}
use strategy_gpt.Prelude.Dict.{lookup}
use strategy_gpt.Json.{string}
use strategy_gpt.AuthorDecisions.{DecisionEvent, decision_locked, decision_amended, project}
use strategy_gpt.AuthorDecisions.Replay.{last_value, lookup-project}

abbrev universe : String → DecisionEvent
universe s =
    decision_locked (record { timestamp = "dawn"; field_name = "universe"; value = string s })

abbrev amended : DecisionEvent
amended = decision_amended (record {
  timestamp = "noon";
  field_name = "universe";
  old_value = string "SPY";
  new_value = string "QQQ";
})

lookup-project_example :
    lookup "universe" (project (universe "SPY" ∷ amended ∷ []))
    ≡ last_value "universe" (universe "SPY" ∷ amended ∷ [])
lookup-project_example = lookup-project "universe" (universe "SPY" ∷ amended ∷ [])

last_universe : last_value "universe" (universe "SPY" ∷ amended ∷ []) ≡ some (string "QQQ")
unfolding last_value
last_universe = refl
