-- ===== src/HypothesisLoop/Examples.antt =====
-- Tests of the persistence, and its theorem at a state with one entry of each kind.
use strategy_gpt.Prelude.{ℕ, ◌≡◌, ◌*◌, ◌+◌, refl, String, none, some, [], ◌∷◌, ◌++◌, length}
use strategy_gpt.Json.{null}
use strategy_gpt.HypothesisLoop.{
  HypothesisCandidate, HypothesisLoopState, running, LedgerState, DecisionKind, persist_decisions,
}
use strategy_gpt.HypothesisLoop.Persistence.{entries, trail, receipts, persist_decisions_lem}

abbrev candidate : String → HypothesisCandidate ℕ
candidate name = record {
  name = name;
  target_metric = "sharpe";
  falsification = null;
  proposed_change = null;
  kb_cites = [];
  estimated_lift_confidence = 1;
}

abbrev decided : HypothesisLoopState ℕ
decided = record {
  iteration = 1;
  open_set = [];
  accepted =
      record { candidate = candidate "a"; rationale = "fine"; evidence = null; accepted_at = 5 }
      ∷ [];
  rejected =
      record { candidate = candidate "b"; reason = "dull"; rejected_at = 6; reject_kind = none }
      ∷ [];
  kb_cites = [];
  prior_decisions = [];
  diagnosis = some null;
  termination_reason = running;
}

abbrev empty : LedgerState
empty = record { rows = []; drawn = 0 }

abbrev new_id : ℕ → String
new_id n = "id"

receipts_of_decided :
    (persist_decisions new_id 9 empty decided).1
    ≡ record { hypothesis_id = "id"; decision_id = "id"; kind = DecisionKind.accepted }
      ∷ record { hypothesis_id = "id"; decision_id = "id"; kind = DecisionKind.rejected }
      ∷ []
unfolding persist_decisions
receipts_of_decided = refl

persist_decisions_lem_example : persist_decisions new_id 9 empty decided ≡ (
  record {
    rows = [] ++ trail new_id 9 0 (entries decided);
    drawn = 0 + 2 * length (entries decided);
  },
  receipts new_id 9 0 (entries decided),
)
persist_decisions_lem_example = persist_decisions_lem new_id 9 empty decided
