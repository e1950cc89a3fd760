-- ===== src/HypothesisLoop.antt =====
-- python/strategy_gpt/hypothesis_loop.py: the state of the hypothesis loop, its projection to ledger
-- records, and their persistence. Floats are the parameter `F`; a time is its count of microseconds.
pub mod Persistence
mod Examples
use strategy_gpt.Prelude.{
  ℕ, ◌+◌, String, Bool, true, false, Option, none, some, List, [], ◌∷◌, ◌++◌,
}
use strategy_gpt.Json.{Json, null}

pub record KbCitation : Type 0 where
  pub source : String
  pub locator : String
  pub excerpt : Option String

pub record HypothesisCandidate (F : Type 0) : Type 0 where
  pub name : String
  pub target_metric : String
  pub falsification : Json
  pub proposed_change : Json
  pub kb_cites : List KbCitation
  pub estimated_lift_confidence : F

pub record AcceptedHypothesis (F : Type 0) : Type 0 where
  pub candidate : HypothesisCandidate F
  pub rationale : String
  pub evidence : Json
  pub accepted_at : ℕ

pub record RejectedHypothesis (F : Type 0) : Type 0 where
  pub candidate : HypothesisCandidate F
  pub reason : String
  pub rejected_at : ℕ
  pub reject_kind : Option String

pub data TerminationReason : Type 0 where
  running sufficient_candidates budget_exhausted similarity_saturation : TerminationReason

pub data DecisionKind : Type 0 where
  accepted rejected deferred : DecisionKind

pub record HypothesisRecord : Type 0 where
  pub id : String
  pub name : String
  pub target_metric : String
  pub falsification : Json
  pub proposed_change : Json
  pub kb_cites : List KbCitation
  pub created_at : ℕ

pub record DecisionRecord : Type 0 where
  pub id : String
  pub hypothesis_id : String
  pub kind : DecisionKind
  pub rationale : String
  pub evidence : Json
  pub decided_at : ℕ

pub record PriorDecision : Type 0 where
  pub decision_id : String
  pub kind : DecisionKind
  pub rationale : String
  pub evidence : Json
  pub decided_at : ℕ
  pub hypothesis : HypothesisRecord

pub record HypothesisLoopState (F : Type 0) : Type 0 where
  pub iteration : ℕ
  -- the field `open`
  pub open_set : List (HypothesisCandidate F)
  pub accepted : List (AcceptedHypothesis F)
  pub rejected : List (RejectedHypothesis F)
  pub kb_cites : List KbCitation
  pub prior_decisions : List PriorDecision
  pub diagnosis : Option Json
  pub termination_reason : TerminationReason

unfoldable pub is_terminated : {F : Type 0} → HypothesisLoopState F → Bool
is_terminated state = elim state.termination_reason [ running ↦ false | _ ↦ true ]

unfoldable pub candidate_to_hypothesis_record :
    {F : Type 0} → HypothesisCandidate F → String → ℕ → HypothesisRecord
candidate_to_hypothesis_record candidate hypothesis_id created_at = record {
  id = hypothesis_id;
  name = candidate.name;
  target_metric = candidate.target_metric;
  falsification = candidate.falsification;
  proposed_change = candidate.proposed_change;
  kb_cites = candidate.kb_cites;
  created_at = created_at;
}

unfoldable pub accepted_to_decision_record :
    {F : Type 0} → AcceptedHypothesis F → String → String → DecisionRecord
accepted_to_decision_record entry decision_id hypothesis_id = record {
  id = decision_id;
  hypothesis_id = hypothesis_id;
  kind = DecisionKind.accepted;
  rationale = entry.rationale;
  evidence = entry.evidence;
  decided_at = entry.accepted_at;
}

unfoldable pub rejected_to_decision_record :
    {F : Type 0} → RejectedHypothesis F → String → String → DecisionRecord
rejected_to_decision_record entry decision_id hypothesis_id = record {
  id = decision_id;
  hypothesis_id = hypothesis_id;
  kind = DecisionKind.rejected;
  rationale = entry.reason;
  evidence = null;
  decided_at = entry.rejected_at;
}

pub record PersistedDecision : Type 0 where
  pub hypothesis_id : String
  pub decision_id : String
  pub kind : DecisionKind

-- The rows of the append-only ledger, in the order in which they were recorded.
pub data LedgerRow : Type 0 where
  hypothesis_row : HypothesisRecord → LedgerRow
  decision_row : DecisionRecord → LedgerRow

-- The ledger, and the number of identifiers drawn so far.
pub record LedgerState : Type 0 where
  pub rows : List LedgerRow
  pub drawn : ℕ

abbrev record_row : LedgerState → LedgerRow → LedgerState
record_row ledger row = record ledger { rows = ledger.rows ++ row ∷ [] }

module _ {F : Type 0} (new_id : ℕ → String) (stamp : ℕ) where
  persist_accepted :
      LedgerState
      → List PersistedDecision
      → List (AcceptedHypothesis F)
      → LedgerState × List PersistedDecision
  unfolding candidate_to_hypothesis_record accepted_to_decision_record
  persist_accepted ledger persisted [] = (ledger, persisted)
  persist_accepted ledger persisted (entry ∷ entries) =
      let hid = new_id ledger.drawn in
      let did = new_id (ledger.drawn + 1) in
      let ledger₁ =
        record_row ledger
          (hypothesis_row (candidate_to_hypothesis_record entry.candidate hid stamp)) in
      let ledger₂ = record_row ledger₁ (decision_row (accepted_to_decision_record entry did hid)) in
      persist_accepted (record ledger₂ { drawn = ledger.drawn + 2 })
        (persisted
          ++ record { hypothesis_id = hid; decision_id = did; kind = DecisionKind.accepted } ∷ [])
        entries

  persist_rejected :
      LedgerState
      → List PersistedDecision
      → List (RejectedHypothesis F)
      → LedgerState × List PersistedDecision
  unfolding candidate_to_hypothesis_record rejected_to_decision_record
  persist_rejected ledger persisted [] = (ledger, persisted)
  persist_rejected ledger persisted (entry ∷ entries) =
      let hid = new_id ledger.drawn in
      let did = new_id (ledger.drawn + 1) in
      let ledger₁ =
        record_row ledger
          (hypothesis_row (candidate_to_hypothesis_record entry.candidate hid stamp)) in
      let ledger₂ = record_row ledger₁ (decision_row (rejected_to_decision_record entry did hid)) in
      persist_rejected (record ledger₂ { drawn = ledger.drawn + 2 })
        (persisted
          ++ record { hypothesis_id = hid; decision_id = did; kind = DecisionKind.rejected } ∷ [])
        entries

  unfoldable pub persist_decisions :
      LedgerState → HypothesisLoopState F → LedgerState × List PersistedDecision
  unfolding persist_accepted persist_rejected
  persist_decisions ledger state =
      let (ledger', persisted) = persist_accepted ledger [] state.accepted in
      persist_rejected ledger' persisted state.rejected

-- The typed decisions that the ledger answers with replace those of the state.
unfoldable pub bootstrap_state :
    {F : Type 0} → List PriorDecision → HypothesisLoopState F → HypothesisLoopState F
bootstrap_state decisions state = record state { prior_decisions = decisions }
