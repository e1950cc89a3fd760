-- ===== src/HypothesisLoop/Persistence.antt =====
-- What `persist_decisions` writes: one uniform trail over the accepted and then the rejected entries.
use mathlib.Core.List.{cons≢nil, append_assoc, append-nil}
use strategy_gpt.Prelude.{
  ℕ, suc, ◌+◌, ◌*◌, ◌≡◌, ◌∙◌, ap, sym, refl, String, List, [], ◌∷◌, ◌++◌, map, arith, length,
}
use strategy_gpt.Json.{Json, null}
use strategy_gpt.HypothesisLoop.{
  HypothesisCandidate, AcceptedHypothesis, RejectedHypothesis, DecisionKind, HypothesisLoopState,
  PersistedDecision, LedgerRow, hypothesis_row, decision_row, LedgerState,
  candidate_to_hypothesis_record, persist_accepted, persist_rejected, persist_decisions,
}

-- A decided candidate, whatever the decision was.
pub record Entry (F : Type 0) : Type 0 where
  pub candidate : HypothesisCandidate F
  pub kind : DecisionKind
  pub rationale : String
  pub evidence : Json
  pub decided_at : ℕ

abbrev pub of_accepted : {F : Type 0} → AcceptedHypothesis F → Entry F
of_accepted a = record {
  candidate = a.candidate;
  kind = DecisionKind.accepted;
  rationale = a.rationale;
  evidence = a.evidence;
  decided_at = a.accepted_at;
}

-- The evidence of a rejection is not kept.
abbrev pub of_rejected : {F : Type 0} → RejectedHypothesis F → Entry F
of_rejected r = record {
  candidate = r.candidate;
  kind = DecisionKind.rejected;
  rationale = r.reason;
  evidence = null;
  decided_at = r.rejected_at;
}

-- The entries of a state, in the order in which they are submitted.
abbrev pub entries : {F : Type 0} → HypothesisLoopState F → List (Entry F)
entries state = map of_accepted state.accepted ++ map of_rejected state.rejected

module _ {F : Type 0} (new_id : ℕ → String) (stamp : ℕ) where
  -- Each entry draws two identifiers, and is a hypothesis row and the decision row that refers to it.
  abbrev pub trail : ℕ → List (Entry F) → List LedgerRow
  trail n [] = []
  trail n (e ∷ es) =
      hypothesis_row (candidate_to_hypothesis_record e.candidate (new_id n) stamp)
      ∷ decision_row (record {
        id = new_id (n + 1);
        hypothesis_id = new_id n;
        kind = e.kind;
        rationale = e.rationale;
        evidence = e.evidence;
        decided_at = e.decided_at;
      })
      ∷ trail (n + 2) es

  abbrev pub receipts : ℕ → List (Entry F) → List PersistedDecision
  receipts n [] = []
  receipts n (e ∷ es) =
      record { hypothesis_id = new_id n; decision_id = new_id (n + 1); kind = e.kind }
      ∷ receipts (n + 2) es

  -- The ledger and the receipts after the entries have been written.
  abbrev advanced :
      LedgerState → List PersistedDecision → List (Entry F) → LedgerState × List PersistedDecision
  advanced ledger persisted es = (
    record { rows = ledger.rows ++ trail ledger.drawn es; drawn = ledger.drawn + 2 * length es },
    persisted ++ receipts ledger.drawn es,
  )

  abbrev next_ledger : LedgerState → Entry F → LedgerState
  next_ledger ledger e = record {
    rows =
        (ledger.rows
          ++ hypothesis_row (candidate_to_hypothesis_record e.candidate (new_id ledger.drawn) stamp)
            ∷ [])
        ++ decision_row (record {
          id = new_id (ledger.drawn + 1);
          hypothesis_id = new_id ledger.drawn;
          kind = e.kind;
          rationale = e.rationale;
          evidence = e.evidence;
          decided_at = e.decided_at;
        })
          ∷ [];
    drawn = ledger.drawn + 2;
  }

  abbrev next_persisted : LedgerState → List PersistedDecision → Entry F → List PersistedDecision
  next_persisted ledger persisted e =
      persisted
      ++ record {
        hypothesis_id = new_id ledger.drawn;
        decision_id = new_id (ledger.drawn + 1);
        kind = e.kind;
      }
        ∷ []

  advanced_nil :
      (ledger : LedgerState) (persisted : List PersistedDecision) (es : List (Entry F))
      → es ≡ []
      → (ledger, persisted) ≡ advanced ledger persisted es
  advanced_nil ledger persisted [] h =
      let rows = sym (append-nil ledger.rows) in
      let drawn : ledger.drawn ≡ ledger.drawn + 2 * 0 = omega arith in
      let receipts = sym (append-nil persisted) in
      λ i. (record { rows = rows i; drawn = drawn i }, receipts i)
  advanced_nil ledger persisted (e ∷ es) h = absurd (cons≢nil h)

  -- One entry more is its two rows and its receipt first.
  advanced_cons :
      (ledger : LedgerState) (persisted : List PersistedDecision) (e : Entry F)
      (es : List (Entry F))
      → advanced (next_ledger ledger e) (next_persisted ledger persisted e) es
        ≡ advanced ledger persisted (e ∷ es)
  advanced_cons ledger persisted e es =
      let drawn : ledger.drawn + 2 + 2 * length es ≡ ledger.drawn + 2 * suc (length es) =
        omega arith in
      simp append_assoc (
        ap {B = LedgerState × List PersistedDecision}
          (λ (n : ℕ). (
            record { rows = ledger.rows ++ trail ledger.drawn (e ∷ es); drawn = n },
            persisted ++ receipts ledger.drawn (e ∷ es),
          ))
          drawn)

  advanced_append :
      (ledger : LedgerState) (persisted : List PersistedDecision) (xs ys : List (Entry F))
      → advanced (advanced ledger persisted xs).0 (advanced ledger persisted xs).1 ys
        ≡ advanced ledger persisted (xs ++ ys)
  advanced_append ledger persisted [] ys =
      ap (λ (a : LedgerState × List PersistedDecision). advanced a.0 a.1 ys)
        (sym (advanced_nil ledger persisted [] refl))
  advanced_append ledger persisted (e ∷ es) ys =
      ap (λ (a : LedgerState × List PersistedDecision). advanced a.0 a.1 ys)
        (sym (advanced_cons ledger persisted e es))
      ∙ advanced_append (next_ledger ledger e) (next_persisted ledger persisted e) es ys
      ∙ advanced_cons ledger persisted e (es ++ ys)

  persist_accepted_lem :
      (ledger : LedgerState) (persisted : List PersistedDecision) (xs : List (AcceptedHypothesis F))
      → persist_accepted new_id stamp ledger persisted xs
        ≡ advanced ledger persisted (map of_accepted xs)
  unfolding persist_accepted
  persist_accepted_lem ledger persisted [] = advanced_nil ledger persisted [] refl
  persist_accepted_lem ledger persisted (x ∷ xs) =
      persist_accepted_lem (next_ledger ledger (of_accepted x))
        (next_persisted ledger persisted (of_accepted x)) xs
      ∙ advanced_cons ledger persisted (of_accepted x) (map of_accepted xs)

  persist_rejected_lem :
      (ledger : LedgerState) (persisted : List PersistedDecision) (xs : List (RejectedHypothesis F))
      → persist_rejected new_id stamp ledger persisted xs
        ≡ advanced ledger persisted (map of_rejected xs)
  unfolding persist_rejected
  persist_rejected_lem ledger persisted [] = advanced_nil ledger persisted [] refl
  persist_rejected_lem ledger persisted (x ∷ xs) =
      persist_rejected_lem (next_ledger ledger (of_rejected x))
        (next_persisted ledger persisted (of_rejected x)) xs
      ∙ advanced_cons ledger persisted (of_rejected x) (map of_rejected xs)

  -- The ledger is only appended to. What is appended is, for each accepted entry and then for each
  -- rejected one, whatever its reject kind is, a hypothesis row and a decision row that refers to it,
  -- the decision an accepted or a rejected one, with the next two identifiers of the generator for
  -- each entry; the receipts name the same identifiers and kinds, in the same order.
  pub persist_decisions_lem :
      (ledger : LedgerState) (state : HypothesisLoopState F)
      → persist_decisions new_id stamp ledger state ≡ (
        record {
          rows = ledger.rows ++ trail ledger.drawn (entries state);
          drawn = ledger.drawn + 2 * length (entries state);
        },
        receipts ledger.drawn (entries state),
      )
  unfolding persist_decisions
  persist_decisions_lem ledger state =
      ap
        (λ (a : LedgerState × List PersistedDecision).
          persist_rejected new_id stamp a.0 a.1 state.rejected)
        (persist_accepted_lem ledger [] state.accepted)
      ∙ persist_rejected_lem _ _ state.rejected
      ∙ advanced_append ledger [] (map of_accepted state.accepted) (map of_rejected state.rejected)
