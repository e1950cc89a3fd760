-- ===== src/Nodes.antt =====
-- python/strategy_gpt/nodes.py: the nodes of the inner loop. The reasoning client is the caller's,
-- and may change the outside world `W`.
pub mod Critique
pub mod Rank
pub mod InnerLoop
pub mod Loop
mod Examples
use strategy_gpt.Prelude.{
  ℕ, zero, suc, ◌+◌, String, Bool, true, false, ◌&&◌, Option, none, some, List, [], ◌∷◌, ◌++◌, map,
  max, if◌then◌else◌, length, take, leb,
}
use strategy_gpt.Prelude.Int.{ℤ, pos, negsuc, pos_part, sub_ℕ, ◌+ℤ◌, ◌-ℤ◌, neg_ℤ, leb_ℤ}
use strategy_gpt.Prelude.Floats.{Float, of_ℕ}
use strategy_gpt.Prelude.Result.{Result, ok, raise, value_error, runtime_error}
use strategy_gpt.Prelude.Sorting.{sorted_desc}
use strategy_gpt.Json.{
  Json, Items, Fields, null, boolean, number, string, array, object, length_items, length_fields,
  get,
}
use strategy_gpt.HypothesisLoop.{
  KbCitation, HypothesisCandidate, AcceptedHypothesis, RejectedHypothesis, TerminationReason,
  DecisionKind, PriorDecision, HypothesisLoopState, running, sufficient_candidates,
  budget_exhausted, similarity_saturation,
}

pub record CritiqueOutcome : Type 0 where
  pub accept : Bool
  pub rationale : String
  pub evidence : Json

-- The two calls of the client, with the state of the outside world.
pub record ReasoningClient (F W : Type 0) : Type 0 where
  pub generate :
      Json
      → List KbCitation
      → List PriorDecision
      → ℕ
      → String
      → W
      → List (HypothesisCandidate F) × W
  pub critique :
      HypothesisCandidate F → List PriorDecision → Option Json → String → W → CritiqueOutcome × W

-- reasoning.py
pub record HypothesisLoopConfig (F : Type 0) : Type 0 where
  pub reasoning_model : String
  pub iteration_budget : ℤ
  pub target_candidates : ℤ
  pub similarity_threshold : F

pub record RankWeights (F : Type 0) : Type 0 where
  pub lift : F
  pub evidence : F
  pub complexity_penalty : F
  pub simplicity_bonus : F

-- `max(1, config.target_candidates - len(state.accepted))`
unfoldable pub gap_of : ℤ → ℕ → ℕ
unfolding ◌-ℤ◌
gap_of target accepted = max 1 (pos_part (target -ℤ pos accepted))

-- `len(x) if isinstance(x, list) else 0`, for `x = d.get(key)`
abbrev list_length : Option Json → ℕ
list_length (some (array items)) = length_items items
list_length (some null) = 0
list_length (some (boolean b)) = 0
list_length (some (number s)) = 0
list_length (some (string s)) = 0
list_length (some (object fields)) = 0
list_length none = 0

abbrev delta_params_of : Option Json → ℤ
delta_params_of (some (object intent)) =
    sub_ℕ (list_length (get "added" intent)) (list_length (get "removed" intent))
delta_params_of (some null) = pos 0
delta_params_of (some (boolean b)) = pos 0
delta_params_of (some (number s)) = pos 0
delta_params_of (some (string s)) = pos 0
delta_params_of (some (array items)) = pos 0
delta_params_of none = pos 0

abbrev delta_components_of : Option Json → Option Json → ℤ
delta_components_of (some (object files)) deleted =
    sub_ℕ (length_fields files) (list_length deleted)
delta_components_of (some null) deleted = pos 0
delta_components_of (some (boolean b)) deleted = pos 0
delta_components_of (some (number s)) deleted = pos 0
delta_components_of (some (string s)) deleted = pos 0
delta_components_of (some (array items)) deleted = pos 0
delta_components_of none deleted = pos 0

pub complexity_delta : Json → ℤ × ℤ
unfolding get length_items length_fields
complexity_delta (object change) = (
  delta_params_of (get "param_intent" change),
  delta_components_of (get "files_manifest" change) (get "deleted_files" change),
)
complexity_delta null = (pos 0, pos 0)
complexity_delta (boolean b) = (pos 0, pos 0)
complexity_delta (number s) = (pos 0, pos 0)
complexity_delta (string s) = (pos 0, pos 0)
complexity_delta (array items) = (pos 0, pos 0)

module _ {F : Type 0} (f : Float F) where
  abbrev pub default_weights : RankWeights F
  default_weights = record {
    lift = f.literal (pos 55) 2;
    evidence = f.literal (pos 25) 2;
    complexity_penalty = f.literal (pos 15) 2;
    simplicity_bonus = f.literal (pos 5) 2;
  }

  -- `min(1.0, x)`
  abbrev min_one : F → F
  min_one x = if f.lt x (f.literal (pos 10) 1) then x else f.literal (pos 10) 1

  pub evidence_strength : HypothesisCandidate F → F
  evidence_strength candidate =
      let n = length candidate.kb_cites in
      if leb n 0
      then f.literal (pos 0) 1
      else min_one (f.add (f.literal (pos 4) 1) (f.mul (f.literal (pos 2) 1) (of_ℕ f n)))

  pub rank_score : RankWeights F → HypothesisCandidate F → F
  unfolding ◌+ℤ◌ neg_ℤ complexity_delta evidence_strength
  rank_score w candidate =
      let delta = complexity_delta candidate.proposed_change in
      let total = delta.0 +ℤ delta.1 in
      f.add
        (f.sub
          (f.add (f.mul w.lift candidate.estimated_lift_confidence)
            (f.mul w.evidence (evidence_strength candidate)))
          (f.mul w.complexity_penalty (of_ℕ f (pos_part total))))
        (f.mul w.simplicity_bonus (of_ℕ f (pos_part (neg_ℤ total))))

  -- The comparison that the sort makes.
  abbrev pub ranks_below : RankWeights F → AcceptedHypothesis F → AcceptedHypothesis F → Bool
  ranks_below w a b = f.lt (rank_score w a.candidate) (rank_score w b.candidate)

  unfoldable pub rank_node : RankWeights F → HypothesisLoopState F → HypothesisLoopState F
  rank_node w state = record state { accepted = sorted_desc (ranks_below w) state.accepted }

module _ {F W : Type 0} (client : ReasoningClient F W) (config : HypothesisLoopConfig F) where
  unfoldable pub generate_node :
      HypothesisLoopState F → Option ℕ → W → Result (HypothesisLoopState F) × W
  unfolding gap_of
  generate_node state n w = elim state.diagnosis [
    | none ↦ (raise runtime_error, w)
    | some diagnosis ↦
        let wanted : ℕ = elim n [
          | none ↦ gap_of config.target_candidates (length state.accepted)
          | some k ↦ k
        ] in
        let (candidates, w') =
          client.generate diagnosis state.kb_cites state.prior_decisions wanted
            config.reasoning_model w in
        (ok (record state { open_set = state.open_set ++ candidates }), w')
  ]

  abbrev accepted_entry : ℕ → HypothesisCandidate F → CritiqueOutcome → AcceptedHypothesis F
  accepted_entry stamp candidate outcome = record {
    candidate = candidate;
    rationale = outcome.rationale;
    evidence = outcome.evidence;
    accepted_at = stamp;
  }

  abbrev rejected_entry : ℕ → HypothesisCandidate F → CritiqueOutcome → RejectedHypothesis F
  rejected_entry stamp candidate outcome = record {
    candidate = candidate;
    reason = outcome.rationale;
    rejected_at = stamp;
    reject_kind = none;
  }

  -- The `for` loop over the open candidates.
  pub critique_each :
      (stamp : ℕ) (priors : List PriorDecision) (diagnosis : Option Json)
      → List (HypothesisCandidate F)
      → List (AcceptedHypothesis F)
      → List (RejectedHypothesis F)
      → W
      → List (AcceptedHypothesis F) × List (RejectedHypothesis F) × W
  critique_each stamp priors diagnosis [] accepted rejected w = (accepted, rejected, w)
  critique_each stamp priors diagnosis (candidate ∷ rest) accepted rejected w =
      let (outcome, w') = client.critique candidate priors diagnosis config.reasoning_model w in
      critique_each stamp priors diagnosis rest
        (if outcome.accept
          then accepted ++ accepted_entry stamp candidate outcome ∷ []
          else accepted)
        (if outcome.accept
          then rejected
          else rejected ++ rejected_entry stamp candidate outcome ∷ [])
        w'

  unfoldable pub critique_node : ℕ → HypothesisLoopState F → W → HypothesisLoopState F × W
  unfolding critique_each
  critique_node stamp state w =
      let (accepted, rejected, w') =
        critique_each stamp state.prior_decisions state.diagnosis state.open_set state.accepted
          state.rejected w in
      (record state { open_set = []; accepted = accepted; rejected = rejected }, w')

-- `reason` after the default for a state that is still running.
unfoldable pub final_reason : ℕ → ℤ → TerminationReason → TerminationReason
final_reason count k running =
    if leb_ℤ k (pos count) && leb_ℤ (pos 1) k then sufficient_candidates else budget_exhausted
final_reason count k reason = reason

abbrev reason_or : Option TerminationReason → TerminationReason → TerminationReason
reason_or none current = current
reason_or (some reason) current = reason

unfoldable pub select_node :
    {F : Type 0}
    → ℤ
    → Option TerminationReason
    → HypothesisLoopState F
    → Result (HypothesisLoopState F)
unfolding final_reason
select_node (negsuc k) reason state = raise value_error
select_node (pos k) reason state =
    let trimmed = take k state.accepted in
    ok (record state {
      accepted = trimmed;
      termination_reason =
          final_reason (length trimmed) (pos k) (reason_or reason state.termination_reason);
    })
