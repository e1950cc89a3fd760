-- ===== src/Nodes/InnerLoop.antt =====
-- python/strategy_gpt/nodes.py: the inner loop over the nodes. The similarity measure is the
-- caller's.
use strategy_gpt.Prelude.{
  ℕ, zero, suc, ◌+◌, Bool, true, false, ◌&&◌, Option, none, some, List, [], ◌∷◌, ◌++◌, map,
  if◌then◌else◌, length,
}
use strategy_gpt.Prelude.Int.{pos, pos_part, leb_ℤ}
use strategy_gpt.Prelude.Floats.{Float}
use strategy_gpt.Prelude.Result.{Result, ok, raise, runtime_error}
use strategy_gpt.HypothesisLoop.{
  HypothesisCandidate, TerminationReason, DecisionKind, PriorDecision, HypothesisLoopState,
  sufficient_candidates, budget_exhausted, similarity_saturation,
}
use strategy_gpt.Nodes.{
  ReasoningClient, HypothesisLoopConfig, default_weights, rank_node, generate_node, critique_node,
  select_node,
}

-- The rejected decisions of earlier runs, as candidates.
prior_candidates : {F : Type 0} → Float F → List PriorDecision → List (HypothesisCandidate F)
prior_candidates f [] = []
prior_candidates f (pd ∷ pds) =
    let rest = prior_candidates f pds in
    elim pd.kind [
      | DecisionKind.rejected ↦
          record {
            name = pd.hypothesis.name;
            target_metric = pd.hypothesis.target_metric;
            falsification = pd.hypothesis.falsification;
            proposed_change = pd.hypothesis.proposed_change;
            kb_cites = [];
            estimated_lift_confidence = f.literal (pos 0) 1;
          }
          ∷ rest
      | DecisionKind.accepted ↦ rest
      | DecisionKind.deferred ↦ rest
    ]

unfoldable pub prior_rejected_candidates :
    {F : Type 0} → Float F → HypothesisLoopState F → List (HypothesisCandidate F)
unfolding prior_candidates
prior_rejected_candidates f state =
    map (λ r. r.candidate) state.rejected ++ prior_candidates f state.prior_decisions

module _ {F W : Type 0} (f : Float F) (client : ReasoningClient F W)
    (config : HypothesisLoopConfig F)
    (sim : HypothesisCandidate F → List (HypothesisCandidate F) → F) (stamp : ℕ) where
  -- `all(sim(c, refs) >= threshold for c in cs)`
  unfoldable pub all_similar : List (HypothesisCandidate F) → List (HypothesisCandidate F) → Bool
  all_similar refs [] = true
  all_similar refs (c ∷ cs) = f.le config.similarity_threshold (sim c refs) && all_similar refs cs

  -- `new_candidates and all(...)`
  unfoldable pub saturated : List (HypothesisCandidate F) → List (HypothesisCandidate F) → Bool
  unfolding all_similar
  saturated refs [] = false
  saturated refs (c ∷ cs) = all_similar refs (c ∷ cs)

  -- The three tests at the end of a pass, in their order; `none` goes on.
  unfoldable pub stop_reason :
      HypothesisLoopState F
      → List (HypothesisCandidate F)
      → List (HypothesisCandidate F)
      → Option TerminationReason
  stop_reason state refs new =
      if leb_ℤ config.target_candidates (pos (length state.accepted))
      then some sufficient_candidates
      else if saturated refs new
      then some similarity_saturation
      else if leb_ℤ config.iteration_budget (pos state.iteration)
      then some budget_exhausted
      else none

  -- The rest of a pass, once candidates have been generated.
  unfoldable pub judge : HypothesisLoopState F → W → HypothesisLoopState F × W
  unfolding critique_node rank_node
  judge generated w =
      let (critiqued, w') = critique_node client config stamp generated w in
      let ranked = rank_node f (default_weights f) critiqued in
      (record ranked { iteration = ranked.iteration + 1 }, w')

  -- The end of a pass: stop and select, or go on by `again`.
  unfoldable pub finish_pass :
      (again : HypothesisLoopState F → W → Option (Result (HypothesisLoopState F) × W))
      (refs new : List (HypothesisCandidate F)) (judged : HypothesisLoopState F) (w : W)
      → Option (Result (HypothesisLoopState F) × W)
  finish_pass again refs new judged w = elim (stop_reason judged refs new) [
    | some reason ↦ some (select_node config.target_candidates (some reason) judged, w)
    | none ↦ again judged w
  ]

  -- A pass from the answer of `generate_node` on.
  unfoldable pub after_generate :
      (again : HypothesisLoopState F → W → Option (Result (HypothesisLoopState F) × W))
      (refs : List (HypothesisCandidate F))
      → Result (HypothesisLoopState F)
      → W
      → Option (Result (HypothesisLoopState F) × W)
  unfolding finish_pass
  after_generate again refs (raise e) w = some (raise e, w)
  after_generate again refs (ok generated) w =
      let (judged, w') = judge generated w in finish_pass again refs generated.open_set judged w'

  -- `while True`, on fuel; `none` means that the fuel ran out.
  unfoldable pub inner_loop :
      (fuel : ℕ) (current : HypothesisLoopState F) (w : W)
      → Option (Result (HypothesisLoopState F) × W)
  unfolding after_generate
  inner_loop zero current w = none
  inner_loop (suc fuel) current w =
      let (generated, w') = generate_node client config current none w in
      after_generate (inner_loop fuel) (prior_rejected_candidates f current) generated w'

  -- The fuel is one pass more than the iterations that the budget allows.
  unfoldable pub run_inner_loop :
      HypothesisLoopState F → W → Option (Result (HypothesisLoopState F) × W)
  unfolding inner_loop judge stop_reason saturated prior_rejected_candidates
  run_inner_loop state w = elim state.diagnosis [
    | none ↦ some (raise runtime_error, w)
    | some d ↦ inner_loop (suc (pos_part config.iteration_budget)) state w
  ]
