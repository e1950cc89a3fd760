-- ===== src/Nodes/Loop.antt =====
-- The inner loop returns, and how.
use strategy_gpt.Prelude.{
  ◌∙◌, ℕ, suc, ◌+◌, ◌≤◌, ◌<◌, max, ◌≡◌, ◌≢◌, ◌⊎◌, ◌↔◌, refl, ap, true, none, some, List, [], arith,
  length, take, length-take, ◌++◌, Option-cases, inl, inr, zero,
}
use strategy_gpt.Prelude.Int.{pos, pos_part}
use strategy_gpt.Prelude.Floats.{Float, IsOrdered}
use strategy_gpt.Prelude.Result.{ok}
use strategy_gpt.Prelude.Sorting.{IsDescending, IsDescending-take, sorted_desc-IsDescending}
use strategy_gpt.Json.{Json}
use strategy_gpt.HypothesisLoop.{
  HypothesisCandidate, TerminationReason, HypothesisLoopState, running, sufficient_candidates,
  budget_exhausted, similarity_saturation, is_terminated,
}
use strategy_gpt.Nodes.{
  ReasoningClient, HypothesisLoopConfig, default_weights, ranks_below, rank_node, critique_node,
  select_node, generate_node, Option, gap_of, Result,
}
use strategy_gpt.Nodes.InnerLoop.{
  stop_reason, judge, inner_loop, run_inner_loop, prior_rejected_candidates, after_generate,
  finish_pass,
}
use strategy_gpt.Nodes.Rank.{ranks_below-IsWeakOrder}

module _ {F W : Type 0} (f : Float F) (order : IsOrdered f) (client : ReasoningClient F W)
    (config : HypothesisLoopConfig F)
    (sim : HypothesisCandidate F → List (HypothesisCandidate F) → F) (stamp t : ℕ)
    (target : config.target_candidates ≡ pos t) where
  -- The state `s` is a proper end of a loop that started with the iteration counter at `from`.
  pub record IsFinished (from : ℕ) (s : HypothesisLoopState F) : Type 0 where
    pub terminated : is_terminated s ≡ true
    pub no_open : s.open_set ≡ []
    pub bounded : length s.accepted ≤ t
    pub ranked : IsDescending (ranks_below f (default_weights f)) s.accepted
    pub advanced : from < s.iteration
    pub within : s.iteration ≤ max (suc from) (pos_part config.iteration_budget)
    pub sufficient_iff : (s.termination_reason ≡ sufficient_candidates) ↔ (length s.accepted ≡ t)
    pub exhausted :
        (s.termination_reason ≢ budget_exhausted) ⊎ (pos_part config.iteration_budget ≤ s.iteration)

  -- What a pass leaves for the test at its end.
  record IsJudged (from : ℕ) (d : Json) (s : HypothesisLoopState F) : Type 0 where
    no_open : s.open_set ≡ []
    ranked : IsDescending (ranks_below f (default_weights f)) s.accepted
    iteration : s.iteration ≡ from + 1
    diagnosis : s.diagnosis ≡ some d

  judge-IsJudged :
      (from : ℕ) (d : Json) (generated : HypothesisLoopState F) (w : W)
      → generated.diagnosis ≡ some d
      → generated.iteration ≡ from
      → IsJudged from d (judge f client config sim stamp generated w).0
  unfolding judge rank_node critique_node
  judge-IsJudged from d generated w h e = record {
    no_open = refl;
    ranked = sorted_desc-IsDescending _ (ranks_below-IsWeakOrder f order (default_weights f)) _;
    iteration = ap (λ (n : ℕ). n + 1) e;
    diagnosis = h;
  }

  -- Why a pass stops.
  abbrev Stop : HypothesisLoopState F → TerminationReason → Type 0
  Stop judged reason =
      ((reason ≡ sufficient_candidates) × (t ≤ length judged.accepted))
      ⊎ ((reason ≡ similarity_saturation) × (length judged.accepted < t))
      ⊎ ((reason ≡ budget_exhausted)
          × (length judged.accepted < t)
          × (pos_part config.iteration_budget ≤ judged.iteration))

  stop_reason-Stop :
      (judged : HypothesisLoopState F) (refs new : List (HypothesisCandidate F))
      (reason : TerminationReason)
      → stop_reason f client config sim stamp judged refs new ≡ some reason
      → Stop judged reason
  unfolding stop_reason
  stop_reason-Stop judged refs new reason h = ground (arith, target)

  select_node-eq :
      (judged : HypothesisLoopState F) (reason : TerminationReason)
      → reason ≢ running
      → select_node config.target_candidates (some reason) judged
        ≡ ok (record judged { accepted = take t judged.accepted; termination_reason = reason })
  unfolding select_node
  select_node-eq judged running h = absurd (h refl)
  select_node-eq judged sufficient_candidates h =
      ap (λ k. select_node k (some sufficient_candidates) judged) target
  select_node-eq judged similarity_saturation h =
      ap (λ k. select_node k (some similarity_saturation) judged) target
  select_node-eq judged budget_exhausted h =
      ap (λ k. select_node k (some budget_exhausted) judged) target

  -- The state that a pass which does not go on selects.
  selected-IsFinished :
      (from : ℕ) (d : Json) (judged : HypothesisLoopState F) (reason : TerminationReason)
      → from < judged.iteration
      → judged.iteration ≤ max (suc from) (pos_part config.iteration_budget)
      → judged.open_set ≡ []
      → IsDescending (ranks_below f (default_weights f)) judged.accepted
      → Stop judged reason
      → IsFinished from
          (record judged { accepted = take t judged.accepted; termination_reason = reason })
  unfolding is_terminated
  selected-IsFinished from d judged reason later within none_open sorted stop = record {
    terminated = ground arith;
    no_open = none_open;
    bounded = omega (arith, length-take t judged.accepted);
    ranked = IsDescending-take _ t judged.accepted sorted;
    advanced = later;
    within = within;
    sufficient_iff = ground (arith, length-take t judged.accepted);
    exhausted = ground arith;
  }

  stop_reason-none :
      (from : ℕ) (d : Json) (judged : HypothesisLoopState F)
      (refs new : List (HypothesisCandidate F))
      → IsJudged from d judged
      → stop_reason f client config sim stamp judged refs new ≡ none
      → suc from < pos_part config.iteration_budget
  unfolding stop_reason
  stop_reason-none from d judged refs new j h = ground (arith, j.iteration)

  generate_node-ok :
      (d : Json) (current : HypothesisLoopState F) (w : W)
      → current.diagnosis ≡ some d
      → (generated : HypothesisLoopState F) × (w' : W) × (generate_node client config current none w
          ≡ (ok generated, w'))
        × (generated.diagnosis ≡ some d)
        × (generated.iteration ≡ current.iteration)
  unfolding generate_node
  generate_node-ok d current w h =
      let answer =
        client.generate d current.kb_cites current.prior_decisions
          (gap_of config.target_candidates (length current.accepted)) config.reasoning_model w in
      (record current { open_set = current.open_set ++ answer.0 }, answer.1, ground arith, h, refl)

  module _ (again : HypothesisLoopState F → W → Option (Result (HypothesisLoopState F) × W))
      (refs new : List (HypothesisCandidate F)) (judged : HypothesisLoopState F) (w : W) where
    finish_pass-none :
        stop_reason f client config sim stamp judged refs new ≡ none
        → finish_pass f client config sim stamp again refs new judged w ≡ again judged w
    unfolding finish_pass
    finish_pass-none e = rw (e, finish_pass)

    finish_pass-some :
        (reason : TerminationReason)
        → stop_reason f client config sim stamp judged refs new ≡ some reason
        → finish_pass f client config sim stamp again refs new judged w
          ≡ some (select_node config.target_candidates (some reason) judged, w)
    unfolding finish_pass
    finish_pass-some reason e = rw (e, finish_pass)

  -- A pass before the last one leaves the bounds of the later passes good for the whole loop.
  IsFinished-before :
      (from later : ℕ) (s : HypothesisLoopState F)
      → later ≡ from + 1
      → suc from < pos_part config.iteration_budget
      → IsFinished later s
      → IsFinished from s
  IsFinished-before from later s e room v = record {
    terminated = v.terminated;
    no_open = v.no_open;
    bounded = v.bounded;
    ranked = v.ranked;
    advanced = omega (arith, v.advanced);
    within = omega (arith, v.within);
    sufficient_iff = v.sufficient_iff;
    exhausted = v.exhausted;
  }

  -- The result of a loop or of the rest of one.
  abbrev Returns : ℕ → Option (Result (HypothesisLoopState F) × W) → Type 0
  Returns from out =
      (s : HypothesisLoopState F) × (w' : W) × (out ≡ some (ok s, w')) × IsFinished from s

  inner_loop-Returns :
      (fuel : ℕ) (d : Json) (current : HypothesisLoopState F) (w : W)
      → current.diagnosis ≡ some d
      → 1 ≤ fuel
      → pos_part config.iteration_budget < fuel + current.iteration
      → Returns current.iteration (inner_loop f client config sim stamp fuel current w)
  unfolding inner_loop
  inner_loop-Returns zero d current w h one enough = absurd (omega arith)
  inner_loop-Returns (suc fuel) d current w h one enough =
      let (generated, w₁, made, diagnosed, counted) = generate_node-ok d current w h in
      let refs = prior_rejected_candidates f current in
      let new = generated.open_set in
      let j = judge-IsJudged current.iteration d generated w₁ diagnosed counted in
      let (judged, w₂) = judge f client config sim stamp generated w₁ in
      let again = inner_loop f client config sim stamp fuel in
      let entered =
        ap
          (λ (g : Result (HypothesisLoopState F) × W).
            after_generate f client config sim stamp again refs g.0 g.1)
          made in
      elim (Option-cases (stop_reason f client config sim stamp judged refs new)) [
        | inl e ↦
            let room = stop_reason-none current.iteration d judged refs new j e in
            let (s, w', returned, v) =
              inner_loop-Returns fuel d judged w₂ j.diagnosis (omega (arith, j.iteration))
                (omega (arith, j.iteration)) in
            (
              s,
              w',
              entered ∙ finish_pass-none again refs new judged w₂ e ∙ returned,
              IsFinished-before current.iteration judged.iteration s j.iteration room v,
            )
        | inr (reason, e) ↦
            let stop = stop_reason-Stop judged refs new reason e in
            let chosen = select_node-eq judged reason (λ r. ground arith) in
            (
              record judged { accepted = take t judged.accepted; termination_reason = reason },
              w₂,
              entered
                  ∙ finish_pass-some again refs new judged w₂ reason e
                  ∙ ap (λ r. some (r, w₂)) chosen,
              selected-IsFinished current.iteration d judged reason (omega (arith, j.iteration))
                  (omega (arith, j.iteration)) j.no_open j.ranked stop,
            )
      ]

  -- From a diagnosed state and with a target that is not negative the loop always returns a state,
  -- for every client. That state is terminated and has no open candidate; at most as many entries
  -- are accepted as the target asks, the best score first; the iteration counter has grown, and
  -- passes the iteration budget only where the budget left no pass at all; the reason is
  -- `sufficient_candidates` exactly when the target is met, and `budget_exhausted` only with the
  -- budget used up.
  pub run_inner_loop-IsFinished :
      (d : Json) (state : HypothesisLoopState F) (w : W)
      → state.diagnosis ≡ some d
      → (s : HypothesisLoopState F) × (w' : W) × (run_inner_loop f client config sim stamp state w
          ≡ some (ok s, w'))
        × IsFinished state.iteration s
  unfolding run_inner_loop
  run_inner_loop-IsFinished d state w h =
      rw (h, run_inner_loop)
        (inner_loop-Returns (suc (pos_part config.iteration_budget)) d state w h (omega arith)
          (omega arith))
