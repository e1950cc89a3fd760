-- ===== src/Nodes/Critique.antt =====
-- `critique_node` empties the open set by the client's verdicts, one for each candidate.
use mathlib.Core.List.{append_assoc, append-nil}
use strategy_gpt.Prelude.{
  ℕ, ◌≡◌, refl, sym, ap, inl, inr, not, Option, List, [], ◌∷◌, ◌++◌, map, arith, Bool-cases, filter,
}
use strategy_gpt.Json.{Json}
use strategy_gpt.HypothesisLoop.{
  HypothesisCandidate, AcceptedHypothesis, RejectedHypothesis, PriorDecision, HypothesisLoopState,
}
use strategy_gpt.Nodes.{
  CritiqueOutcome, ReasoningClient, HypothesisLoopConfig, accepted_entry, rejected_entry,
  critique_each, critique_node,
}

module _ {F W : Type 0} (client : ReasoningClient F W) (config : HypothesisLoopConfig F) (stamp : ℕ)
    (priors : List PriorDecision) (diagnosis : Option Json) where
  -- Each candidate with the verdict that the client gives when it is asked about them in turn, and
  -- the world after the last answer.
  abbrev pub verdicts :
      List (HypothesisCandidate F) → W → List (HypothesisCandidate F × CritiqueOutcome)
  verdicts [] w = []
  verdicts (c ∷ cs) w =
      (c, (client.critique c priors diagnosis config.reasoning_model w).0)
      ∷ verdicts cs (client.critique c priors diagnosis config.reasoning_model w).1

  abbrev pub world_after : List (HypothesisCandidate F) → W → W
  world_after [] w = w
  world_after (c ∷ cs) w =
      world_after cs (client.critique c priors diagnosis config.reasoning_model w).1

  abbrev pub accepted_of :
      List (HypothesisCandidate F × CritiqueOutcome) → List (AcceptedHypothesis F)
  accepted_of vs =
      map (λ v. accepted_entry client config stamp v.0 v.1) (filter (λ v. v.1.accept) vs)

  abbrev pub rejected_of :
      List (HypothesisCandidate F × CritiqueOutcome) → List (RejectedHypothesis F)
  rejected_of vs =
      map (λ v. rejected_entry client config stamp v.0 v.1) (filter (λ v. not v.1.accept) vs)

  verdicts-candidates :
      (cs : List (HypothesisCandidate F)) (w : W) → map (λ v. v.0) (verdicts cs w) ≡ cs
  verdicts-candidates [] w = refl
  verdicts-candidates (c ∷ cs) w = ap (◌∷◌ c) (verdicts-candidates cs _)

  critique_each_lem :
      (cs : List (HypothesisCandidate F)) (acc : List (AcceptedHypothesis F))
      (rej : List (RejectedHypothesis F)) (w : W)
      → critique_each client config stamp priors diagnosis cs acc rej w
        ≡ (acc ++ accepted_of (verdicts cs w), rej ++ rejected_of (verdicts cs w), world_after cs w)
  unfolding critique_each
  critique_each_lem [] acc rej w = λ i. (sym (append-nil acc) i, sym (append-nil rej) i, w)
  critique_each_lem (c ∷ cs) acc rej w =
      let (outcome, w') = client.critique c priors diagnosis config.reasoning_model w in
      let a = accepted_entry client config stamp c outcome in
      let r = rejected_entry client config stamp c outcome in
      elim (Bool-cases outcome.accept) [
        | inl y ↦ ground (
          arith,
          critique_each_lem cs (acc ++ a ∷ []) rej w',
          append_assoc acc (a ∷ []) (accepted_of (verdicts cs w')),
        )
        | inr n ↦ ground (
          arith,
          critique_each_lem cs acc (rej ++ r ∷ []) w',
          append_assoc rej (r ∷ []) (rejected_of (verdicts cs w')),
        )
      ]

module _ {F W : Type 0} (client : ReasoningClient F W) (config : HypothesisLoopConfig F)
    (stamp : ℕ) where
  -- After critique no candidate is open. Each open candidate was put to the client once, in order;
  -- those that it accepted follow the accepted entries and the others follow the rejected ones, in
  -- order and with the client's rationale. The rest of the state is as it was.
  pub critique_node_lem :
      (state : HypothesisLoopState F) (w : W)
      → (map
            (λ v. v.0)
            (verdicts client config stamp state.prior_decisions state.diagnosis state.open_set w)
          ≡ state.open_set)
        × (critique_node client config stamp state w ≡ (
          record state {
            open_set = [];
            accepted =
                state.accepted
                ++ accepted_of client config stamp state.prior_decisions state.diagnosis (
                    verdicts client config stamp state.prior_decisions state.diagnosis
                      state.open_set w);
            rejected =
                state.rejected
                ++ rejected_of client config stamp state.prior_decisions state.diagnosis (
                    verdicts client config stamp state.prior_decisions state.diagnosis
                      state.open_set w);
          },
          world_after client config stamp state.prior_decisions state.diagnosis state.open_set w,
        ))
  unfolding critique_node
  critique_node_lem state w =
      let asked =
        critique_each_lem client config stamp state.prior_decisions state.diagnosis state.open_set
          state.accepted state.rejected w in
      (
        verdicts-candidates client config stamp state.prior_decisions state.diagnosis state.open_set
            w,
        ap {B = HypothesisLoopState F × W}
            (λ (t : List (AcceptedHypothesis F) × List (RejectedHypothesis F) × W).
              (record state { open_set = []; accepted = t.0; rejected = t.1 }, t.2))
            asked,
      )
