-- ===== src/Nodes/Examples.antt =====
-- Tests of the loop, and its theorems with a client that proposes one candidate for each call and
-- accepts every second one.
use strategy_gpt.Prelude.{
  ℕ, ◌+◌, ◌%◌, ◌≡◌, refl, Bool, true, none, some, List, [], ◌∷◌, ◌++◌, map, filter, length, ◌==◌,
  ◌&&◌, arith,
}
use mathlib.Core.List.{Perm}
use strategy_gpt.Prelude.Int.{ℤ, pos, negsuc, leb_ℤ}
use strategy_gpt.Prelude.Result.{ok, raise, runtime_error}
use strategy_gpt.Prelude.Sorting.{IsDescending, sorted_desc}
use strategy_gpt.Prelude.Samples.{whole, whole-IsOrdered, whole_arith}
use strategy_gpt.Json.{null, object, array, field, end, cons, nil}
use strategy_gpt.HypothesisLoop.{
  HypothesisCandidate, AcceptedHypothesis, HypothesisLoopState, running, budget_exhausted,
}
use strategy_gpt.Nodes.{
  ReasoningClient, HypothesisLoopConfig, RankWeights, complexity_delta, rank_score, ranks_below,
  rank_node, accepted_entry, critique_node, generate_node, select_node, false,
}
use strategy_gpt.Nodes.InnerLoop.{run_inner_loop}
use strategy_gpt.Nodes.Critique.{verdicts, world_after, accepted_of, rejected_of, critique_node_lem}
use strategy_gpt.Nodes.Rank.{rank_node_lem}
use strategy_gpt.Nodes.Loop.{IsFinished, run_inner_loop-IsFinished}

abbrev candidate : ℕ → HypothesisCandidate ℤ
candidate lift = record {
  name = "candidate";
  target_metric = "sharpe";
  falsification = null;
  proposed_change = null;
  kb_cites = [];
  estimated_lift_confidence = pos lift;
}

abbrev client : ReasoningClient ℤ ℕ
client = record {
  generate = λ d cites priors n model w. (candidate w ∷ candidate (w + 7) ∷ [], w + 1);
  critique = λ c priors d model w.
      (record { accept = w % 2 == 0; rationale = "because"; evidence = null }, w + 1);
}

abbrev config : ℕ → HypothesisLoopConfig ℤ
config target = record {
  reasoning_model = "model";
  iteration_budget = pos 2;
  target_candidates = pos target;
  similarity_threshold = pos 1;
}

abbrev weights : RankWeights ℤ
weights = record {
  lift = pos 2;
  evidence = pos 1;
  complexity_penalty = pos 1;
  simplicity_bonus = pos 1;
}

abbrev start : HypothesisLoopState ℤ
start = record {
  iteration = 0;
  open_set = [];
  accepted = [];
  rejected = [];
  kb_cites = [];
  prior_decisions = [];
  diagnosis = some null;
  termination_reason = running;
}

abbrev opened : HypothesisLoopState ℤ
opened = record start { open_set = candidate 1 ∷ candidate 2 ∷ candidate 3 ∷ [] }

abbrev sim : HypothesisCandidate ℤ → List (HypothesisCandidate ℤ) → ℤ
sim c refs = pos 0

abbrev entry : ℕ → AcceptedHypothesis ℤ
entry lift =
    accepted_entry client (config 3) 5 (candidate lift)
      (record { accept = true; rationale = "because"; evidence = null })

abbrev unranked : HypothesisLoopState ℤ
unranked = record start { accepted = entry 1 ∷ entry 3 ∷ entry 2 ∷ [] }

complexity :
    complexity_delta (
      object (
        field "files_manifest" (object (field "lib.rs" null end)) (
          field "param_intent"
            (object (field "removed" (array (cons null (cons null nil))) end))
            end)))
    ≡ (negsuc 1, pos 1)
unfolding complexity_delta
complexity = refl

ranked :
    map (λ a. a.candidate) (rank_node whole weights unranked).accepted
    ≡ candidate 3 ∷ candidate 2 ∷ candidate 1 ∷ []
unfolding rank_node rank_score sorted_desc whole_arith
ranked = refl

two_passes :
    (s : HypothesisLoopState ℤ) × (run_inner_loop whole client (config 3) sim 5 start 0
      ≡ some (ok s, 6))
    × (s.iteration ≡ 2)
    × (length s.accepted ≡ 2)
    × (s.termination_reason ≡ budget_exhausted)
unfolding run_inner_loop generate_node select_node rank_score sorted_desc whole_arith
two_passes = (_, refl, refl, refl, refl)

undiagnosed :
    run_inner_loop whole client (config 3) sim 5 (record start { diagnosis = none }) 0
    ≡ some (raise runtime_error, 0)
unfolding run_inner_loop
undiagnosed = refl

critique_node_lem_example :
    (map (λ v. v.0) (verdicts client (config 3) 5 [] (some null) opened.open_set 0)
      ≡ opened.open_set)
    × (critique_node client (config 3) 5 opened 0 ≡ (
      record opened {
        open_set = [];
        accepted =
            []
            ++ accepted_of client
                (config 3)
                5
                []
                (some null)
                (verdicts client (config 3) 5 [] (some null) opened.open_set 0);
        rejected =
            []
            ++ rejected_of client
                (config 3)
                5
                []
                (some null)
                (verdicts client (config 3) 5 [] (some null) opened.open_set 0);
      },
      world_after client (config 3) 5 [] (some null) opened.open_set 0,
    ))
critique_node_lem_example = critique_node_lem client (config 3) 5 opened 0

abbrev is_three : AcceptedHypothesis ℤ → Bool
is_three a =
    leb_ℤ (pos 6) (rank_score whole weights a.candidate)
    && leb_ℤ (rank_score whole weights a.candidate) (pos 6)

three_alike :
    (a b : AcceptedHypothesis ℤ)
    → is_three a ≡ true
    → is_three b ≡ true
    → ranks_below whole weights a b ≡ false
three_alike a b p q = ground arith

alike_keep_order :
    Perm (rank_node whole weights unranked).accepted unranked.accepted
    × IsDescending (ranks_below whole weights) (rank_node whole weights unranked).accepted
    × (filter is_three (rank_node whole weights unranked).accepted
        ≡ filter is_three unranked.accepted)
alike_keep_order = rank_node_lem whole whole-IsOrdered weights unranked is_three three_alike

run_inner_loop-IsFinished_example :
    (s : HypothesisLoopState ℤ) × (w' : ℕ) × (run_inner_loop whole client (config 2) sim 5 start 0
      ≡ some (ok s, w'))
    × IsFinished whole whole-IsOrdered client (config 2) sim 5 2 refl 0 s
run_inner_loop-IsFinished_example =
    run_inner_loop-IsFinished whole whole-IsOrdered client (config 2) sim 5 2 refl null start 0 refl
