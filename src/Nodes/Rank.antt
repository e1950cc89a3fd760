-- ===== src/Nodes/Rank.antt =====
-- `rank_node` sorts the accepted set, the best score first, and keeps the order of equal scores.
use mathlib.Core.List.{Perm}
use strategy_gpt.Prelude.{◌≡◌, Bool, true, false, filter}
use strategy_gpt.Prelude.Floats.{Float, IsOrdered}
use strategy_gpt.Prelude.Sorting.{
  IsDescending, IsWeakOrder, sorted_desc-perm, sorted_desc-filter, sorted_desc-IsDescending,
}
use strategy_gpt.HypothesisLoop.{AcceptedHypothesis, HypothesisLoopState}
use strategy_gpt.Nodes.{RankWeights, ranks_below, rank_node}

module _ {F : Type 0} (f : Float F) (order : IsOrdered f) (weights : RankWeights F) where
  pub ranks_below-IsWeakOrder : IsWeakOrder (ranks_below f weights)
  ranks_below-IsWeakOrder = record {
    asymm = λ a b. order.lt_asymm _ _;
    cotrans = λ a b c. order.lt_cotrans _ _ _;
  }

  -- Ranking permutes the accepted entries so that none stands before one with a greater score, and
  -- entries with the same score keep the order in which they were accepted: those that pass any test
  -- whose passing entries all score alike stand as before.
  pub rank_node_lem :
      (state : HypothesisLoopState F) (test : AcceptedHypothesis F → Bool)
      → ((a b : AcceptedHypothesis F)
          → test a ≡ true
          → test b ≡ true
          → ranks_below f weights a b ≡ false)
      → Perm (rank_node f weights state).accepted state.accepted
        × IsDescending (ranks_below f weights) (rank_node f weights state).accepted
        × (filter test (rank_node f weights state).accepted ≡ filter test state.accepted)
  unfolding rank_node
  rank_node_lem state test alike = (
    sorted_desc-perm (ranks_below f weights) state.accepted,
    sorted_desc-IsDescending (ranks_below f weights) ranks_below-IsWeakOrder state.accepted,
    sorted_desc-filter (ranks_below f weights) test state.accepted alike,
  )
