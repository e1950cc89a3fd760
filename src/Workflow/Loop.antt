-- ===== src/Workflow/Loop.antt =====
-- The cycle of the workflow ends within its budget, and how.
use strategy_gpt.Prelude.{
  ℕ, zero, suc, ◌+◌, ◌≤◌, ◌<◌, max, ◌≡◌, ◌⊎◌, ◌↔◌, inl, inr, refl, ap, ◌∙◌, Option, none, some,
  List, Bool, true, false, length, take, length-take, arith, Option-cases, subst, sym,
}
use strategy_gpt.Prelude.Int.{pos, pos_part}
use strategy_gpt.Prelude.Floats.{Float, IsOrdered}
use strategy_gpt.Prelude.Result.{Result, ok, raise, Error}
use strategy_gpt.Prelude.Sorting.{IsDescending, IsDescending-take, sorted_desc-IsDescending}
use strategy_gpt.HypothesisLoop.{
  TerminationReason, AcceptedHypothesis, similarity_saturation, running, sufficient_candidates,
  budget_exhausted,
}
use strategy_gpt.Nodes.{HypothesisLoopConfig, default_weights, ranks_below}
use strategy_gpt.Nodes.Rank.{ranks_below-IsWeakOrder}
use strategy_gpt.Workflow.{HypothesizeState, NodeClients}
use strategy_gpt.Workflow.Graph.{
  select_step, should_continue, candidate_pass, written, after_pass, cycle, is_spent, reason_after,
  slice_to,
}
use strategy_gpt.Workflow.Invariant.{Fits}
use strategy_gpt.Workflow.Pass.{
  IsCommitted, Fate, unrecorded, refused, approved, candidate_pass_lem,
}

module _ {F W : Type 0} (f : Float F) (order : IsOrdered f) (clients : NodeClients F W)
    (cfg : HypothesisLoopConfig F) (t : ℕ) (target : cfg.target_candidates ≡ pos t) where
  -- The state `s` is a proper end of a run that started with the iteration counter at `from` and
  -- the limit `limit` on backtests.
  pub record IsSelected (from : ℕ) (limit : Option ℕ) (s : HypothesizeState F) : Type 0 where
    pub bounded : length s.accepted ≤ t
    pub best_first : IsDescending (ranks_below f (default_weights f)) s.accepted
    pub advanced : from < s.iteration
    pub within : s.iteration ≤ max (suc from) (pos_part cfg.iteration_budget)
    pub affordable : Fits limit s.backtests_consumed
    pub sufficient_iff : (s.termination_reason ≡ sufficient_candidates) ↔ (length s.accepted ≡ t)
    pub exhausted :
        (s.termination_reason ≡ sufficient_candidates)
        ⊎ ((s.termination_reason ≡ budget_exhausted)
            × ((pos_part cfg.iteration_budget ≤ s.iteration)
                ⊎ (is_spent f clients cfg limit s.backtests_consumed ≡ true)))

  -- Why the edge after a pass leaves the cycle.
  abbrev Stop : Option ℕ → HypothesizeState F → TerminationReason → Type 0
  Stop limit s reason =
      ((reason ≡ sufficient_candidates) × (t ≤ length s.accepted))
      ⊎ ((reason ≡ budget_exhausted)
          × (length s.accepted < t)
          × ((pos_part cfg.iteration_budget ≤ s.iteration)
              ⊎ (is_spent f clients cfg limit s.backtests_consumed ≡ true)))

  should_continue-Stop :
      (s : HypothesizeState F) (reason : TerminationReason)
      → should_continue f clients cfg s ≡ some reason
      → Stop s.max_backtests s reason
  unfolding should_continue
  should_continue-Stop s reason h = ground (arith, target)

  should_continue-none :
      (s : HypothesizeState F)
      → should_continue f clients cfg s ≡ none
      → s.iteration < pos_part cfg.iteration_budget
  unfolding should_continue
  should_continue-none s h = ground arith

  abbrev selected : HypothesizeState F → TerminationReason → HypothesizeState F
  selected s reason = record s { accepted = take t s.accepted; termination_reason = reason }

  reason_after-Stop :
      (limit : Option ℕ) (s : HypothesizeState F) (reason : TerminationReason)
      → Stop limit s reason
      → reason_after f clients cfg running (length (take t s.accepted)) ≡ reason
  reason_after-Stop limit s reason stop = ground (arith, target, length-take t s.accepted)

  reason_after-written :
      (limit : Option ℕ) (s : HypothesizeState F) (reason : TerminationReason) (n : ℕ)
      → Stop limit s reason
      → reason_after f clients cfg reason n ≡ reason
  reason_after-written limit s running n stop = absurd (ground arith)
  reason_after-written limit s sufficient_candidates n stop = refl
  reason_after-written limit s budget_exhausted n stop = refl
  reason_after-written limit s similarity_saturation n stop = refl

  abbrev with_end :
      HypothesizeState F → List (AcceptedHypothesis F) → TerminationReason → HypothesizeState F
  with_end s l reason = record s { accepted = l; termination_reason = reason }

  sliced : (s : HypothesizeState F) → slice_to cfg.target_candidates s.accepted ≡ take t s.accepted
  sliced s = ap (λ k. slice_to k s.accepted) target

  select_step-written :
      (keeps_writes : Bool) (limit : Option ℕ) (s : HypothesizeState F) (reason : TerminationReason)
      → s.termination_reason ≡ running
      → Stop limit s reason
      → select_step f clients cfg (written f clients cfg keeps_writes reason s) ≡ selected s reason
  unfolding select_step
  select_step-written true limit s reason e stop =
      ap (λ l. with_end s l (reason_after f clients cfg reason (length l))) (sliced s)
      ∙ ap (with_end s (take t s.accepted))
          (reason_after-written limit s reason (length (take t s.accepted)) stop)
  select_step-written false limit s reason e stop =
      ap (λ l. with_end s l (reason_after f clients cfg s.termination_reason (length l))) (sliced s)
      ∙ ap (with_end s (take t s.accepted)) (
          ap (λ r. reason_after f clients cfg r (length (take t s.accepted))) e
          ∙ reason_after-Stop limit s reason stop)

  selected-IsSelected :
      (from : ℕ) (limit : Option ℕ) (s : HypothesizeState F) (reason : TerminationReason)
      → from < s.iteration
      → s.iteration ≤ max (suc from) (pos_part cfg.iteration_budget)
      → Fits limit s.backtests_consumed
      → IsDescending (ranks_below f (default_weights f)) s.accepted
      → Stop limit s reason
      → IsSelected from limit (selected s reason)
  selected-IsSelected from limit s reason later within fits sorted stop = record {
    bounded = omega (arith, length-take t s.accepted);
    best_first = IsDescending-take _ t s.accepted sorted;
    advanced = later;
    within = within;
    affordable = fits;
    sufficient_iff = ground (arith, length-take t s.accepted);
    exhausted = ground arith;
  }

  Fate-IsDescending :
      (s₀ s : HypothesizeState F)
      → Fate f clients cfg s₀ s
      → IsDescending (ranks_below f (default_weights f)) s.accepted
  Fate-IsDescending s₀ s (unrecorded e _ _) =
      rw e (sorted_desc-IsDescending _ (ranks_below-IsWeakOrder f order (default_weights f)) _)
  Fate-IsDescending s₀ s (refused _ _ _ _ e _ _) =
      rw e (sorted_desc-IsDescending _ (ranks_below-IsWeakOrder f order (default_weights f)) _)
  Fate-IsDescending s₀ s (approved _ _ _ _ _ e _ _) =
      rw e (sorted_desc-IsDescending _ (ranks_below-IsWeakOrder f order (default_weights f)) _)

  -- The rest of a run.
  abbrev pub Returns : ℕ → Option ℕ → Option (Result (HypothesizeState F) × W) → Type 0
  Returns from limit out =
      ((e : Error) × (w' : W) × (out ≡ some (raise e, w')))
      ⊎ ((s : HypothesizeState F) × (w' : W) × (out ≡ some (ok s, w')) × IsSelected from limit s)

  Returns-before :
      (from later : ℕ) (limit : Option ℕ) (out : Option (Result (HypothesizeState F) × W))
      → later ≡ from + 1
      → later < pos_part cfg.iteration_budget
      → Returns later limit out
      → Returns from limit out
  Returns-before from later limit out e room (inl raised) = inl raised
  Returns-before from later limit out e room (inr (s, w', returned, v)) = inr (
    s,
    w',
    returned,
    record {
      bounded = v.bounded;
      best_first = v.best_first;
      advanced = omega (arith, v.advanced);
      within = omega (arith, v.within);
      affordable = v.affordable;
      sufficient_iff = v.sufficient_iff;
      exhausted = v.exhausted;
    },
  )

  -- A pass that has not raised, and the end of the cycle or the rest of it.
  after_pass-Returns :
      (keeps_writes : Bool)
      (again : HypothesizeState F → W → Option (Result (HypothesizeState F) × W))
      (s₀ s : HypothesizeState F) (w : W)
      → s₀.termination_reason ≡ running
      → IsCommitted f clients cfg s₀ s
      → (s.iteration < pos_part cfg.iteration_budget
          → Returns s.iteration s.max_backtests (again s w))
      → Returns s₀.iteration s₀.max_backtests (after_pass f clients cfg keeps_writes again (ok s) w)
  unfolding after_pass
  after_pass-Returns keeps_writes again s₀ s w run c go =
      elim (Option-cases (should_continue f clients cfg s)) [
        | inl e ↦
            let room = should_continue-none s e in
            rw (e, after_pass)
              (Returns-before s₀.iteration s.iteration s₀.max_backtests (again s w) c.iteration room
                (subst (λ l. Returns s.iteration l (again s w)) c.limit (go room)))
        | inr (reason, e) ↦
            let stop : Stop s₀.max_backtests s reason =
              subst (λ l. Stop l s reason) c.limit (should_continue-Stop s reason e) in
            let chosen =
              select_step-written keeps_writes s₀.max_backtests s reason (c.reason ∙ run) stop in
            rw (e, after_pass)
              (inr (
                selected s reason,
                w,
                ap (λ (r : HypothesizeState F). some (ok r, w)) chosen,
                selected-IsSelected s₀.iteration s₀.max_backtests s reason
                    (omega (arith, c.iteration)) (omega (arith, c.iteration)) c.within
                    (Fate-IsDescending s₀ s c.fate) stop,
              ))
      ]

  pub cycle-Returns :
      (keeps_writes : Bool) (fuel : ℕ) (s₀ : HypothesizeState F) (w : W)
      → s₀.termination_reason ≡ running
      → Fits s₀.max_backtests s₀.backtests_consumed
      → 1 ≤ fuel
      → pos_part cfg.iteration_budget < fuel + s₀.iteration
      → Returns s₀.iteration s₀.max_backtests (cycle f clients cfg keeps_writes fuel s₀ w)
  unfolding cycle
  cycle-Returns keeps_writes zero s₀ w run fits one enough = absurd (omega arith)
  cycle-Returns keeps_writes (suc fuel) s₀ w run fits one enough =
      let passed = candidate_pass f clients cfg s₀ w in
      let again = cycle f clients cfg keeps_writes fuel in
      elim (candidate_pass_lem f clients cfg s₀ w fits) [
        | inl (e, h) ↦
            inl (e, passed.1, ap (λ r. after_pass f clients cfg keeps_writes again r passed.1) h)
        | inr (s, h, c) ↦ rw h (
            after_pass-Returns keeps_writes again s₀ s passed.1 run c (λ room.
              cycle-Returns keeps_writes fuel s passed.1 (c.reason ∙ run)
                (subst (λ l. Fits l s.backtests_consumed) (sym c.limit) c.within)
                (omega (arith, c.iteration)) (omega (arith, c.iteration))))
      ]
