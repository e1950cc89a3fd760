-- ===== src/Selection/Selector/Decision.antt =====
-- The decision: what is picked is the first in the ranking, and nothing acceptable is passed over.
use strategy_gpt.Prelude.Result.{ok, Error, raise, Result, ◌>>=◌, Result-cases}
use strategy_gpt.Selection.Cscv.{PboResult}
use strategy_gpt.Selection.Selector.{
  aggregate_below, ranked_below, top_accepted, threshold_of, scored_candidate, best_trial_of,
  run_selection, pbo_of, top_k_candidates, effective_n_of, decision_over,
}
use strategy_gpt.Selection.Selector.Order.{EqOfOrder, key_lt_asymm, key_lt_cotrans}
use strategy_gpt.Prelude.Dict.{Dict}
use strategy_gpt.Prelude.Sorting.{
  IsDescending, IsWeakOrder, sorted_desc, sorted_desc-IsDescending, All-of_sorted, sorted_desc-perm,
}
use strategy_gpt.Selection.Dsr.{Normal}
use strategy_gpt.Prelude.Floats.{Float, IsOrdered}
use strategy_gpt.Prelude.{
  Bool, ◌≡◌, ℕ, false, List, true, ◌∷◌, All, All-mono, Bool-cases, inl, Option, arith, some, map,
  ◌&&◌, inr, none, refl, not, take, max, suc, ◌≤◌, [], if◌then◌else◌, ◌⊎◌, zero, length, ap,
}
use mathlib.Core.List.{Perm}
use strategy_gpt.Selection.Candidates.{
  rejected_constraint, rejected_pbo, accepted, SelectionCandidate, SensitivityResult, Scored,
  SelectionArguments, SelectionStatus, SelectionKnobs, SelectionDecision,
}

-- Where an accepted element is above every one that is not, and the first is not accepted, none is.
none_accepted :
    {A : Type 0} (less : A → A → Bool) (test : A → Bool)
    → ((s t : A) → test s ≡ false → test t ≡ true → less s t ≡ true)
    → (s : A) (l : List A) → IsDescending less (s ∷ l)
    → test s ≡ false
    → All (λ t. test t ≡ false) (s ∷ l)
none_accepted less test above s l d h = (
  h,
  All-mono
      (λ t below. elim (Bool-cases (test t)) [
        | inl e ↦ absurd (ground (arith, below, above s t h e))
        | inr e ↦ e
      ])
      l d.0,
)

module _ {F V : Type 0} (f : Float F) (log : F → F)
    (sample_splits : (s n_splits seed : ℕ) → List (List ℕ × List ℕ)) (normal : Normal F)
    (same_params : Dict V → Dict V → Bool)
    (compute_sensitivity : SelectionCandidate F V → SensitivityResult F) (order : IsOrdered f)
    (law : EqOfOrder f) where
  abbrev pub ranked_under : Bool → Scored F V → Scored F V → Bool
  ranked_under = ranked_below f log sample_splits normal same_params compute_sensitivity

  ranked_under-IsWeakOrder : (robust : Bool) → IsWeakOrder (ranked_under robust)
  ranked_under-IsWeakOrder robust = record {
    asymm = λ a b. key_lt_asymm f order law _ _;
    cotrans = λ a b c. key_lt_cotrans f order law _ _ _ refl refl;
  }

  abbrev pub below : SelectionCandidate F V → SelectionCandidate F V → Bool
  below = aggregate_below f log sample_splits normal same_params compute_sensitivity

  below-IsWeakOrder : IsWeakOrder below
  below-IsWeakOrder = record {
    asymm = λ a b. key_lt_asymm f order law _ _;
    cotrans = λ a b c. key_lt_cotrans f order law _ _ _ refl refl;
  }

  -- The probability of overfitting is over the threshold, and the override is not used.
  abbrev pub over_threshold : SelectionArguments F → PboResult F → Bool
  over_threshold a pbo =
      a.knobs.pbo.enabled
      && f.lt (threshold_of f log sample_splits normal same_params compute_sensitivity a) pbo.pbo
      && not a.force

  -- What each status says of the ranked candidates and of all candidates.
  abbrev pub Picks :
      SelectionStatus → Option ℕ → Bool → List (Scored F V) → List (SelectionCandidate F V) → Type 0
  Picks accepted best overfit ranked all =
      (s : Scored F V) × (rest : List (Scored F V)) × (ranked ≡ s ∷ rest)
      × (best ≡ some s.scores.trial_id)
      × (s.candidate.accepted ≡ true)
      × (overfit ≡ false)
  Picks rejected_pbo best overfit ranked all = (best ≡ none) × (overfit ≡ true)
  Picks rejected_constraint best overfit ranked all =
      (best ≡ none)
      × (overfit ≡ false)
      × All (λ (c : SelectionCandidate F V). c.accepted ≡ false) all

  pub record IsDecision (a : SelectionArguments F) (all : List (SelectionCandidate F V))
      (d : SelectionDecision F) : Type 0 where
    pub ranked : List (Scored F V)
    pub ids : d.ranking ≡ map (λ (s : Scored F V). s.scores.trial_id) ranked
    pub descending : IsDescending (ranked_under a.robust_objective) ranked
    pub top_k : Perm ranked (
        map
          (scored_candidate f log sample_splits normal same_params compute_sensitivity a.knobs
            d.effective_n)
          (take (max a.knobs.pbo.top_k 1) (sorted_desc below all)))
    pub picks : Picks d.status d.best_trial_id (over_threshold a d.pbo) ranked all

  abbrev scored_with : SelectionKnobs F → ℕ → List (SelectionCandidate F V) → List (Scored F V)
  scored_with knobs n =
      map (scored_candidate f log sample_splits normal same_params compute_sensitivity knobs n)

  top_of : List (Scored F V) → Bool
  top_of = top_accepted f log sample_splits normal same_params compute_sensitivity

  none_ranked :
      (robust : Bool) (ranked : List (Scored F V))
      → IsDescending (ranked_under robust) ranked
      → top_of ranked ≡ false
      → All (λ (s : Scored F V). s.candidate.accepted ≡ false) ranked
  unfolding top_of
  none_ranked robust [] d h = tt
  none_ranked robust (s ∷ rest) d h =
      none_accepted (ranked_under robust) (λ (t : Scored F V). t.candidate.accepted)
        (λ u v p q. rw (p, q) refl) s rest d h

  none_sorted :
      (knobs : SelectionKnobs F) (n : ℕ) (robust : Bool) (keep : ℕ)
      (sorted : List (SelectionCandidate F V))
      → 1 ≤ keep
      → IsDescending below sorted
      → top_of (sorted_desc (ranked_under robust) (scored_with knobs n (take keep sorted))) ≡ false
      → All (λ (c : SelectionCandidate F V). c.accepted ≡ false) sorted
  none_sorted knobs n robust zero sorted k d h = absurd (omega (arith, k))
  none_sorted knobs n robust (suc keep) [] k d h = tt
  none_sorted knobs n robust (suc keep) (c ∷ cs) k d h =
      let scored = scored_with knobs n (take (suc keep) (c ∷ cs)) in
      let all_ranked =
        none_ranked robust (sorted_desc (ranked_under robust) scored)
          (sorted_desc-IsDescending (ranked_under robust) (ranked_under-IsWeakOrder robust) scored)
          h in
      let all_scored =
        All-of_sorted (ranked_under robust) (λ (s : Scored F V). s.candidate.accepted ≡ false)
          scored all_ranked in
      none_accepted below (λ (x : SelectionCandidate F V). x.accepted) (λ u v p q. rw (p, q) refl) c
        cs d all_scored.0

  none_among :
      (knobs : SelectionKnobs F) (n : ℕ) (robust : Bool) (keep : ℕ)
      (all : List (SelectionCandidate F V))
      → 1 ≤ keep
      → top_of (
          sorted_desc
            (ranked_under robust)
            (scored_with knobs n (take keep (sorted_desc below all))))
        ≡ false
      → All (λ (c : SelectionCandidate F V). c.accepted ≡ false) all
  none_among knobs n robust keep all k h =
      All-of_sorted below (λ (c : SelectionCandidate F V). c.accepted ≡ false) all
        (none_sorted knobs n robust keep (sorted_desc below all) k
          (sorted_desc-IsDescending below below-IsWeakOrder all) h)

  abbrev status_by : Bool → Bool → SelectionStatus
  status_by overfit top =
      if overfit then rejected_pbo else if top then accepted else rejected_constraint

  best : SelectionStatus → List (Scored F V) → Option ℕ
  best = best_trial_of f log sample_splits normal same_params compute_sensitivity

  chosen_top :
      (top : Bool) (s : Scored F V) (rest : List (Scored F V)) (all : List (SelectionCandidate F V))
      → s.candidate.accepted ≡ top
      → (top ≡ false → All (λ (c : SelectionCandidate F V). c.accepted ≡ false) all)
      → Picks (status_by false top) (best (status_by false top) (s ∷ rest)) false (s ∷ rest) all
  unfolding best
  chosen_top true s rest all e h = (s, rest, refl, refl, e, refl)
  chosen_top false s rest all e h = (refl, refl, h refl)

  chosen_by :
      (overfit : Bool) (ranked : List (Scored F V)) (all : List (SelectionCandidate F V))
      → (top_of ranked ≡ false → All (λ (c : SelectionCandidate F V). c.accepted ≡ false) all)
      → Picks
          (status_by overfit (top_of ranked))
          (best (status_by overfit (top_of ranked)) ranked)
          overfit
          ranked
          all
  unfolding best top_of
  chosen_by true ranked all h = (refl, refl)
  chosen_by false [] all h = (refl, refl, h refl)
  chosen_by false (s ∷ rest) all h = chosen_top s.candidate.accepted s rest all refl h

  -- Selection raises what the estimate of overfitting raises, or decides. The ranking is in
  -- descending order of its keys and holds the top candidates. What is accepted is the first of
  -- the ranking, which satisfies the constraints, and overfitting is not over the threshold or the
  -- override is used. A rejection for overfitting means the contrary. A rejection for constraints
  -- means that no candidate satisfies them, the ones that are not ranked included.
  pub run_selection-IsDecision :
      (c : SelectionCandidate F V) (cs : List (SelectionCandidate F V)) (history : List (Dict V))
      (a : SelectionArguments F)
      → ((d : SelectionDecision F) × (run_selection f log sample_splits normal same_params
              compute_sensitivity
              (c ∷ cs)
              history
              a
            ≡ ok d)
          × IsDecision a (c ∷ cs) d)
        ⊎ ((e : Error) × (run_selection f log sample_splits normal same_params compute_sensitivity
                (c ∷ cs)
                history
                a
              ≡ raise e)
            × (pbo_of f log sample_splits normal same_params compute_sensitivity a (
                  top_k_candidates f log sample_splits normal same_params compute_sensitivity
                    (c ∷ cs)
                    a.knobs.pbo.top_k)
                ≡ raise e))
  unfolding run_selection best top_of
  run_selection-IsDecision c cs history a =
      let all = c ∷ cs in
      let n =
        effective_n_of f log sample_splits normal same_params compute_sensitivity
          a.knobs.by_trial_count all history in
      let scored = scored_with a.knobs n (take (max a.knobs.pbo.top_k 1) (sorted_desc below all)) in
      let ranked = sorted_desc (ranked_under a.robust_objective) scored in
      let decide = λ (r : Result (PboResult F)). r >>= λ pbo. ok (
        decision_over f log sample_splits normal same_params compute_sensitivity a pbo n
          (length history) scored ranked) in
      elim (Result-cases (
        pbo_of f log sample_splits normal same_params compute_sensitivity a (
          top_k_candidates f log sample_splits normal same_params compute_sensitivity all
            a.knobs.pbo.top_k))) [
              | inr (e, h) ↦ inr (e, ap decide h, h)
              | inl (pbo, h) ↦ inl (
                decision_over f log sample_splits normal same_params compute_sensitivity a pbo n
                    (length history) scored ranked,
                ap decide h,
                record {
                  ranked = ranked;
                  ids = refl;
                  descending =
                      sorted_desc-IsDescending (ranked_under a.robust_objective)
                        (ranked_under-IsWeakOrder a.robust_objective) scored;
                  top_k = sorted_desc-perm (ranked_under a.robust_objective) scored;
                  picks = chosen_by (over_threshold a pbo) ranked all (
                      none_among a.knobs n a.robust_objective (max a.knobs.pbo.top_k 1) all
                        (omega arith));
                },
              )
            ]
