-- ===== src/Selection/Selector.antt =====
-- python/strategy_gpt/selection/selector.py: the decision over the cross-validated candidates. The
-- sensitivity of a candidate (sensitivity.py), the equality of two parameter sets and the functions
-- that Cscv and Dsr take are arguments.
pub mod Decision
pub mod Order
use strategy_gpt.Prelude.Sorting.{sorted_desc}
use strategy_gpt.Selection.Cscv.{PboResult, compute_pbo, no_pbo}
use strategy_gpt.Prelude.Result.{Result, ok, ◌>>=◌}
use strategy_gpt.Selection.Candidates.{
  SelectionCandidate, SensitivityResult, key_lt, SelectionKnobs, Scored, SelectionArguments,
  SelectionStatus, per_fold_variance, SelectionDecision, accepted, rejected_pbo,
  rejected_constraint,
}
use strategy_gpt.Prelude.Dict.{Dict, lookup}
use strategy_gpt.Selection.Dsr.{Normal, DsrResult, compute_dsr}
use strategy_gpt.Prelude.{
  ℕ, List, Bool, take, false, length, if◌then◌else◌, Option, ◌∷◌, max, some, none, true, [], ◌||◌,
  map, ◌&&◌, ◌++◌, not,
}
use strategy_gpt.Prelude.Floats.{Float, of_ℕ}

module _ {F V : Type 0} (f : Float F) (log : F → F)
    (sample_splits : (s n_splits seed : ℕ) → List (List ℕ × List ℕ)) (normal : Normal F)
    (same_params : Dict V → Dict V → Bool)
    (compute_sensitivity : SelectionCandidate F V → SensitivityResult F) where
  abbrev pub aggregate_below : SelectionCandidate F V → SelectionCandidate F V → Bool
  aggregate_below a b =
      key_lt f (a.accepted, a.aggregate_score ∷ []) (b.accepted, b.aggregate_score ∷ [])

  -- `_top_k_candidates`
  abbrev pub top_k_candidates : List (SelectionCandidate F V) → ℕ → List (SelectionCandidate F V)
  top_k_candidates candidates top_k = take (max top_k 1) (sorted_desc aggregate_below candidates)

  abbrev pub seen_among : Dict V → List (Dict V) → Bool
  seen_among params [] = false
  seen_among params (p ∷ ps) = same_params params p || seen_among params ps

  abbrev pub distinct_count : List (Dict V) → List (Dict V) → ℕ
  distinct_count seen [] = length seen
  distinct_count seen (p ∷ ps) = distinct_count (if seen_among p seen then seen else p ∷ seen) ps

  -- `_effective_n`; the history is the list of its parameter sets.
  unfoldable pub effective_n_of : Bool → List (SelectionCandidate F V) → List (Dict V) → ℕ
  effective_n_of by_trial_count candidates history =
      if by_trial_count
      then max (length history) (length candidates)
      else max
          (distinct_count [] (history ++ map (λ (c : SelectionCandidate F V). c.params) candidates))
          1

  abbrev pub sharpe_or_score : Option F → F → F
  sharpe_or_score none score = score
  sharpe_or_score (some sharpe) score = sharpe

  abbrev pub raw_sharpe_of : SelectionCandidate F V → F
  raw_sharpe_of c = sharpe_or_score (lookup "sharpe" c.aggregate_metrics) c.aggregate_score

  abbrev pub dsr_of : Bool → ℕ → SelectionCandidate F V → DsrResult F
  dsr_of true effective_n c = compute_dsr f normal effective_n (record {
    sharpe = raw_sharpe_of c;
    trade_count = c.trade_count;
    skew = c.skew;
    kurt = c.kurt;
  })
  dsr_of false effective_n c = record {
    sharpe = raw_sharpe_of c;
    expected_max_sharpe = of_ℕ f 0;
    sharpe_variance = of_ℕ f 0;
    z = of_ℕ f 0;
    dsr = of_ℕ f 0;
  }

  abbrev pub sensitivity_of : Bool → SelectionCandidate F V → SensitivityResult F
  sensitivity_of true c = compute_sensitivity c
  sensitivity_of false c = record {
    raw_score = c.aggregate_score;
    neighborhood_mean = c.aggregate_score;
    neighborhood_std = of_ℕ f 0;
    robust_score = c.aggregate_score;
    neighbors_used = 0;
  }

  abbrev pub scored_candidate : SelectionKnobs F → ℕ → SelectionCandidate F V → Scored F V
  scored_candidate knobs effective_n c = record {
    candidate = c;
    scores = record {
      trial_id = c.trial_id;
      raw_score = c.aggregate_score;
      raw_sharpe = raw_sharpe_of c;
      dsr = dsr_of knobs.dsr_enabled effective_n c;
      sensitivity = sensitivity_of knobs.sensitivity_enabled c;
    };
  }

  -- The key of the ranking; `-x` is written `0 - x`.
  abbrev pub ranking_key : Bool → Scored F V → Bool × List F
  ranking_key robust s = (
    s.candidate.accepted,
    (if robust then s.scores.sensitivity.robust_score else s.scores.dsr.dsr)
        ∷ s.scores.raw_score
        ∷ f.sub (of_ℕ f 0) (per_fold_variance f s.candidate.per_fold_oos_primary)
        ∷ [],
  )

  abbrev pub ranked_below : Bool → Scored F V → Scored F V → Bool
  ranked_below robust a b = key_lt f (ranking_key robust a) (ranking_key robust b)

  abbrev pub pbo_of : SelectionArguments F → List (SelectionCandidate F V) → Result (PboResult F)
  pbo_of a top_k =
      let matrix = map (λ (c : SelectionCandidate F V). c.per_fold_oos_primary) top_k in
      if a.knobs.pbo.enabled
      then compute_pbo f log sample_splits matrix a.knobs.pbo a.pbo_seed
      else ok (record {
        pbo = of_ℕ f 0;
        n_splits = 0;
        enumerated = true;
        seed = none;
        n_trials = length top_k;
        n_folds = elim matrix [ [] ↦ 0 | row ∷ rows ↦ length row ];
      })

  abbrev pub threshold_of : SelectionArguments F → F
  threshold_of a = elim a.pbo_threshold_override [ none ↦ a.knobs.pbo.threshold | some t ↦ t ]

  abbrev pub top_id : List (Scored F V) → Option ℕ
  top_id [] = none
  top_id (s ∷ ranked) = some s.scores.trial_id

  abbrev pub top_accepted : List (Scored F V) → Bool
  top_accepted [] = false
  top_accepted (s ∷ ranked) = s.candidate.accepted

  abbrev pub status_of : SelectionArguments F → PboResult F → List (Scored F V) → SelectionStatus
  status_of a pbo ranked =
      if a.knobs.pbo.enabled && f.lt (threshold_of a) pbo.pbo && not a.force
      then rejected_pbo
      else if top_accepted ranked
      then accepted
      else rejected_constraint

  abbrev pub best_trial_of : SelectionStatus → List (Scored F V) → Option ℕ
  best_trial_of accepted ranked = top_id ranked
  best_trial_of rejected_pbo ranked = none
  best_trial_of rejected_constraint ranked = none

  abbrev pub decision_over :
      SelectionArguments F
      → PboResult F
      → ℕ
      → ℕ
      → List (Scored F V)
      → List (Scored F V)
      → SelectionDecision F
  decision_over a pbo effective_n history_size scored ranked = record {
    status = status_of a pbo ranked;
    best_trial_id = best_trial_of (status_of a pbo ranked) ranked;
    would_have_picked_trial_id = top_id ranked;
    pbo = pbo;
    candidate_scores = map (λ (s : Scored F V). s.scores) scored;
    ranking = map (λ (s : Scored F V). s.scores.trial_id) ranked;
    robust_objective = a.robust_objective;
    force_override = a.force;
    pbo_threshold = threshold_of a;
    effective_n = effective_n;
    history_size = history_size;
  }

  unfoldable pub run_selection :
      List (SelectionCandidate F V)
      → List (Dict V)
      → SelectionArguments F
      → Result (SelectionDecision F)
  unfolding effective_n_of
  run_selection [] history a = ok (record {
    status = rejected_constraint;
    best_trial_id = none;
    would_have_picked_trial_id = none;
    pbo = no_pbo f log sample_splits 0 0;
    candidate_scores = [];
    ranking = [];
    robust_objective = a.robust_objective;
    force_override = a.force;
    pbo_threshold = threshold_of a;
    effective_n = 0;
    history_size = length history;
  })
  run_selection (c ∷ cs) history a =
      let top_k = top_k_candidates (c ∷ cs) a.knobs.pbo.top_k in
      let effective_n = effective_n_of a.knobs.by_trial_count (c ∷ cs) history in
      let scored = map (scored_candidate a.knobs effective_n) top_k in
      pbo_of a top_k >>= λ pbo. ok (
        decision_over a pbo effective_n (length history) scored
          (sorted_desc (ranked_below a.robust_objective) scored))
