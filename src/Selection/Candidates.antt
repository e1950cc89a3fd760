-- ===== src/Selection/Candidates.antt =====
-- python/strategy_gpt/selection/selector.py: what the selection layer is given and returns, and the
-- order of its keys. The texts and the methodology are left out.
use strategy_gpt.Selection.Dsr.{DsrResult}
use strategy_gpt.Prelude.Dict.{Dict}
use strategy_gpt.Prelude.Floats.{Float, of_ℕ}
use strategy_gpt.Prelude.{true, ℕ, Option, Bool, List, false, ◌∷◌, if◌then◌else◌, length, map, []}
use strategy_gpt.Selection.Cscv.{PboKnobs, PboResult}

pub data SelectionStatus : Type 0 where
  accepted rejected_pbo rejected_constraint : SelectionStatus

pub record SelectionKnobs (F : Type 0) : Type 0 where
  pub pbo : PboKnobs F
  pub dsr_enabled : Bool
  -- `effective_n == "trial_count"`
  pub by_trial_count : Bool
  pub sensitivity_enabled : Bool

pub record SelectionCandidate (F V : Type 0) : Type 0 where
  pub trial_id : ℕ
  pub params : Dict V
  pub aggregate_score : F
  pub aggregate_metrics : Dict F
  pub per_fold_oos_primary : List F
  pub trade_count : ℕ
  pub accepted : Bool
  pub skew : F
  pub kurt : F

pub record SensitivityResult (F : Type 0) : Type 0 where
  pub raw_score : F
  pub neighborhood_mean : F
  pub neighborhood_std : F
  pub robust_score : F
  pub neighbors_used : ℕ

pub record CandidateScores (F : Type 0) : Type 0 where
  pub trial_id : ℕ
  pub raw_score : F
  pub raw_sharpe : F
  pub dsr : DsrResult F
  pub sensitivity : SensitivityResult F

pub record SelectionDecision (F : Type 0) : Type 0 where
  pub status : SelectionStatus
  pub best_trial_id : Option ℕ
  pub would_have_picked_trial_id : Option ℕ
  pub pbo : PboResult F
  pub candidate_scores : List (CandidateScores F)
  pub ranking : List ℕ
  pub robust_objective : Bool
  pub force_override : Bool
  pub pbo_threshold : F
  pub effective_n : ℕ
  pub history_size : ℕ

-- A candidate with its scores, as the ranking by index looks them up.
pub record Scored (F V : Type 0) : Type 0 where
  pub candidate : SelectionCandidate F V
  pub scores : CandidateScores F

-- What the layer is called with besides the candidates and the history.
pub record SelectionArguments (F : Type 0) : Type 0 where
  pub knobs : SelectionKnobs F
  pub robust_objective : Bool
  pub force : Bool
  pub pbo_threshold_override : Option F
  pub pbo_seed : ℕ

module _ {F : Type 0} (f : Float F) where
  -- Python's `<` on two tuples of floats of the same length.
  abbrev pub tuple_lt : List F → List F → Bool
  tuple_lt [] ys = false
  tuple_lt (x ∷ xs) [] = false
  tuple_lt (x ∷ xs) (y ∷ ys) = let rest = tuple_lt xs ys in if f.eq x y then rest else f.lt x y

  -- The same with a `bool` in front.
  abbrev pub key_lt : Bool × List F → Bool × List F → Bool
  key_lt (false, xs) (true, ys) = true
  key_lt (true, xs) (false, ys) = false
  key_lt (true, xs) (true, ys) = tuple_lt xs ys
  key_lt (false, xs) (false, ys) = tuple_lt xs ys

  -- `_per_fold_variance`
  abbrev pub per_fold_variance : List F → F
  per_fold_variance [] = of_ℕ f 0
  per_fold_variance (v ∷ []) = of_ℕ f 0
  per_fold_variance (v ∷ w ∷ vs) =
      let values = v ∷ w ∷ vs in
      let mean = f.div (f.sum values) (of_ℕ f (length values)) in
      f.div (f.sum (map (λ x. f.square (f.sub x mean)) values)) (of_ℕ f (length values))
