-- ===== src/Selection/Sensitivity.antt =====
-- python/strategy_gpt/selection/sensitivity.py: the robust score of a candidate among its nearest
-- trials. Whether a parameter value is a number, the equality of values, `math.isfinite` and
-- `statistics.pstdev` are arguments; a value None is a missing key.
pub mod Nearest
mod Examples
use strategy_gpt.Prelude.Dict.{Dict, lookup, assign, keys}
use strategy_gpt.Prelude.Floats.{Float, of_ℕ}
use strategy_gpt.Prelude.Maximum.{max_from}
use strategy_gpt.Prelude.Sorting.{sorted_desc}
use strategy_gpt.Prelude.{
  ℕ, Bool, true, false, List, [], ◌∷◌, Option, some, none, String, if◌then◌else◌, ◌++◌, map, take,
  min, length, filter, ltb, not,
}
use strategy_gpt.Selection.Candidates.{SensitivityResult}

pub record SensitivityKnobs (F : Type 0) : Type 0 where
  pub enabled : Bool
  pub neighborhood_k : ℕ
  pub penalty : F

pub record TrialPoint (F V : Type 0) : Type 0 where
  pub params : Dict V
  pub score : F

-- `for k in params: keys.setdefault(k, None)`
abbrev pub add_keys : Dict (Unit {0}) → List String → Dict (Unit {0})
add_keys seen [] = seen
add_keys seen (k ∷ ks) = add_keys (assign k tt seen) ks

module _ {F V : Type 0} where
  -- `_collect_param_keys`
  abbrev pub keys_from : Dict (Unit {0}) → List (TrialPoint F V) → List String
  keys_from seen [] = keys seen
  keys_from seen (p ∷ points) = keys_from (add_keys seen (keys p.params)) points

module _ {F V : Type 0} (f : Float F) (number : V → Option F) (same : V → V → Bool)
    (is_finite : F → Bool) (pstdev : List F → F) where
  -- The numbers under a key; `none` if some value there is not a number.
  abbrev pub numeric_vals : String → List (TrialPoint F V) → Option (List F)
  numeric_vals k [] = some []
  numeric_vals k (p ∷ points) = elim (lookup k p.params) as (λ v. Option (List F)) [
    | none ↦ numeric_vals k points
    | some v ↦ elim (number v) as (λ x. Option (List F)) [
      | none ↦ none
      | some x ↦ elim (numeric_vals k points) as (λ xs. Option (List F)) [
        | none ↦ none
        | some xs ↦ some (x ∷ xs)
      ]
    ]
  ]

  abbrev pub range_entry : String → Option (List F) → Dict (F × F)
  range_entry k none = []
  range_entry k (some []) = []
  range_entry k (some (x ∷ xs)) = (k, (max_from (λ a b. f.lt b a) x xs, max_from f.lt x xs)) ∷ []

  -- `_min_max_ranges`, for keys that differ.
  abbrev pub min_max_ranges : List (TrialPoint F V) → List String → Dict (F × F)
  min_max_ranges points [] = []
  min_max_ranges points (k ∷ ks) = range_entry k (numeric_vals k points) ++ min_max_ranges points ks

  -- `sq += 1.0` where the two values differ.
  abbrev pub add_category : Option V → Option V → F → F
  add_category none none sq = sq
  add_category none (some b) sq = f.add sq (of_ℕ f 1)
  add_category (some a) none sq = f.add sq (of_ℕ f 1)
  add_category (some a) (some b) sq = if same a b then sq else f.add sq (of_ℕ f 1)

  abbrev pub as_number : Option V → Option F
  as_number none = none
  as_number (some v) = number v

  abbrev pub add_numeric : F × F → F → F → F → F
  add_numeric (lo, hi) a b sq =
      let span = f.sub hi lo in
      let d = f.div (f.sub a b) span in if f.le span (of_ℕ f 0) then sq else f.add sq (f.mul d d)

  -- One key of `_distance`.
  abbrev pub add_dim : Option (F × F) → Option V → Option V → F → F
  add_dim none va vb sq = add_category va vb sq
  add_dim (some range) va vb sq = elim (as_number va) as (λ x. F) [
    | none ↦ add_category va vb sq
    | some a ↦ elim (as_number vb) as (λ x. F) [
      | none ↦ add_category va vb sq
      | some b ↦ add_numeric range a b sq
    ]
  ]

  abbrev pub square_distance : Dict V → Dict V → Dict (F × F) → List String → F → F
  square_distance a b ranges [] sq = sq
  square_distance a b ranges (k ∷ ks) sq =
      square_distance a b ranges ks (add_dim (lookup k ranges) (lookup k a) (lookup k b) sq)

  -- `_distance`
  abbrev pub distance : Dict V → Dict V → List String → Dict (F × F) → F
  distance a b ks ranges = f.sqrt (square_distance a b ranges ks (of_ℕ f 0))

  -- The finite trials, after the candidate if it is finite.
  abbrev pub pool_of : TrialPoint F V → List (TrialPoint F V) → List (TrialPoint F V)
  pool_of candidate history =
      let finite = filter (λ (p : TrialPoint F V). is_finite p.score) history in
      if is_finite candidate.score then candidate ∷ finite else finite

  abbrev pub distances_of : TrialPoint F V → List (TrialPoint F V) → List (F × F)
  distances_of candidate history =
      let ks = keys_from [] (candidate ∷ history) in
      map
        (λ (p : TrialPoint F V). (
          distance candidate.params p.params ks (min_max_ranges (candidate ∷ history) ks),
          p.score,
        ))
        (pool_of candidate history)

  -- `distances.sort(key=lambda t: t[0])`: a stable sort is the descending one by the reversed test.
  abbrev pub is_farther : F × F → F × F → Bool
  is_farther a b = f.lt b.0 a.0

  abbrev pub mean_of : List F → F
  mean_of chosen = f.div (f.sum chosen) (of_ℕ f (length chosen))

  abbrev pub std_of : List F → F
  std_of chosen = if ltb 1 (length chosen) then pstdev chosen else of_ℕ f 0

  abbrev pub robust_result : F → F → ℕ → List F → SensitivityResult F
  robust_result penalty raw k chosen = record {
    raw_score = raw;
    neighborhood_mean = mean_of chosen;
    neighborhood_std = std_of chosen;
    robust_score = f.sub (mean_of chosen) (f.mul penalty (std_of chosen));
    neighbors_used = k;
  }

  -- `compute_sensitivity`, with the distances of the pool.
  abbrev pub result_among : SensitivityKnobs F → F → List (F × F) → SensitivityResult F
  result_among knobs raw [] = record {
    raw_score = raw;
    neighborhood_mean = raw;
    neighborhood_std = of_ℕ f 0;
    robust_score = raw;
    neighbors_used = 0;
  }
  result_among knobs raw (d ∷ distances) =
      let k = min knobs.neighborhood_k (length (d ∷ distances)) in
      robust_result knobs.penalty raw k
        (map (λ (t : F × F). t.1) (take k (sorted_desc is_farther (d ∷ distances))))

  unfoldable pub compute_sensitivity :
      TrialPoint F V → List (TrialPoint F V) → SensitivityKnobs F → SensitivityResult F
  compute_sensitivity candidate history knobs =
      result_among knobs candidate.score (distances_of candidate history)
