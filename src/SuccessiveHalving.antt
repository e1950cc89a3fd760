-- ===== src/SuccessiveHalving.antt =====
-- python/strategy_gpt/search/successive_halving.py: the cascade of rungs over the folds. The engine,
-- the objective and the searchers that make the first candidates are arguments; a rung's batch may
-- change the outside world `W`.
pub mod Rungs
pub mod Runs
mod Examples
use strategy_gpt.Prelude.{
  ℕ, zero, suc, ◌+◌, ◌-◌, ◌*◌, ◌/◌, max, min, Bool, true, false, Option, none, some, List, [], ◌∷◌,
  ◌++◌, map, leb, if◌then◌else◌, length, take, drop,
}
use strategy_gpt.Prelude.Floats.{Float, of_ℕ}
use strategy_gpt.Prelude.Result.{Result, ok, raise, value_error, index_error}
use strategy_gpt.Prelude.Sorting.{sorted_desc}

-- experiment_spec.py
pub record SuccessiveHalvingKnobs : Type 0 where
  pub initial_candidates : ℕ
  pub eta : ℕ
  pub initial_folds : ℕ

-- `math.ceil(a / b)`, which is exact for counts below 2 ^ 52.
abbrev pub ceil_div : ℕ → ℕ → ℕ
ceil_div a b = (a + b - 1) / b

abbrev cons_some : ℕ → Option (List ℕ) → Option (List ℕ)
cons_some b none = none
cons_some b (some bs) = some (b ∷ bs)

-- `while True`, on fuel; `none` means that the fuel ran out.
pub budgets_from : (fuel b eta total_folds : ℕ) → Option (List ℕ)
budgets_from zero b eta total_folds = none
budgets_from (suc fuel) b eta total_folds =
    let rest = budgets_from fuel (b * eta) eta total_folds in
    if leb total_folds (min b total_folds)
    then some (min b total_folds ∷ [])
    else cons_some (min b total_folds) rest

-- The fuel is one more than the number of folds.
unfoldable pub rung_budgets : (initial_folds eta total_folds : ℕ) → Option (List ℕ)
unfolding budgets_from
rung_budgets initial_folds eta total_folds =
    budgets_from (suc total_folds) (max 1 initial_folds) eta total_folds

-- The counts after `last`, for the rungs that are left.
pub counts_after : (last eta left : ℕ) → List ℕ
counts_after last eta zero = []
counts_after last eta (suc left) =
    let keep = max 1 (ceil_div last eta) in keep ∷ counts_after keep eta left

unfoldable pub rung_survivor_counts : (initial_candidates eta n_rungs : ℕ) → List ℕ
unfolding counts_after
rung_survivor_counts initial_candidates eta n_rungs =
    initial_candidates ∷ counts_after initial_candidates eta (n_rungs - 1)

-- `sum(s * b for s, b in zip(survivor_counts, budgets, strict=True))`
unfoldable pub planned_runs : List ℕ → List ℕ → Result ℕ
planned_runs [] [] = ok 0
planned_runs [] (b ∷ bs) = raise value_error
planned_runs (s ∷ ss) [] = raise value_error
planned_runs (s ∷ ss) (b ∷ bs) = elim (planned_runs ss bs) [
  | ok n ↦ ok (s * b + n)
  | raise e ↦ raise e
]

abbrev pub add_cross : ℕ → Result ℕ → Result ℕ
add_cross folds_count (ok total) = ok (total + folds_count * folds_count)
add_cross folds_count (raise e) = raise e

abbrev pub planned_of : SuccessiveHalvingKnobs → ℕ → Option (List ℕ) → Option (Result ℕ)
planned_of knobs folds_count none = none
planned_of knobs folds_count (some budgets) = some (
    add_cross folds_count (
      planned_runs (rung_survivor_counts knobs.initial_candidates knobs.eta (length budgets))
        budgets))

unfoldable pub planned_run_count : SuccessiveHalvingKnobs → ℕ → Option (Result ℕ)
unfolding rung_budgets rung_survivor_counts planned_runs
planned_run_count knobs folds_count =
    planned_of knobs folds_count (rung_budgets knobs.initial_folds knobs.eta folds_count)

-- An evaluation of a run.
pub record Outcome (F : Type 0) : Type 0 where
  pub accepted : Bool
  pub score : F

-- A row of the trial log, by its rung, fold and candidate.
pub record TrialRow (F P : Type 0) : Type 0 where
  pub round : ℕ
  pub fold_index : ℕ
  pub params : P
  pub outcome : Outcome F

module _ {F P W : Type 0} (f : Float F)
    (evaluate_batch : List (P × ℕ) → W → List (Outcome F) × W) where
  -- `for f_idx in range(budget)`: the runs of one candidate.
  pub runs_of : P → (left fold : ℕ) → List (P × ℕ)
  runs_of params zero fold = []
  runs_of params (suc left) fold = (params, fold) ∷ runs_of params left (fold + 1)

  -- The runs of a rung, candidate by candidate.
  pub runs_for : List P → ℕ → List (P × ℕ)
  unfolding runs_of
  runs_for [] budget = []
  runs_for (params ∷ survivors) budget = runs_of params budget 0 ++ runs_for survivors budget

  -- `zip(plan, entries, strict=True)`
  pub rows_of : ℕ → List (P × ℕ) → List (Outcome F) → Result (List (TrialRow F P))
  rows_of r [] [] = ok []
  rows_of r [] (o ∷ outcomes) = raise value_error
  rows_of r (run ∷ runs) [] = raise value_error
  rows_of r (run ∷ runs) (o ∷ outcomes) = elim (rows_of r runs outcomes) [
    | ok rows ↦ ok (record { round = r; fold_index = run.1; params = run.0; outcome = o } ∷ rows)
    | raise e ↦ raise e
  ]

  -- The accepted scores among the first `left` rows, which are one candidate's.
  abbrev accepted_scores : (left : ℕ) → List (TrialRow F P) → List F
  accepted_scores zero rows = []
  accepted_scores (suc left) [] = []
  accepted_scores (suc left) (row ∷ rows) =
      let rest = accepted_scores left rows in
      if row.outcome.accepted then row.outcome.score ∷ rest else rest

  abbrev mean_or_minus_inf : List F → F
  mean_or_minus_inf [] = f.minus_inf
  mean_or_minus_inf (x ∷ xs) = f.div (f.sum (x ∷ xs)) (of_ℕ f (length (x ∷ xs)))

  -- The candidates with their mean scores, in their order.
  pub scored : List P → (budget : ℕ) → List (TrialRow F P) → List (P × F)
  scored [] budget rows = []
  scored (params ∷ survivors) budget rows =
      (params, mean_or_minus_inf (accepted_scores budget rows))
      ∷ scored survivors budget (drop budget rows)

  -- The best `keep` candidates.
  abbrev promoted : ℕ → List (P × F) → List P
  promoted keep scores =
      map (λ (e : P × F). e.0) (take keep (sorted_desc (λ (a b : P × F). f.lt a.1 b.1) scores))

  -- One rung: its rows, and the survivors that it keeps.
  pub rung : (r budget keep : ℕ) → List P → W → Result (List (TrialRow F P) × List P) × W
  unfolding runs_for rows_of scored sorted_desc
  rung r budget keep survivors w =
      let (outcomes, w') = evaluate_batch (runs_for survivors budget) w in
      (
        elim (rows_of r (runs_for survivors budget) outcomes) [
          | ok rows ↦ ok (rows, promoted keep (scored survivors budget rows))
          | raise e ↦ raise e
        ],
        w',
      )

  -- The count for the next rung, or the last cut.
  abbrev keep_after : ℕ → List ℕ → ℕ → ℕ
  keep_after eta [] survivors = max 1 (ceil_div survivors eta)
  keep_after eta (count ∷ counts) survivors = count

  -- The rows of a rung join the log, and its survivors go on.
  abbrev pub after_rung :
      (again : List (TrialRow F P) → List P → W → Result (List (TrialRow F P) × List P) × W)
      → List (TrialRow F P)
      → Result (List (TrialRow F P) × List P) × W
      → Result (List (TrialRow F P) × List P) × W
  after_rung again rows (raise e, w) = (raise e, w)
  after_rung again rows (ok found, w) = again (rows ++ found.0) found.1 w

  -- The loop over the rungs.
  pub cascade :
      (eta r : ℕ) (budgets counts : List ℕ)
      → List (TrialRow F P)
      → List P
      → W
      → Result (List (TrialRow F P) × List P) × W
  unfolding rung
  cascade eta r [] counts rows survivors w = (ok (rows, survivors), w)
  cascade eta r (budget ∷ budgets) [] rows survivors w = (raise index_error, w)
  cascade eta r (budget ∷ budgets) (count ∷ counts) rows survivors w =
      let kept = take count survivors in
      after_rung (cascade eta (r + 1) budgets counts) rows
        (rung r budget (keep_after eta counts (length kept)) kept w)

  abbrev pub search_with :
      SuccessiveHalvingKnobs
      → List P
      → W
      → Option (List ℕ)
      → Option (Result (List (TrialRow F P) × List P) × W)
  search_with knobs initial w none = none
  search_with knobs initial w (some budgets) = some (
      cascade knobs.eta 0 budgets
        (rung_survivor_counts knobs.initial_candidates knobs.eta (length budgets)) [] initial w)

  -- The trial rows and the last survivors.
  unfoldable pub search_global :
      SuccessiveHalvingKnobs
      → (total_folds : ℕ) → List P
      → W
      → Option (Result (List (TrialRow F P) × List P) × W)
  unfolding cascade rung_budgets rung_survivor_counts
  search_global knobs zero initial w = some (ok ([], []), w)
  search_global knobs (suc n) initial w =
      search_with knobs initial w (rung_budgets knobs.initial_folds knobs.eta (suc n))
