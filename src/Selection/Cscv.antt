-- ===== src/Selection/Cscv.antt =====
-- python/strategy_gpt/selection/cscv.py: the probability of backtest overfitting, over all splits of
-- the folds into two halves. The splits that are sampled beyond 16 folds, and the logarithm, are
-- arguments.
pub mod Splits
pub mod Pbo
use strategy_gpt.Prelude.Int.{pos}
use strategy_gpt.Prelude.Maximum.{max_from}
use strategy_gpt.Prelude.Result.{Result, ok, ◌>>=◌, raise, value_error}
use strategy_gpt.Prelude.Floats.{Float, of_ℕ}
use strategy_gpt.Prelude.{
  Bool, ℕ, List, Option, [], false, filter, suc, get_elem?, map, ◌∷◌, if◌then◌else◌, true, ◌++◌,
  ◌==◌, not, ◌+◌, ◌%◌, some, length, ◌||◌, none, leb, ◌/◌, ◌&&◌, zero, min, ltb, take, ◌-◌,
}

pub record PboKnobs (F : Type 0) : Type 0 where
  pub enabled : Bool
  pub threshold : F
  pub top_k : ℕ
  pub max_splits : ℕ

pub record PboResult (F : Type 0) : Type 0 where
  pub pbo : F
  pub n_splits : ℕ
  pub enumerated : Bool
  pub seed : Option ℕ
  pub n_trials : ℕ
  pub n_folds : ℕ

abbrev pub enumerate_max_folds : ℕ
enumerate_max_folds = 16

-- `itertools.combinations(xs, k)`
unfoldable pub combinations : ℕ → List ℕ → List (List ℕ)
combinations zero xs = [] ∷ []
combinations (suc k) [] = []
combinations (suc k) (x ∷ xs) =
    map (λ (c : List ℕ). x ∷ c) (combinations k xs) ++ combinations (suc k) xs

-- `i in xs`
abbrev pub is_in : ℕ → List ℕ → Bool
is_in i [] = false
is_in i (x ∷ xs) = (x == i) || is_in i xs

-- `[i for i in all_idx if i not in set(combo)]`
abbrev pub rest_of : List ℕ → List ℕ → List ℕ
rest_of all_idx combo = filter (λ i. not (is_in i combo)) all_idx

-- `range(i, i + n)`
unfoldable pub range_from : (i n : ℕ) → List ℕ
range_from i zero = []
range_from i (suc n) = i ∷ range_from (i + 1) n

unfoldable pub enumerate_splits : ℕ → Result (List (List ℕ × List ℕ))
unfolding combinations range_from
enumerate_splits s =
    if s % 2 == 0
    then ok (
        map (λ (c : List ℕ). (c, rest_of (range_from 0 s) c))
          (combinations (s / 2) (range_from 0 s)))
    else raise value_error

-- `math.comb`
unfoldable pub comb : ℕ → ℕ → ℕ
comb n zero = 1
comb zero (suc k) = 0
comb (suc n) (suc k) = comb n k + comb n (suc k)

module _ {F : Type 0} (f : Float F) (log : F → F)
    (sample_splits : (s n_splits seed : ℕ) → List (List ℕ × List ℕ)) where
  -- `matrix[i][j]`; all indices are in range.
  abbrev pub cell : List F → ℕ → F
  cell row j = elim (get_elem? row j) [ some x ↦ x | none ↦ of_ℕ f 0 ]

  abbrev pub mean_over : List F → List ℕ → F
  mean_over row idx = f.div (f.sum (map (cell row) idx)) (of_ℕ f (length idx))

  abbrev pub count_where : (F → Bool) → List F → ℕ
  count_where test [] = 0
  count_where test (x ∷ xs) = (if test x then 1 else 0) + count_where test xs

  -- `_rank`
  unfoldable pub rank : F → List F → F
  rank value values =
      let less = count_where (λ v. f.lt v value) values in
      let equal = count_where (λ v. f.eq v value) values in
      f.add (of_ℕ f less) (f.div (of_ℕ f (equal + 1)) (of_ℕ f 2))

  -- A trial's in-sample and out-of-sample mean on a split.
  abbrev pub means_of : List ℕ × List ℕ → List F → F × F
  means_of split row = (mean_over row split.0, mean_over row split.1)

  abbrev pub is_mean_below : F × F → F × F → Bool
  is_mean_below a b = f.lt a.0 b.0

  -- `logit < 0`
  abbrev pub logit_negative : F → Bool
  logit_negative omega =
      if f.le omega (of_ℕ f 0) || f.le (of_ℕ f 1) omega
      then f.le omega (f.literal (pos 5) 1)
      else f.lt (log (f.div omega (f.sub (of_ℕ f 1) omega))) (of_ℕ f 0)

  -- The in-sample best of a split is in the lower half out of sample.
  unfoldable pub is_overfit : List F → List (List F) → List ℕ × List ℕ → Bool
  unfolding rank
  is_overfit row rows split =
      let means = map (means_of split) rows in
      let best = max_from is_mean_below (means_of split row) means in
      let oos_values = map (λ (m : F × F). m.1) (means_of split row ∷ means) in
      logit_negative (f.div (rank best.1 oos_values) (of_ℕ f (length oos_values + 1)))

  abbrev pub overfit_count : List F → List (List F) → List (List ℕ × List ℕ) → ℕ
  overfit_count row rows [] = 0
  overfit_count row rows (split ∷ splits) =
      (if is_overfit row rows split then 1 else 0) + overfit_count row rows splits

  abbrev pub all_length : ℕ → List (List F) → Bool
  all_length s [] = true
  all_length s (row ∷ rows) = (length row == s) && all_length s rows

  abbrev pub no_pbo : (n s : ℕ) → PboResult F
  no_pbo n s = record {
    pbo = of_ℕ f 0;
    n_splits = 0;
    enumerated = true;
    seed = none;
    n_trials = n;
    n_folds = s;
  }

  abbrev pub result_over :
      List F → List (List F) → (s : ℕ) → Bool → Option ℕ → List (List ℕ × List ℕ) → PboResult F
  result_over row rows s enumerated seed splits = record {
    pbo =
        if length splits == 0
        then of_ℕ f 0
        else f.div (of_ℕ f (overfit_count row rows splits)) (of_ℕ f (length splits));
    n_splits = length splits;
    enumerated = enumerated;
    seed = seed;
    n_trials = suc (length rows);
    n_folds = s;
  }

  -- With an even number of folds.
  abbrev pub pbo_over : List F → List (List F) → (s : ℕ) → PboKnobs F → ℕ → Result (PboResult F)
  pbo_over row rows s knobs seed =
      if leb s enumerate_max_folds
      then (enumerate_splits s >>= λ splits. ok (result_over row rows s true none splits))
      else ok (
          result_over row rows s false (some seed)
            (sample_splits s (min knobs.max_splits (comb s (s / 2))) seed))

  -- By whether the number of folds is even: the last of an odd number is dropped.
  abbrev pub by_parity : Bool → List F → List (List F) → PboKnobs F → ℕ → Result (PboResult F)
  by_parity true row rows knobs seed = pbo_over row rows (length row) knobs seed
  by_parity false row rows knobs seed =
      pbo_over (take (length row - 1) row) (map (take (length row - 1)) rows) (length row - 1) knobs
        seed

  -- By whether there are too few trials or folds.
  abbrev pub by_size : Bool → List F → List (List F) → PboKnobs F → ℕ → Result (PboResult F)
  by_size true row rows knobs seed = ok (no_pbo (suc (length rows)) (length row))
  by_size false row rows knobs seed = by_parity (length row % 2 == 0) row rows knobs seed

  unfoldable pub compute_pbo : List (List F) → PboKnobs F → ℕ → Result (PboResult F)
  compute_pbo [] knobs seed = ok (no_pbo 0 0)
  compute_pbo (row ∷ rows) knobs seed =
      if not (all_length (length row) rows)
      then raise value_error
      else by_size (ltb (suc (length rows)) 2 || ltb (length row) 2) row rows knobs seed
