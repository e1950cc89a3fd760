-- ===== src/Selection/Cscv/Pbo.antt =====
-- The probability of backtest overfitting is a share of the splits.
use strategy_gpt.Prelude.Result.{ok, Result}
use strategy_gpt.Prelude.{
  ℕ, List, ◌≡◌, Bool, ◌%◌, ◌≤◌, length, ◌⊎◌, ◌<◌, ◌∷◌, [], ◌/◌, false, true, min, ◌-◌, take, map,
  ◌+◌,
}
use strategy_gpt.Prelude.Floats.{Float, IsOrdered, of_ℕ}
use strategy_gpt.Prelude.Maximum.{IsFirstMax}
use strategy_gpt.Selection.Cscv.{
  means_of, is_mean_below, logit_negative, rank, enumerate_splits, PboKnobs, PboResult,
  enumerate_max_folds, comb,
}

module _ {F : Type 0} (f : Float F) (order : IsOrdered f) (log : F → F)
    (sample_splits : (s n_splits seed : ℕ) → List (List ℕ × List ℕ)) where
  -- The first of the trials that are best in sample on a split has this logit sign out of sample:
  -- `best` are its two means, and its rank is among all trials' means out of sample.
  pub record Outcome (row : List F) (rows : List (List F)) (split : List ℕ × List ℕ)
      (negative : Bool) : Type 0 where
    pub best : F × F
    pub first_best :
        IsFirstMax
          (is_mean_below f log sample_splits)
          best
          (map (means_of f log sample_splits split) (row ∷ rows))
    pub sign :
        let oos_values =
          map (λ (m : F × F). m.1) (map (means_of f log sample_splits split) (row ∷ rows)) in
        logit_negative f log sample_splits
          (f.div (rank f log sample_splits best.1 oos_values) (of_ℕ f (length oos_values + 1)))
        ≡ negative

  -- So many of the splits have a negative logit.
  pub data Overfits (row : List F) (rows : List (List F))
      : List (List ℕ × List ℕ) → ℕ → Type 0 where
    no_split : Overfits row rows [] 0
    negative :
        {split : List ℕ × List ℕ} {splits : List (List ℕ × List ℕ)} {k : ℕ}
        → Outcome row rows split true
        → Overfits row rows splits k
        → Overfits row rows (split ∷ splits) (1 + k)
    not_negative :
        {split : List ℕ × List ℕ} {splits : List (List ℕ × List ℕ)} {k : ℕ}
        → Outcome row rows split false
        → Overfits row rows splits k
        → Overfits row rows (split ∷ splits) k

  -- The share of the splits that have a negative logit.
  pub record IsShare (row : List F) (rows : List (List F)) (splits : List (List ℕ × List ℕ))
      (r : PboResult F) : Type 0 where
    pub counted : r.n_splits ≡ length splits
    pub overfit : ℕ
    pub overfits : Overfits row rows splits overfit
    pub share :
        ((splits ≡ []) × (r.pbo ≡ of_ℕ f 0))
        ⊎ ((0 < length splits) × (r.pbo ≡ f.div (of_ℕ f overfit) (of_ℕ f (length splits))))

  -- The splits are all splits of `s` folds if there are 16 at most, and else as many sampled ones
  -- as there are or as the knobs allow.
  abbrev pub IsPbo : List F → List (List F) → ℕ → PboKnobs F → ℕ → PboResult F → Type 0
  IsPbo row rows s knobs seed r =
      (splits : List (List ℕ × List ℕ)) × IsShare row rows splits r
      × (((enumerate_max_folds < s)
            × (splits ≡ sample_splits s (min knobs.max_splits (comb s (s / 2))) seed))
          ⊎ ((s ≤ enumerate_max_folds)
              × (enumerate_splits s ≡ ok splits)
              × (length splits ≡ comb s (s / 2))))

  -- The answer for rows of the same length: nothing to estimate, or the share for an even number of
  -- folds, or for all folds but the last.
  abbrev pub Estimate : List F → List (List F) → PboKnobs F → ℕ → Result (PboResult F) → Type 0
  Estimate row rows knobs seed out =
      (r : PboResult F) × (out ≡ ok r)
      × (((r.n_splits ≡ 0) × (r.pbo ≡ of_ℕ f 0) × ((length rows ≡ 0) ⊎ (length row < 2)))
          ⊎ ((length row % 2 ≡ 0) × IsPbo row rows (length row) knobs seed r)
          ⊎ ((length row % 2 ≡ 1)
              × IsPbo (take (length row - 1) row) (map (take (length row - 1)) rows)
                  (length row - 1) knobs seed r))
