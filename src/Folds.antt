-- ===== src/Folds.antt =====
-- python/strategy_gpt/folds.py: the train and out-of-sample windows of a slice. Dates and their
-- arithmetic are Python's: an argument.
pub mod Windows
mod Examples
use strategy_gpt.Prelude.{
  ℕ, zero, suc, ◌+◌, ◌*◌, Bool, Option, none, some, List, [], ◌∷◌, ltb, leb, if◌then◌else◌,
}
use strategy_gpt.Prelude.Int.{ℤ, pos, sub_ℕ}
use strategy_gpt.Prelude.Result.{Result, ok, raise, value_error}

-- types.py
pub record TimeRange (T : Type 0) : Type 0 where
  pub start : T
  pub end : T

pub record FoldRange (T : Type 0) : Type 0 where
  pub train : TimeRange T
  pub oos : TimeRange T
  pub warmup_bars : Option ℕ

pub data FoldScheme : Type 0 where
  rolling anchored : FoldScheme

-- experiment_spec.py
pub record FoldsBlock : Type 0 where
  pub count : ℕ
  pub scheme : FoldScheme
  pub gap : ℕ
  pub warmup_bars : Option ℕ

-- `a <= b`, and `base.start + timedelta(seconds=total_seconds / segments * units)`.
pub record Calendar (T : Type 0) : Type 0 where
  pub le : T → T → Bool
  pub at : TimeRange T → (segments : ℕ) → (units : ℤ) → T

abbrev pub min_fold_count : ℕ
min_fold_count = 2

abbrev pub train_start_unit : FoldScheme → ℕ → ℤ
train_start_unit anchored i = pos 0
train_start_unit rolling i = pos (2 * i)

abbrev warmup_of : Option ℕ → ℕ → Option ℕ
warmup_of warmup zero = warmup
warmup_of warmup (suc i) = none

module _ {T : Type 0} (calendar : Calendar T) (base : TimeRange T) (folds : FoldsBlock) where
  abbrev pub segment_count : ℕ
  segment_count = 2 * folds.count

  -- The body of the loop.
  abbrev pub fold_at : ℕ → FoldRange T
  fold_at i = record {
    train = record {
      start = calendar.at base segment_count (train_start_unit folds.scheme i);
      end = calendar.at base segment_count (sub_ℕ (2 * i + 1) folds.gap);
    };
    oos = record {
      start = calendar.at base segment_count (pos (2 * i + 1));
      end = calendar.at base segment_count (pos (2 * i + 2));
    };
    warmup_bars = warmup_of folds.warmup_bars i;
  }

  -- `for i in range(folds.count)`, with the folds that are left.
  pub folds_from : (left i : ℕ) → List (FoldRange T)
  folds_from zero i = []
  folds_from (suc left) i = fold_at i ∷ folds_from left (i + 1)

  unfoldable pub derive_folds : Result (List (FoldRange T))
  unfolding folds_from
  derive_folds =
      if calendar.le base.end base.start
      then raise value_error
      else if ltb folds.count min_fold_count
      then raise value_error
      else if leb folds.count folds.gap
      then raise value_error
      else ok (folds_from folds.count 0)
