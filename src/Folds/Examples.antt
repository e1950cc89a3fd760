-- ===== src/Folds/Examples.antt =====
-- Tests of the folds, and their theorems on a slice of as many days as it has segments.
use strategy_gpt.Prelude.{
  ℕ, ◌≡◌, ◌⊎◌, ◌≤◌, ◌<◌, refl, true, false, some, List, [], ◌∷◌, length, arith,
}
use strategy_gpt.Prelude.Int.{ℤ, pos, ◌≤ℤ◌, leb_ℤ}
use strategy_gpt.Prelude.Result.{ok, raise, value_error}
use strategy_gpt.Folds.{
  TimeRange, FoldRange, FoldScheme, rolling, anchored, FoldsBlock, Calendar, fold_at, derive_folds,
  folds_from,
}
use strategy_gpt.Folds.Windows.{derive_folds_lem, derive_folds_chronological, rolling_gap_train}

abbrev days : Calendar ℤ
days = record { le = leb_ℤ; at = λ base segments units. units }

abbrev slice : TimeRange ℤ
slice = record { start = pos 0; end = pos 6 }

abbrev block : FoldScheme → ℕ → FoldsBlock
block scheme gap = record { count = 3; scheme = scheme; gap = gap; warmup_bars = some 20 }

days_mono : (a b : ℤ) → a ≤ℤ b → leb_ℤ a b ≡ true
days_mono a b h = ground arith

derive_folds_lem_example :
    ((out : List (FoldRange ℤ)) × (derive_folds days slice (block anchored 1) ≡ ok out)
      × (length out ≡ 3)
      × (leb_ℤ (pos 6) (pos 0) ≡ false)
      × (2 ≤ 3)
      × (1 < 3))
    ⊎ ((derive_folds days slice (block anchored 1) ≡ raise value_error)
        × ((leb_ℤ (pos 6) (pos 0) ≡ true) ⊎ (3 < 2) ⊎ (3 ≤ 1)))
derive_folds_lem_example = derive_folds_lem days slice (block anchored 1)

abbrev derived : FoldScheme → ℕ → List (FoldRange ℤ)
derived scheme gap =
    fold_at days slice (block scheme gap) 0
    ∷ fold_at days slice (block scheme gap) 1
    ∷ fold_at days slice (block scheme gap) 2
    ∷ []

derive_folds_chronological_example :
    (leb_ℤ (pos 1) (pos 1) ≡ true)
    × (leb_ℤ (pos 1) (pos 2) ≡ true)
    × (◌≡◌ {A = ℕ} 0 2 ⊎ (leb_ℤ (pos 2) (pos 5) ≡ true))
    × ((rolling ≡ rolling) ⊎ (pos 0 ≡ pos 0))
unfolding derive_folds folds_from
derive_folds_chronological_example =
    derive_folds_chronological days slice (block rolling 0) days_mono (derived rolling 0) 0 2
      (fold_at days slice (block rolling 0) 0) (fold_at days slice (block rolling 0) 2) refl
      (omega arith) refl refl

-- The second fold would train from day 2 to day 1.
rolling_gap_train_example : leb_ℤ (pos 1) (pos 2) ≡ true
unfolding derive_folds folds_from
rolling_gap_train_example =
    rolling_gap_train days slice (block rolling 2) days_mono (derived rolling 2) 1
      (fold_at days slice (block rolling 2) 1) refl refl (omega arith) refl
