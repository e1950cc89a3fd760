-- ===== src/Folds/Windows.antt =====
-- The windows of the derived folds and their order.
use mathlib.Core.Option.{some-injective}
use strategy_gpt.Prelude.{
  ap, ◌∙◌, ℕ, zero, suc, ◌+◌, ◌≤◌, ◌<◌, ◌≡◌, ◌⊎◌, inl, inr, refl, true, false, List, some, length,
  get_elem?, arith, Bool-cases, ltb, leb, ap,
}
use strategy_gpt.Prelude.Int.{ℤ, pos, ◌≤ℤ◌}
use strategy_gpt.Prelude.Result.{ok, raise, value_error}
use strategy_gpt.Folds.{
  TimeRange, FoldRange, FoldScheme, rolling, anchored, FoldsBlock, Calendar, segment_count, fold_at,
  folds_from, derive_folds, train_start_unit,
}

module _ {T : Type 0} (calendar : Calendar T) (base : TimeRange T) (folds : FoldsBlock) where
  scheme_start :
      (scheme : FoldScheme) (i : ℕ)
      → (scheme ≡ rolling)
        ⊎ (calendar.at base (segment_count calendar base folds) (train_start_unit scheme i)
            ≡ calendar.at base (segment_count calendar base folds) (pos 0))
  scheme_start rolling i = inl refl
  scheme_start anchored i = inr refl

  length-folds_from : (left i : ℕ) → length (folds_from calendar base folds left i) ≡ left
  unfolding folds_from
  length-folds_from zero i = refl
  length-folds_from (suc left) i = ap suc (length-folds_from left (i + 1))

  folds_from-fold_at :
      (left i k : ℕ) (a : FoldRange T)
      → get_elem? (folds_from calendar base folds left i) k ≡ some a
      → (fold_at calendar base folds (i + k) ≡ a) × (k < left)
  unfolding folds_from
  folds_from-fold_at zero i k a h = absurd (ground arith)
  folds_from-fold_at (suc left) i zero a h =
      (ap (fold_at calendar base folds) (omega arith) ∙ some-injective _ _ h, omega arith)
  folds_from-fold_at (suc left) i (suc k) a h =
      let (found, below) = folds_from-fold_at left (i + 1) k a h in
      (ap (fold_at calendar base folds) (omega arith) ∙ found, omega arith)

  -- Exactly `count` folds are derived, unless the slice is empty or reversed, the count is below two
  -- or the gap is not below the count, and then the call raises.
  pub derive_folds_lem :
      ((out : List (FoldRange T)) × (derive_folds calendar base folds ≡ ok out)
        × (length out ≡ folds.count)
        × (calendar.le base.end base.start ≡ false)
        × (2 ≤ folds.count)
        × (folds.gap < folds.count))
      ⊎ ((derive_folds calendar base folds ≡ raise value_error)
          × ((calendar.le base.end base.start ≡ true)
              ⊎ (folds.count < 2)
              ⊎ (folds.count ≤ folds.gap)))
  unfolding derive_folds
  derive_folds_lem = elim (Bool-cases (calendar.le base.end base.start)) [
    | inl e ↦ inr (rw (e, derive_folds), inl e)
    | inr e ↦ elim (Bool-cases (ltb folds.count 2)) [
      | inl c ↦ inr (rw (e, c, derive_folds), inr (inl (ground arith)))
      | inr c ↦ elim (Bool-cases (leb folds.count folds.gap)) [
        | inl g ↦ inr (rw (e, c, g, derive_folds), inr (inr (ground arith)))
        | inr g ↦ inl (
          folds_from calendar base folds folds.count 0,
          rw (e, c, g, derive_folds),
          length-folds_from folds.count 0,
          e,
          ground arith,
          ground arith,
        )
      ]
    ]
  ]

  derived-fold_at :
      (out : List (FoldRange T)) (k : ℕ) (a : FoldRange T)
      → derive_folds calendar base folds ≡ ok out
      → get_elem? out k ≡ some a
      → fold_at calendar base folds k ≡ a
  unfolding derive_folds
  derived-fold_at out k a e h =
      let listed : folds_from calendar base folds folds.count 0 ≡ out = grind arith in
      ap (fold_at calendar base folds) (omega arith)
      ∙ (folds_from-fold_at folds.count 0 k a (rw listed h)).0

  -- In a derived list, under a calendar that is monotone: the train window of every fold ends before
  -- its out-of-sample window starts, that window is not reversed, and it ends before the
  -- out-of-sample window of every later fold starts; an anchored train window starts with the first
  -- segment. The fold `b` is `a` itself or a later one.
  pub derive_folds_chronological :
      (mono : (a b : ℤ)
        → a ≤ℤ b
        → calendar.le
            (calendar.at base (segment_count calendar base folds) a)
            (calendar.at base (segment_count calendar base folds) b)
          ≡ true)
      (out : List (FoldRange T)) (j k : ℕ) (a b : FoldRange T)
      → derive_folds calendar base folds ≡ ok out
      → j ≤ k
      → get_elem? out j ≡ some a
      → get_elem? out k ≡ some b
      → (calendar.le a.train.end a.oos.start ≡ true)
        × (calendar.le a.oos.start a.oos.end ≡ true)
        × ((j ≡ k) ⊎ (calendar.le a.oos.end b.oos.start ≡ true))
        × ((folds.scheme ≡ rolling)
            ⊎ (a.train.start ≡ calendar.at base (segment_count calendar base folds) (pos 0)))
  derive_folds_chronological mono out j k a b e later h g =
      let first = derived-fold_at out j a e h in
      let second = derived-fold_at out k b e g in
      rw (← first) (
        rw (← second) (
          mono _ _ (ground arith),
          mono _ _ (ground arith),
          elim (Bool-cases (ltb j k)) [
            | inl e ↦ inr (mono _ _ (ground arith))
            | inr e ↦ inl (ground (arith, e))
          ],
          scheme_start folds.scheme j,
        ))

  -- Where the scheme is `rolling` and the gap is one or more, every train window is empty or reversed.
  pub rolling_gap_train :
      (mono : (a b : ℤ)
        → a ≤ℤ b
        → calendar.le
            (calendar.at base (segment_count calendar base folds) a)
            (calendar.at base (segment_count calendar base folds) b)
          ≡ true)
      (out : List (FoldRange T)) (k : ℕ) (a : FoldRange T)
      → derive_folds calendar base folds ≡ ok out
      → folds.scheme ≡ rolling
      → 1 ≤ folds.gap
      → get_elem? out k ≡ some a
      → calendar.le a.train.end a.train.start ≡ true
  rolling_gap_train mono out k a e r gap h =
      rw (← derived-fold_at out k a e h) (rw r (mono _ _ (ground arith)))
