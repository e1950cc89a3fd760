-- ===== src/MechanicalGate/Nan.antt =====
-- What the gate does with scores that are not finite: both of its tests are written as the test of a
-- failure, and no comparison with NaN holds.
use mathlib.Core.List.{map-append}
use strategy_gpt.Prelude.{
  ◌<◌, ◌≤◌, ◌≡◌, ◌⊎◌, refl, ap, ◌∙◌, inl, inr, Bool, true, false, List, [], ◌∷◌, ◌++◌, map, some,
  arith, All, if_false, length, length-append, Bool-cases, map-map, subst, ltb,
}
use strategy_gpt.Prelude.Floats.{Float, HasNan, HasMinusInf, of_ℕ}
use strategy_gpt.Prelude.Result.{ok}
use strategy_gpt.MechanicalGate.{
  MechanicalGateConfig, MechanicalGateOutcome, mean, stddev, sigma_of, fold_cv_of, gate_checks,
  mechanical_gate, powers,
}

module _ {F : Type 0} (f : Float F) where
  powers-map :
      (xs : List F)
      → All (λ x. f.square_overflows x ≡ false) xs
      → powers f xs ≡ ok (map f.square xs)
  powers-map [] h = refl
  powers-map (x ∷ xs) h = rw (h.0, powers-map xs h.1) refl

  stddev-ok :
      (xs : List F)
      → All (λ x. f.square_overflows x ≡ false) (map (λ x. f.sub x (mean f xs)) xs)
      → ltb (length xs) 2 ≡ false
      → stddev f xs
        ≡ ok (
            f.sqrt (
              f.div
                (f.sum (map f.square (map (λ x. f.sub x (mean f xs)) xs)))
                (of_ℕ f (length xs))))
  unfolding stddev
  stddev-ok xs h long =
      rw (long, stddev) (rw (powers-map (map (λ x. f.sub x (mean f xs)) xs) h) refl)

  -- The gate where the standard deviations are there and their squares too.
  gate_of_checks :
      (cand base : List F) (cfg : MechanicalGateConfig F) (sc sb : F)
      → 0 < length cand
      → 0 < length base
      → stddev f cand ≡ ok sc
      → stddev f base ≡ ok sb
      → f.square_overflows sc ≡ false
      → f.square_overflows sb ≡ false
      → mechanical_gate f cand base (some cfg)
        ≡ ok (gate_checks f cand base cfg sc sb (f.sqrt (f.add (f.square sc) (f.square sb))))
  unfolding mechanical_gate sigma_of
  gate_of_checks [] base cfg sc sb h k e t o p = absurd (omega (arith, h))
  gate_of_checks (c ∷ cs) [] cfg sc sb h k e t o p = absurd (omega (arith, k))
  gate_of_checks (c ∷ cs) (b ∷ bs) cfg sc sb h k e t o p =
      rw (e, t, mechanical_gate) (rw (o, p, sigma_of) refl)

module _ {F : Type 0} (f : Float F) (is_nan : F → Bool) (nan : HasNan f is_nan) where
  -- NaN in the variation and on either side of the score floor passes both tests.
  gate_checks-accept :
      (cand base : List F) (cfg : MechanicalGateConfig F) (sc sb s : F)
      → is_nan (fold_cv_of f sc cand) ≡ true
      → (is_nan (f.sub (mean f cand) (mean f base)) ≡ true) ⊎ (is_nan (f.mul cfg.k s) ≡ true)
      → (gate_checks f cand base cfg sc sb s).accept ≡ true
  unfolding gate_checks
  gate_checks-accept cand base cfg sc sb s cv side = ground (
    arith,
    nan.lt_nan cfg.fold_cv_threshold (fold_cv_of f sc cand) (inr cv),
    nan.le_nan (f.sub (mean f cand) (mean f base)) (f.mul cfg.k s) side,
  )

  mean_nan : (zs : List F) → 0 < length zs → is_nan (f.sum zs) ≡ true → is_nan (mean f zs) ≡ true
  unfolding mean
  mean_nan [] l h = absurd (omega (arith, l))
  mean_nan (z ∷ zs) l h = nan.div_nan _ _ (inl h)

  fold_cv_nan :
      (sc : F) (cand : List F) → is_nan (mean f cand) ≡ true → is_nan (fold_cv_of f sc cand) ≡ true
  unfolding fold_cv_of
  fold_cv_nan sc cand h =
      rw (nan.eq_nan (mean f cand) (of_ℕ f 0) (inl h))
        (nan.div_nan _ _ (inr (nan.absolute_nan _ h)))

  deviations_fit :
      (m : F) (xs : List F)
      → is_nan m ≡ true
      → All (λ x. f.square_overflows x ≡ false) (map (λ x. f.sub x m) xs)
  deviations_fit m [] h = tt
  deviations_fit m (x ∷ xs) h =
      (nan.overflows_nan _ (nan.sub_nan x m (inr h)), deviations_fit m xs h)

  squares_nan :
      (m : F) (xs : List F)
      → is_nan m ≡ true
      → 0 < length xs
      → is_nan (f.sum (map f.square (map (λ x. f.sub x m) xs))) ≡ true
  squares_nan m [] h l = absurd (omega (arith, l))
  squares_nan m (x ∷ xs) h l =
      nan.sum_nan [] (map f.square (map (λ x. f.sub x m) xs)) (f.square (f.sub x m))
        (nan.square_nan _ (nan.sub_nan x m (inr h)))

  -- Where the mean is NaN there is a standard deviation, zero or NaN, which has a square.
  stddev_of_nan :
      (xs : List F)
      → is_nan (mean f xs) ≡ true
      → (s : F) × (stddev f xs ≡ ok s) × (f.square_overflows s ≡ false)
  unfolding stddev
  stddev_of_nan xs h = elim (Bool-cases (ltb (length xs) 2)) [
    | inl e ↦ (of_ℕ f 0, rw (e, stddev) refl, nan.zero_overflows)
    | inr e ↦ (
      f.sqrt
          (f.div (f.sum (map f.square (map (λ x. f.sub x (mean f xs)) xs))) (of_ℕ f (length xs))),
      stddev-ok f xs (deviations_fit (mean f xs) xs h) e,
      nan.overflows_nan _ (
          nan.sqrt_nan _
            (nan.div_nan _ _ (inl (squares_nan (mean f xs) xs h (ground (arith, e)))))),
    )
  ]

  mean_nan_accepted :
      (cand base : List F) (cfg : MechanicalGateConfig F) (sb : F)
      → 0 < length cand
      → 0 < length base
      → stddev f base ≡ ok sb
      → f.square_overflows sb ≡ false
      → is_nan (mean f cand) ≡ true
      → (o : MechanicalGateOutcome F) × (mechanical_gate f cand base (some cfg) ≡ ok o)
        × (o.accept ≡ true)
  mean_nan_accepted cand base cfg sb l k t p m =
      let (sc, e, o) = stddev_of_nan cand m in
      (
        gate_checks f cand base cfg sc sb (f.sqrt (f.add (f.square sc) (f.square sb))),
        gate_of_checks f cand base cfg sc sb l k e t o p,
        gate_checks-accept cand base cfg sc sb _ (fold_cv_nan sc cand m)
            (inl (nan.sub_nan _ _ (inl m))),
      )

  -- A candidate with a NaN among its fold scores is accepted, whatever its other scores and the
  -- thresholds are, by every baseline that has a standard deviation without an overflow.
  pub nan_score_accepted :
      (xs ys base : List F) (a sb : F) (cfg : MechanicalGateConfig F)
      → is_nan a ≡ true
      → 0 < length base
      → stddev f base ≡ ok sb
      → f.square_overflows sb ≡ false
      → (o : MechanicalGateOutcome F) × (mechanical_gate f (xs ++ a ∷ ys) base (some cfg) ≡ ok o)
        × (o.accept ≡ true)
  nan_score_accepted xs ys base a sb cfg h b t p =
      let l = length-append xs (a ∷ ys) in
      mean_nan_accepted (xs ++ a ∷ ys) base cfg sb (omega (arith, l)) b t p
        (mean_nan (xs ++ a ∷ ys) (omega (arith, l)) (nan.sum_nan xs ys a h))

  module _ (is_finite : F → Bool) (low : HasMinusInf f is_nan is_finite) (xs ys : List F)
      (xs_finite : All (λ x. is_finite x ≡ true) xs)
      (ys_finite : All (λ y. is_finite y ≡ true) ys) where
    abbrev cand : List F
    cand = xs ++ f.minus_inf ∷ ys

    mean_minus_inf :
        (zs : List F) → 0 < length zs → f.sum zs ≡ f.minus_inf → mean f zs ≡ f.minus_inf
    unfolding mean
    mean_minus_inf [] h e = absurd (omega (arith, h))
    mean_minus_inf (z ∷ zs) h e =
        ap (λ (t : F). f.div t (of_ℕ f (length (z ∷ zs)))) e ∙ low.div_minus_inf (length (z ∷ zs)) h

    low_deviations_fit :
        (zs : List F) → All (λ x. f.square_overflows x ≡ false) (map (λ x. f.sub x f.minus_inf) zs)
    low_deviations_fit [] = tt
    low_deviations_fit (z ∷ zs) = (low.sub_minus_inf_overflows z, low_deviations_fit zs)

    squared : F → F
    squared x = f.square (f.sub x f.minus_inf)

    low_squares_nan : is_nan (f.sum (map f.square (map (λ x. f.sub x f.minus_inf) cand))) ≡ true
    unfolding squared
    low_squares_nan =
        ap (λ (l : List F). is_nan (f.sum l))
          (map-map f.square (λ x. f.sub x f.minus_inf) cand
            ∙ map-append squared xs (f.minus_inf ∷ ys))
        ∙ nan.sum_nan (map squared xs) (map squared ys) (squared f.minus_inf)
            (nan.square_nan _ low.minus_inf_sub_self)

    low_accepted :
        (base : List F) (cfg : MechanicalGateConfig F) (sb : F)
        → 2 ≤ length cand
        → 0 < length base
        → stddev f base ≡ ok sb
        → f.square_overflows sb ≡ false
        → mean f cand ≡ f.minus_inf
        → (o : MechanicalGateOutcome F) × (mechanical_gate f cand base (some cfg) ≡ ok o)
          × (o.accept ≡ true)
    unfolding fold_cv_of
    low_accepted base cfg sb h k t p m =
        let spread = f.sqrt (
          f.div (f.sum (map f.square (map (λ x. f.sub x f.minus_inf) cand)))
            (of_ℕ f (length cand))) in
        let spread_nan : is_nan spread ≡ true =
          nan.sqrt_nan _ (nan.div_nan _ _ (inl low_squares_nan)) in
        let made =
          subst
            (λ μ.
              All (λ x. f.square_overflows x ≡ false) (map (λ x. f.sub x μ) cand)
              → stddev f cand
                ≡ ok (
                    f.sqrt (
                      f.div (f.sum (map f.square (map (λ x. f.sub x μ) cand)))
                        (of_ℕ f (length cand)))))
            m (λ fits. stddev-ok f cand fits (ground (arith, h))) (low_deviations_fit cand) in
        let away : f.eq (mean f cand) (of_ℕ f 0) ≡ false = rw m low.minus_inf_ne_zero in
        (
          gate_checks f cand base cfg spread sb (f.sqrt (f.add (f.square spread) (f.square sb))),
          gate_of_checks f cand base cfg spread sb (omega (arith, h)) k made t
              (nan.overflows_nan _ spread_nan) p,
          gate_checks-accept cand base cfg spread sb _
              (ap is_nan (if_false _ _ away) ∙ nan.div_nan _ _ (inl spread_nan))
              (inr (
                nan.mul_nan _ _
                  (inr (nan.sqrt_nan _ (nan.add_nan _ _ (inl (nan.square_nan _ spread_nan))))))),
        )

    -- A candidate with at least two folds, one of which scored minus infinity (no trial of that fold
    -- had a score) and the others finite, is accepted, whatever the thresholds are, by every baseline
    -- that has a standard deviation without an overflow.
    pub minus_inf_score_accepted :
        (base : List F) (cfg : MechanicalGateConfig F) (sb : F)
        → 2 ≤ length cand
        → 0 < length base
        → stddev f base ≡ ok sb
        → f.square_overflows sb ≡ false
        → (o : MechanicalGateOutcome F) × (mechanical_gate f
              (xs ++ f.minus_inf ∷ ys)
              base
              (some cfg)
            ≡ ok o)
          × (o.accept ≡ true)
    minus_inf_score_accepted base cfg sb h k t p =
        elim (low.sum_minus_inf xs ys xs_finite ys_finite) [
          | inl e ↦ low_accepted base cfg sb h k t p (mean_minus_inf cand (omega (arith, h)) e)
          | inr e ↦
              mean_nan_accepted cand base cfg sb (omega (arith, h)) k t p
                (mean_nan cand (omega (arith, h)) e)
        ]
