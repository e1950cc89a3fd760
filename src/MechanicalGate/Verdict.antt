-- ===== src/MechanicalGate/Verdict.antt =====
-- What the gate decides, where no NaN occurs.
use mathlib.Core.List.{cons≢nil}
use strategy_gpt.Prelude.{
  ◌≡◌, ◌≢◌, ◌⊎◌, ◌↔◌, refl, inl, inr, true, false, List, [], ◌∷◌, some, arith, Bool-cases, ltb,
  length, map, subst,
}
use strategy_gpt.Prelude.Floats.{Float, IsOrdered, of_ℕ}
use strategy_gpt.Prelude.Result.{ok, raise, value_error, overflow_error, Result, ◌>>=◌}
use strategy_gpt.RejectTaxonomy.{RejectKind, in_repairable}
use strategy_gpt.MechanicalGate.{
  MechanicalGateConfig, MechanicalGateOutcome, mean, sigma_of, fold_cv_of, gate_checks,
  mechanical_gate, stddev, powers,
}

module _ {F : Type 0} (f : Float F) where
  powers-cases :
      (xs : List F) → ((ys : List F) × (powers f xs ≡ ok ys)) ⊎ (powers f xs ≡ raise overflow_error)
  powers-cases [] = inl ([], refl)
  powers-cases (x ∷ xs) = elim (Bool-cases (f.square_overflows x)) [
    | inl e ↦ inr (rw e refl)
    | inr e ↦ elim (powers-cases xs) [
      | inl (ys, h) ↦ inl (f.square x ∷ ys, rw (e, h) refl)
      | inr h ↦ inr (rw (e, h) refl)
    ]
  ]

  stddev-cases :
      (xs : List F) → ((s : F) × (stddev f xs ≡ ok s)) ⊎ (stddev f xs ≡ raise overflow_error)
  unfolding stddev
  stddev-cases xs = elim (Bool-cases (ltb (length xs) 2)) [
    | inl e ↦ inl (of_ℕ f 0, rw (e, stddev) refl)
    | inr e ↦ elim (powers-cases (map (λ x. f.sub x (mean f xs)) xs)) [
      | inl (ys, h) ↦ inl (f.sqrt (f.div (f.sum ys) (of_ℕ f (length xs))), rw (e, h, stddev) refl)
      | inr h ↦ inr (rw (e, h, stddev) refl)
    ]
  ]

  sigma_of-cases :
      (a b : F)
      → ((s : F) × (sigma_of f a b ≡ ok s))
        ⊎ ((sigma_of f a b ≡ raise overflow_error)
            × ((f.square_overflows a ≡ true) ⊎ (f.square_overflows b ≡ true)))
  unfolding sigma_of
  sigma_of-cases a b = elim (Bool-cases (f.square_overflows a)) [
    | inl e ↦ inr (rw (e, sigma_of) refl, inl e)
    | inr e ↦ elim (Bool-cases (f.square_overflows b)) [
      | inl h ↦ inr (rw (e, h, sigma_of) refl, inr h)
      | inr h ↦ inl (f.sqrt (f.add (f.square a) (f.square b)), rw (e, h, sigma_of) refl)
    ]
  ]

module _ {F : Type 0} (f : Float F) (order : IsOrdered f) where
  -- The outcome `o` for the two lists of scores is the one that the two floors decide.
  pub record IsVerdict (cand base : List F) (cfg : MechanicalGateConfig F)
      (o : MechanicalGateOutcome F) : Type 0 where
    pub candidate_spread : stddev f cand ≡ ok o.sigma_candidate
    pub baseline_spread : stddev f base ≡ ok o.sigma_baseline
    pub combined : sigma_of f o.sigma_candidate o.sigma_baseline ≡ ok o.sigma_combined
    pub accepts_iff : (o.accept ≡ true) ↔ (
        (f.le (fold_cv_of f o.sigma_candidate cand) cfg.fold_cv_threshold ≡ true)
        × (f.lt (f.mul cfg.k o.sigma_combined) (f.sub (mean f cand) (mean f base)) ≡ true))
    pub ok_iff : (o.accept ≡ true) ↔ (o.reject_kind ≡ RejectKind.ok)
    pub variance_iff :
        (o.reject_kind ≡ RejectKind.reject_variance)
        ↔ (f.lt cfg.fold_cv_threshold (fold_cv_of f o.sigma_candidate cand) ≡ true)
    pub noise_iff : (o.reject_kind ≡ RejectKind.reject_noise) ↔ (
        (f.le (fold_cv_of f o.sigma_candidate cand) cfg.fold_cv_threshold ≡ true)
        × (f.le (f.sub (mean f cand) (mean f base)) (f.mul cfg.k o.sigma_combined) ≡ true))
    pub borderline_accepts : (o.borderline ≡ false) ⊎ (o.accept ≡ true)
    pub final : in_repairable o.reject_kind ≡ false

  gate_checks-IsVerdict :
      (cand base : List F) (cfg : MechanicalGateConfig F) (sc sb s : F)
      → stddev f cand ≡ ok sc
      → stddev f base ≡ ok sb
      → sigma_of f sc sb ≡ ok s
      → IsVerdict cand base cfg (gate_checks f cand base cfg sc sb s)
  unfolding gate_checks in_repairable
  gate_checks-IsVerdict cand base cfg sc sb s c b t =
      let cv = fold_cv_of f sc cand in
      let delta = f.sub (mean f cand) (mean f base) in
      let floor = f.mul cfg.k s in
      let thr = cfg.fold_cv_threshold in
      let above = order.lt_not_le thr cv in
      let below = order.not_lt_le thr cv in
      let beaten = order.le_not_lt delta floor in
      let cleared = order.not_le_lt delta floor in
      record {
        candidate_spread = ground (arith, c);
        baseline_spread = ground (arith, b);
        combined = ground (arith, t);
        accepts_iff = ground (arith, above, below, beaten, cleared);
        ok_iff = ground arith;
        variance_iff = ground arith;
        noise_iff = ground (arith, above, below);
        borderline_accepts = ground arith;
        final = ground arith;
      }

  -- A square in a standard deviation overflows, or one of the two standard deviations has none.
  abbrev pub Overflow : List F → List F → Type 0
  Overflow cand base =
      (stddev f cand ≡ raise overflow_error)
      ⊎ (stddev f base ≡ raise overflow_error)
      ⊎ ((sc : F) × (sb : F) × (stddev f cand ≡ ok sc)
          × (stddev f base ≡ ok sb)
          × ((f.square_overflows sc ≡ true) ⊎ (f.square_overflows sb ≡ true)))

  abbrev Answer : List F → List F → MechanicalGateConfig F → Type 0
  Answer cand base cfg =
      ((o : MechanicalGateOutcome F) × (mechanical_gate f cand base (some cfg) ≡ ok o)
        × IsVerdict cand base cfg o
        × (cand ≢ [])
        × (base ≢ []))
      ⊎ ((mechanical_gate f cand base (some cfg) ≡ raise value_error) × ((cand ≡ []) ⊎ (base ≡ [])))
      ⊎ ((mechanical_gate f cand base (some cfg) ≡ raise overflow_error) × Overflow cand base)

  -- The gate raises on an empty list of scores, or where a square overflows in a standard deviation
  -- or of one, and on nothing else. Otherwise it accepts exactly when the per-fold variation is
  -- within the threshold and the gain over the baseline exceeds `k * sigma_combined`; the kind is
  -- `ok` exactly then, `reject_variance` exactly when the variation is too high, `reject_noise`
  -- exactly when it is not and the gain does not exceed the floor; only an accepted candidate is
  -- borderline; and no kind that the gate gives is one that the repair loop may retry.
  pub mechanical_gate_lem :
      (cand base : List F) (cfg : MechanicalGateConfig F) → Answer cand base cfg
  unfolding mechanical_gate
  mechanical_gate_lem [] base cfg = inr (inl (refl, inl refl))
  mechanical_gate_lem (c ∷ cs) [] cfg = inr (inl (refl, inr refl))
  mechanical_gate_lem (c ∷ cs) (b ∷ bs) cfg = elim (stddev-cases f (c ∷ cs)) [
    | inr e ↦ inr (inr (rw (e, mechanical_gate) refl, inl e))
    | inl (sc, e) ↦ elim (stddev-cases f (b ∷ bs)) [
      | inr h ↦ inr (inr (rw (e, h, mechanical_gate) refl, inr (inl h)))
      | inl (sb, h) ↦ elim (sigma_of-cases f sc sb) [
        | inr (k, why) ↦
            inr (inr (rw (e, h, k, mechanical_gate) refl, inr (inr (sc, sb, e, h, why))))
        | inl (s, k) ↦ inl (
          gate_checks f (c ∷ cs) (b ∷ bs) cfg sc sb s,
          rw (e, h, k, mechanical_gate) refl,
          gate_checks-IsVerdict (c ∷ cs) (b ∷ bs) cfg sc sb s e h k,
          cons≢nil,
          cons≢nil,
        )
      ]
    ]
  ]

module _ {F : Type 0} (f : Float F) (cand base : List F) (cfg : MechanicalGateConfig F) where
  refused_kind :
      (sc sb s : F)
      → (gate_checks f cand base cfg sc sb s).accept ≡ false
      → (gate_checks f cand base cfg sc sb s).reject_kind ≢ RejectKind.ok
  unfolding gate_checks
  refused_kind sc sb s h = ground arith

  abbrev IsRefused : Result (MechanicalGateOutcome F) → Type 0
  IsRefused r =
      (g : MechanicalGateOutcome F) → r ≡ ok g → g.accept ≡ false → g.reject_kind ≢ RejectKind.ok

  checked-IsRefused : (sc sb s : F) → IsRefused (ok (gate_checks f cand base cfg sc sb s))
  checked-IsRefused sc sb s g e =
      subst
        (λ r. elim r as (λ r. Type 0) [
          | ok o ↦ o.accept ≡ false → o.reject_kind ≢ RejectKind.ok
          | raise x ↦ Unit
        ])
        e (refused_kind sc sb s)

  -- What is left of the gate once the two standard deviations are there, or are not.
  abbrev spread_over : Result F → Result F → Result (MechanicalGateOutcome F)
  spread_over r t =
      r >>= λ sc. t >>= λ sb. sigma_of f sc sb >>= λ s. ok (gate_checks f cand base cfg sc sb s)

  of_combined :
      (sc sb : F) (k : Result F) → IsRefused (k >>= λ s. ok (gate_checks f cand base cfg sc sb s))
  of_combined sc sb (raise e) = λ g h. absurd (cc)
  of_combined sc sb (ok s) = checked-IsRefused sc sb s

  of_spreads : (r t : Result F) → IsRefused (spread_over r t)
  of_spreads (raise e) t = λ g h. absurd (cc)
  of_spreads (ok sc) (raise e) = λ g h. absurd (cc)
  of_spreads (ok sc) (ok sb) = of_combined sc sb (sigma_of f sc sb)

-- A gate that does not accept names a kind that is not `ok`.
pub reject_kind-mechanical_gate :
    {F : Type 0} (f : Float F) (cand base : List F) (cfg : MechanicalGateConfig F)
    (g : MechanicalGateOutcome F)
    → mechanical_gate f cand base (some cfg) ≡ ok g
    → g.accept ≡ false
    → g.reject_kind ≢ RejectKind.ok
unfolding mechanical_gate
reject_kind-mechanical_gate f [] base cfg g h = absurd (cc)
reject_kind-mechanical_gate f (c ∷ cs) [] cfg g h = absurd (cc)
reject_kind-mechanical_gate f (c ∷ cs) (b ∷ bs) cfg g h =
    of_spreads f (c ∷ cs) (b ∷ bs) cfg (stddev f (c ∷ cs)) (stddev f (b ∷ bs)) g h
