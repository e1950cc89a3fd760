-- ===== src/MechanicalGate/Examples.antt =====
-- Tests of the gate, and its theorems at concrete scores.
use strategy_gpt.Prelude.{◌≡◌, ◌≢◌, ◌⊎◌, refl, true, false, List, [], ◌∷◌, some, arith, ◌*◌, ◌^◌}
use strategy_gpt.Prelude.Int.{ℤ, pos}
use strategy_gpt.Prelude.Result.{ok, raise, value_error, overflow_error}
use strategy_gpt.Prelude.Samples.{whole, whole-IsOrdered, whole_arith}
use strategy_gpt.Prelude.Samples.Extended.{
  Extended, nan, low, fin, is_nan, is_finite, extended, extended-HasNan, extended-HasMinusInf,
}
use strategy_gpt.RejectTaxonomy.{RejectKind}
use strategy_gpt.MechanicalGate.{
  MechanicalGateConfig, MechanicalGateOutcome, mean, stddev, sigma_of, fold_cv_of, mechanical_gate,
}
use strategy_gpt.MechanicalGate.Verdict.{IsVerdict, Overflow, mechanical_gate_lem}
use strategy_gpt.MechanicalGate.Nan.{nan_score_accepted, minus_inf_score_accepted}

abbrev cfg : MechanicalGateConfig ℤ
cfg = record { k = pos 1; fold_cv_threshold = pos 1; borderline_pct = pos 1 }

abbrev candidate : List ℤ
candidate = pos 100 ∷ pos 110 ∷ []

abbrev baseline : List ℤ
baseline = pos 90 ∷ pos 92 ∷ []

accepts :
    (o : MechanicalGateOutcome ℤ) × (mechanical_gate whole candidate baseline (some cfg) ≡ ok o)
    × (o.accept ≡ true)
    × (o.sigma_candidate ≡ pos 5)
    × (o.borderline ≡ false)
unfolding mechanical_gate mean stddev sigma_of fold_cv_of whole_arith
accepts = (_, refl, refl, refl, refl)

rejects_noise :
    (o : MechanicalGateOutcome ℤ) × (mechanical_gate whole baseline baseline (some cfg) ≡ ok o)
    × (o.reject_kind ≡ RejectKind.reject_noise)
unfolding mechanical_gate mean stddev sigma_of fold_cv_of whole_arith
rejects_noise = (_, refl, refl)

mechanical_gate_lem_example :
    ((o : MechanicalGateOutcome ℤ) × (mechanical_gate whole candidate baseline (some cfg) ≡ ok o)
      × IsVerdict whole whole-IsOrdered candidate baseline cfg o
      × (candidate ≢ [])
      × (baseline ≢ []))
    ⊎ ((mechanical_gate whole candidate baseline (some cfg) ≡ raise value_error)
        × ((candidate ≡ []) ⊎ (baseline ≡ [])))
    ⊎ ((mechanical_gate whole candidate baseline (some cfg) ≡ raise overflow_error)
        × Overflow whole whole-IsOrdered candidate baseline)
mechanical_gate_lem_example = mechanical_gate_lem whole whole-IsOrdered candidate baseline cfg

abbrev strict : MechanicalGateConfig Extended
strict = record {
  k = fin (pos 1000);
  fold_cv_threshold = fin (pos 0);
  borderline_pct = fin (pos 1);
}

abbrev strong : List Extended
strong = fin (pos 500) ∷ fin (pos 510) ∷ []

strong_spread : stddev extended strong ≡ ok (fin (pos 5))
unfolding stddev mean whole_arith
strong_spread = refl

strong_fits : extended.square_overflows (fin (pos 5)) ≡ false
unfolding whole_arith
strong_fits = refl

nan_score_accepted_example :
    (o : MechanicalGateOutcome Extended) × (mechanical_gate extended
        (fin (pos 1) ∷ nan ∷ [])
        strong
        (some strict)
      ≡ ok o)
    × (o.accept ≡ true)
nan_score_accepted_example =
    nan_score_accepted extended is_nan extended-HasNan (fin (pos 1) ∷ []) [] strong nan
      (fin (pos 5)) strict refl (omega arith) strong_spread strong_fits

minus_inf_score_accepted_example :
    (o : MechanicalGateOutcome Extended) × (mechanical_gate extended
        (fin (pos 1) ∷ low ∷ [])
        strong
        (some strict)
      ≡ ok o)
    × (o.accept ≡ true)
minus_inf_score_accepted_example =
    minus_inf_score_accepted extended is_nan extended-HasNan is_finite extended-HasMinusInf
      (fin (pos 1) ∷ []) [] (refl, tt) tt strong strict (fin (pos 5)) (omega arith) (omega arith)
      strong_spread strong_fits

-- A deviation of ten million has no square in this type.
overflows :
    mechanical_gate extended (fin (pos (2 * 10 ^ 7)) ∷ fin (pos 0) ∷ []) strong (some strict)
    ≡ raise overflow_error
unfolding mechanical_gate mean stddev sigma_of fold_cv_of whole_arith
overflows = refl
