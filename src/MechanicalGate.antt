-- ===== src/MechanicalGate.antt =====
-- python/strategy_gpt/mechanical_gate.py: the deterministic accept floor. The float type `F` and
-- its operations are a parameter; of a rationale the numbers are kept that its text shows.
pub mod Verdict
pub mod Nan
mod Examples
use strategy_gpt.Prelude.{
  ℕ, Bool, true, false, ◌&&◌, List, [], ◌∷◌, map, Option, none, some, if◌then◌else◌, length, ltb,
}
use strategy_gpt.Prelude.Int.{pos}
use strategy_gpt.Prelude.Floats.{Float, of_ℕ}
use strategy_gpt.Prelude.Result.{Result, ok, raise, value_error, overflow_error, ◌>>=◌}
use strategy_gpt.RejectTaxonomy
use strategy_gpt.RejectTaxonomy.{RejectKind}

pub record MechanicalGateConfig (F : Type 0) : Type 0 where
  pub k : F
  pub fold_cv_threshold : F
  pub borderline_pct : F

-- The text of a rationale, by the numbers that are put into it.
pub data Rationale (F : Type 0) : Type 0 where
  variance_text : F → F → Rationale F
  noise_text : F → F → F → F → Rationale F
  passed_text : F → F → F → F → F → Rationale F

pub record MechanicalGateOutcome (F : Type 0) : Type 0 where
  pub accept : Bool
  pub reject_kind : RejectKind
  pub rationale : Rationale F
  pub borderline : Bool
  pub candidate_score : F
  pub baseline_score : F
  pub score_delta : F
  pub sigma_candidate : F
  pub sigma_baseline : F
  pub sigma_combined : F
  pub fold_cv : F
  pub k : F
  pub fold_cv_threshold : F

module _ {F : Type 0} (f : Float F) where
  abbrev pub default_config : MechanicalGateConfig F
  default_config = record {
    k = f.literal (pos 10) 1;
    fold_cv_threshold = f.literal (pos 5) 1;
    borderline_pct = f.literal (pos 20) 2;
  }

  pub mean : List F → F
  mean [] = of_ℕ f 0
  mean (x ∷ xs) = f.div (f.sum (x ∷ xs)) (of_ℕ f (length (x ∷ xs)))

  -- `x ** 2`
  abbrev pub power : F → Result F
  power x = if f.square_overflows x then raise overflow_error else ok (f.square x)

  -- `[x ** 2 for x in xs]`
  abbrev pub powers : List F → Result (List F)
  powers [] = ok []
  powers (x ∷ xs) = power x >>= λ y. powers xs >>= λ ys. ok (y ∷ ys)

  pub stddev : List F → Result F
  stddev xs =
      if ltb (length xs) 2
      then ok (of_ℕ f 0)
      else powers (map (λ x. f.sub x (mean xs)) xs) >>= λ squares.
          ok (f.sqrt (f.div (f.sum squares) (of_ℕ f (length xs))))

  -- `math.sqrt(sigma_cand ** 2 + sigma_base ** 2)`
  pub sigma_of : F → F → Result F
  sigma_of sigma_cand sigma_base =
      power sigma_cand >>= λ a. power sigma_base >>= λ b. ok (f.sqrt (f.add a b))

  pub fold_cv_of : F → List F → F
  fold_cv_of sigma_cand cand =
      let m = mean cand in if f.eq m (of_ℕ f 0) then f.inf else f.div sigma_cand (f.absolute m)

  -- The checks, once both lists are known not to be empty and the deviations are there.
  pub gate_checks :
      List F
      → List F
      → MechanicalGateConfig F
      → (sigma_cand sigma_base sigma_combined : F) → MechanicalGateOutcome F
  gate_checks cand base cfg sigma_cand sigma_base sigma_combined =
      let cand_mean = mean cand in
      let base_mean = mean base in
      let delta = f.sub cand_mean base_mean in
      let fold_cv = fold_cv_of sigma_cand cand in
      let floor = f.mul cfg.k sigma_combined in
      let outcome = λ (accept : Bool) (kind : RejectKind) (text : Rationale F) (borderline : Bool).
        let o : MechanicalGateOutcome F = record {
          accept = accept;
          reject_kind = kind;
          rationale = text;
          borderline = borderline;
          candidate_score = cand_mean;
          baseline_score = base_mean;
          score_delta = delta;
          sigma_candidate = sigma_cand;
          sigma_baseline = sigma_base;
          sigma_combined = sigma_combined;
          fold_cv = fold_cv;
          k = cfg.k;
          fold_cv_threshold = cfg.fold_cv_threshold;
        } in
        o in
      if f.lt cfg.fold_cv_threshold fold_cv
      then outcome false RejectKind.reject_variance (variance_text fold_cv cfg.fold_cv_threshold)
          false
      else if f.le delta floor
      then outcome false RejectKind.reject_noise
          (noise_text cand_mean base_mean sigma_combined cfg.k) false
      else outcome true RejectKind.ok
          (passed_text delta cfg.k sigma_combined fold_cv cfg.fold_cv_threshold)
          (f.lt (of_ℕ f 0) floor && f.le (f.sub delta floor) (f.mul cfg.borderline_pct floor))

  abbrev config_or_default : Option (MechanicalGateConfig F) → MechanicalGateConfig F
  config_or_default none = default_config
  config_or_default (some cfg) = cfg

  unfoldable pub mechanical_gate :
      List F → List F → Option (MechanicalGateConfig F) → Result (MechanicalGateOutcome F)
  unfolding gate_checks
  mechanical_gate [] base config = raise value_error
  mechanical_gate (c ∷ cs) [] config = raise value_error
  mechanical_gate (c ∷ cs) (b ∷ bs) config = stddev (c ∷ cs) >>= λ sigma_cand.
      stddev (b ∷ bs) >>= λ sigma_base. sigma_of sigma_cand sigma_base >>= λ sigma_combined. ok (
        gate_checks (c ∷ cs) (b ∷ bs) (config_or_default config) sigma_cand sigma_base
          sigma_combined)
