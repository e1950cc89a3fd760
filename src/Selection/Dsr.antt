-- ===== src/Selection/Dsr.antt =====
-- python/strategy_gpt/selection/dsr.py: the deflated Sharpe ratio. The normal distribution function
-- `phi` and its inverse (normal.py), Euler's numbers and the finiteness test are arguments.
use strategy_gpt.Prelude.Floats.{Float, of_ℕ}
use strategy_gpt.Prelude.{ℕ, Bool, if◌then◌else◌, leb, ◌-◌, ◌||◌, not}

pub record DsrInput (F : Type 0) : Type 0 where
  pub sharpe : F
  pub trade_count : ℕ
  pub skew : F
  pub kurt : F

pub record DsrResult (F : Type 0) : Type 0 where
  pub sharpe : F
  pub expected_max_sharpe : F
  pub sharpe_variance : F
  pub z : F
  pub dsr : F

pub record Normal (F : Type 0) : Type 0 where
  pub phi : F → F
  pub phi_inv : F → F
  -- `math.e` and `_EULER_MASCHERONI`
  pub e : F
  pub gamma : F
  pub is_finite : F → Bool

module _ {F : Type 0} (f : Float F) (normal : Normal F) where
  unfoldable pub expected_max_sharpe_of : ℕ → F
  expected_max_sharpe_of effective_n =
      if leb effective_n 1
      then of_ℕ f 0
      else let one = of_ℕ f 1 in
        let n = of_ℕ f effective_n in
        let term1 = normal.phi_inv (f.sub one (f.div one n)) in
        let term2 = normal.phi_inv (f.sub one (f.div one (f.mul n normal.e))) in
        f.add (f.mul (f.sub one normal.gamma) term1) (f.mul normal.gamma term2)

  unfoldable pub sharpe_variance_of : F → ℕ → F → F → F
  sharpe_variance_of sharpe trade_count skew kurt =
      if leb trade_count 1
      then f.inf
      else f.div
          (f.add (f.sub (of_ℕ f 1) (f.mul skew sharpe))
            (f.mul (f.div (f.sub kurt (of_ℕ f 1)) (of_ℕ f 4)) (f.square sharpe)))
          (of_ℕ f (trade_count - 1))

  unfoldable pub compute_dsr : ℕ → DsrInput F → DsrResult F
  unfolding expected_max_sharpe_of sharpe_variance_of
  compute_dsr effective_n c =
      let e_max = expected_max_sharpe_of effective_n in
      let var = sharpe_variance_of c.sharpe c.trade_count c.skew c.kurt in
      let z = f.div (f.sub c.sharpe e_max) (f.sqrt var) in
      let result = λ (score dsr : F).
        let r : DsrResult F = record {
          sharpe = c.sharpe;
          expected_max_sharpe = e_max;
          sharpe_variance = var;
          z = score;
          dsr = dsr;
        } in
        r in
      if f.le var (of_ℕ f 0) || not (normal.is_finite var)
      then result f.minus_inf (of_ℕ f 0)
      else result z (normal.phi z)
