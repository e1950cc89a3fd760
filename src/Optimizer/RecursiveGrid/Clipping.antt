-- ===== src/Optimizer/RecursiveGrid/Clipping.antt =====
-- The boxes of the driver's rounds.
use strategy_gpt.Prelude.Floats.{Float, IsOrdered}
use strategy_gpt.Prelude.Result.{Result, ok, raise}
use strategy_gpt.Prelude.{
  ℕ, Bool, true, false, List, [], ◌∷◌, ◌≡◌, ◌⊎◌, ◌+◌, ◌<◌, arith, refl, inl, inr, Bool-cases, subst,
  sym, if◌then◌else◌,
}
use strategy_gpt.Prelude.Dict.{Dict}
use strategy_gpt.Optimizer.{
  RandomParam, continuous_param, int_param, choice_param, ParamSet, Trial, EvaluationOutcome,
}
use strategy_gpt.Optimizer.RecursiveGrid.{
  Numbers, Space, Cell, Box, shrink_box, shrunk_cell, clipped, centre_of, of_ℤ, is_frozen,
  resolution_for, centres_for,
}
use strategy_gpt.Optimizer.RecursiveGrid.Choices.{shrunk_parts}
use strategy_gpt.Optimizer.RecursiveGrid.Search.{
  RecursiveGridSearcher, Random, RecursiveGridDriver, observe, observed_box, observe_open, next_box,
}

module _ {F V : Type 0} (f : Float F) (n : Numbers F V) where
  -- The new interval does not reach out of the old one.
  abbrev pub IsClipped : F × F → F × F → Type 0
  IsClipped old new = (f.lt new.0 old.0 ≡ false) × (f.lt old.1 new.1 ≡ false)

  -- Choices stay, and an interval is clipped, or is collapsed to an integer, for an `IntParam`.
  abbrev pub IsShrunk : (param : RandomParam F V) → Cell param → Cell param → Type 0
  IsShrunk (continuous_param low high log) old new = IsClipped old new
  IsShrunk (int_param low high) old new =
      IsClipped old new ⊎ ((z : strategy_gpt.Prelude.Int.ℤ) × (new ≡ (of_ℤ f n z, of_ℤ f n z)))
  IsShrunk (choice_param choices) old new = new ≡ old

  abbrev pub AllShrunk : (space : Space F V) → Box space → Box space → Type 0
  AllShrunk [] old new = Unit
  AllShrunk ((name, param) ∷ space) (c, old) (d, new) = IsShrunk param c d × AllShrunk space old new

  module _ (order : IsOrdered f) where
    lt_irrefl : (a : F) → f.lt a a ≡ false
    lt_irrefl a = elim (Bool-cases (f.lt a a)) [ inl e ↦ order.lt_asymm a a e | inr e ↦ e ]

    same-IsClipped : (cell : F × F) → IsClipped cell cell
    same-IsClipped cell = (lt_irrefl cell.0, lt_irrefl cell.1)

    raised_low : (low least : F) → f.lt (if f.lt low least then least else low) low ≡ false
    raised_low low least = elim (Bool-cases (f.lt low least)) [
      | inl e ↦ rw e (order.lt_asymm low least e)
      | inr e ↦ rw e (lt_irrefl low)
    ]

    lowered_high :
        (high greatest : F) → f.lt high (if f.lt greatest high then greatest else high) ≡ false
    lowered_high high greatest = elim (Bool-cases (f.lt greatest high)) [
      | inl e ↦ rw e (order.lt_asymm greatest high e)
      | inr e ↦ rw e (lt_irrefl high)
    ]

    clipped-IsClipped :
        (cell : F × F) (res : ℕ) (c : F) (cs : List F) → IsClipped cell (clipped f n cell res c cs)
    clipped-IsClipped cell res c cs = (raised_low cell.0 _, lowered_high cell.1 _)

    shrunk_cell-IsShrunk :
        (param : RandomParam F V) (cell : Cell param) (res : ℕ) (cs : List F)
        → IsShrunk param cell (shrunk_cell f n param cell res cs)
    shrunk_cell-IsShrunk (choice_param choices) cell res cs = refl
    shrunk_cell-IsShrunk (continuous_param low high log) cell res [] = same-IsClipped cell
    shrunk_cell-IsShrunk (continuous_param low high log) cell res (c ∷ cs) =
        clipped-IsClipped cell res c cs
    shrunk_cell-IsShrunk (int_param low high) cell res [] = inl (same-IsClipped cell)
    shrunk_cell-IsShrunk (int_param low high) cell res (c ∷ cs) =
        elim (Bool-cases (is_frozen f n (clipped f n cell res c cs))) [
          | inl e ↦ rw e (inr (centre_of f n (clipped f n cell res c cs), refl))
          | inr e ↦ rw e (inl (clipped-IsClipped cell res c cs))
        ]

    shrink_box-AllShrunk :
        (top : List (ParamSet V)) (per_dim : Dict ℕ) (resolution : ℕ) (space : Space F V)
        (box new_box : Box space)
        → shrink_box f n top per_dim resolution space box ≡ ok new_box
        → AllShrunk space box new_box
    unfolding shrink_box
    shrink_box-AllShrunk top per_dim resolution [] box new_box e = tt
    shrink_box-AllShrunk top per_dim resolution ((name, param) ∷ space) (cell, box) (c, b) e =
        let res = resolution_for f n per_dim resolution name in
        let ((k, c_eq), rest_eq) =
          shrunk_parts f n (centres_for f n param name top)
            (shrink_box f n top per_dim resolution space box) (shrunk_cell f n param cell res) c b
            e in
        (
          subst (IsShrunk param cell) (sym c_eq) (shrunk_cell-IsShrunk param cell res k),
          shrink_box-AllShrunk top per_dim resolution space box b rest_eq,
        )

-- What holds of the value that a call returns.
pub of_ok : {A : Type 0} (P : A → Type 0) {a b : A} → ok a ≡ ok b → P a → P b
of_ok P {a} e p = subst (λ r. elim r as (λ r. Type 0) [ ok x ↦ P x | raise x ↦ Unit ]) e p

module _ {F V M S W : Type 0} (f : Float F) (n : Numbers F V) (random : Random S)
    (evaluate_batch : List (ParamSet V) → W → Result (List M) × W)
    (score : M → Result (EvaluationOutcome F)) (s : RecursiveGridSearcher F V) where
  module _ (order : IsOrdered f) where
    same-AllShrunk : (space : Space F V) (box : Box space) → AllShrunk f n space box box
    same-AllShrunk [] box = tt
    same-AllShrunk ((name, continuous_param low high log) ∷ space) (cell, box) =
        (same-IsClipped f n order cell, same-AllShrunk space box)
    same-AllShrunk ((name, int_param low high) ∷ space) (cell, box) =
        (inl (same-IsClipped f n order cell), same-AllShrunk space box)
    same-AllShrunk ((name, choice_param choices) ∷ space) (cell, box) =
        (refl, same-AllShrunk space box)

    -- What a round may do to the driver.
    abbrev pub IsRound : (old new : RecursiveGridDriver f n random evaluate_batch score s) → Type 0
    IsRound old new =
        AllShrunk f n s.space old.box new.box
        × (old.done ≡ true → new.done ≡ true)
        × (new.done ≡ false → (new.round_index ≡ old.round_index + 1) × (new.round_index < s.depth))

    observed_box-IsRound :
        (driver new : RecursiveGridDriver f n random evaluate_batch score s)
        (shrunk : Result (Box s.space) × S)
        → driver.done ≡ false
        → ((b : Box s.space) → shrunk.0 ≡ ok b → AllShrunk f n s.space driver.box b)
        → observed_box f n random evaluate_batch score s driver shrunk ≡ ok new
        → IsRound driver new
    observed_box-IsRound driver new (raise x, rng) going boxes e = absurd (cc)
    observed_box-IsRound driver new (ok b, rng) going boxes e =
        of_ok (IsRound driver) e (boxes b refl, λ d. absurd (cc), λ d. ground (arith, d))

    observe_open-IsRound :
        (trials : List (Trial F V M))
        (driver new : RecursiveGridDriver f n random evaluate_batch score s)
        → driver.done ≡ false
        → observe_open f n random evaluate_batch score s trials driver ≡ ok new
        → IsRound driver new
    observe_open-IsRound [] driver new d e =
        of_ok (IsRound driver) e (same-AllShrunk s.space driver.box, λ h. refl, λ h. absurd (cc))
    observe_open-IsRound (t ∷ trials) driver new d e =
        observed_box-IsRound driver new
          (next_box f n random evaluate_batch score s driver.box (t ∷ trials) driver.rng) d
          (λ b. shrink_box-AllShrunk f n order _ _ _ s.space driver.box b) e

    -- Where floats are totally ordered, a round that is observed without an exception leaves
    -- choices as they are, clips each interval to the old one or, for an integer, collapses it to
    -- one integer. A driver that is done stays done, and one that goes on has counted the round and
    -- is below its depth.
    pub observe-IsRound :
        (trials : List (Trial F V M))
        (driver new : RecursiveGridDriver f n random evaluate_batch score s)
        → observe f n random evaluate_batch score s trials driver ≡ ok new
        → IsRound driver new
    unfolding observe
    observe-IsRound trials driver new e =
        let now = λ (d : Bool).
          (if d then ok driver else observe_open f n random evaluate_batch score s trials driver)
          ≡ ok new in
        elim (Bool-cases driver.done) [
          | inl d ↦
              of_ok (IsRound driver) (subst now d e)
                (same-AllShrunk s.space driver.box, λ h. h, λ h. absurd (cc))
          | inr d ↦ observe_open-IsRound trials driver new d (subst now d e)
        ]
