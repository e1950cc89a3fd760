-- ===== src/Prelude/Floats.antt =====
-- Python's `float` as a parameter: the operations that the program calls, and the laws of IEEE 754
-- that a theorem may assume of them.
use strategy_gpt.Prelude.{ℕ, ◌<◌, ◌≡◌, ◌⊎◌, Bool, true, false, List, ◌∷◌, ◌++◌, All}
use strategy_gpt.Prelude.Int.{ℤ, pos}

pub record Float (F : Type 0) : Type 0 where
  -- The decimal literal `m * 10 ** (- k)`, and so every `int` that meets a float.
  pub literal : ℤ → ℕ → F
  pub add : F → F → F
  pub sub : F → F → F
  pub mul : F → F → F
  pub div : F → F → F
  -- `x ** 2`, and whether it raises OverflowError
  pub square : F → F
  pub square_overflows : F → Bool
  pub sqrt : F → F
  pub absolute : F → F
  -- `sum(xs)`, and so `statistics.fmean` up to the division
  pub sum : List F → F
  pub inf : F
  pub minus_inf : F
  pub lt : F → F → Bool
  pub le : F → F → Bool
  pub eq : F → F → Bool

abbrev pub of_ℕ : {F : Type 0} (f : Float F) → ℕ → F
of_ℕ f n = f.literal (pos n) 0

-- On the values that occur, none of them NaN, `<` is the strict part of a total order.
pub record IsOrdered {F : Type 0} (f : Float F) : Type 0 where
  pub lt_asymm : (a b : F) → f.lt a b ≡ true → f.lt b a ≡ false
  pub lt_cotrans : (a b c : F) → f.lt a b ≡ false → f.lt b c ≡ false → f.lt a c ≡ false
  pub le_not_lt : (a b : F) → f.le a b ≡ true → f.lt b a ≡ false
  pub lt_not_le : (a b : F) → f.lt a b ≡ true → f.le b a ≡ false
  pub not_le_lt : (a b : F) → f.le a b ≡ false → f.lt b a ≡ true
  pub not_lt_le : (a b : F) → f.lt a b ≡ false → f.le b a ≡ true

-- NaN passes through arithmetic, and no comparison with it holds; NaN and zero have a square.
pub record HasNan {F : Type 0} (f : Float F) (is_nan : F → Bool) : Type 0 where
  pub sub_nan : (a b : F) → (is_nan a ≡ true) ⊎ (is_nan b ≡ true) → is_nan (f.sub a b) ≡ true
  pub add_nan : (a b : F) → (is_nan a ≡ true) ⊎ (is_nan b ≡ true) → is_nan (f.add a b) ≡ true
  pub mul_nan : (a b : F) → (is_nan a ≡ true) ⊎ (is_nan b ≡ true) → is_nan (f.mul a b) ≡ true
  pub div_nan : (a b : F) → (is_nan a ≡ true) ⊎ (is_nan b ≡ true) → is_nan (f.div a b) ≡ true
  pub square_nan : (a : F) → is_nan a ≡ true → is_nan (f.square a) ≡ true
  pub overflows_nan : (a : F) → is_nan a ≡ true → f.square_overflows a ≡ false
  pub zero_overflows : f.square_overflows (of_ℕ f 0) ≡ false
  pub absolute_nan : (a : F) → is_nan a ≡ true → is_nan (f.absolute a) ≡ true
  pub sqrt_nan : (a : F) → is_nan a ≡ true → is_nan (f.sqrt a) ≡ true
  pub sum_nan : (xs ys : List F) (a : F) → is_nan a ≡ true → is_nan (f.sum (xs ++ a ∷ ys)) ≡ true
  pub lt_nan : (a b : F) → (is_nan a ≡ true) ⊎ (is_nan b ≡ true) → f.lt a b ≡ false
  pub le_nan : (a b : F) → (is_nan a ≡ true) ⊎ (is_nan b ≡ true) → f.le a b ≡ false
  pub eq_nan : (a b : F) → (is_nan a ≡ true) ⊎ (is_nan b ≡ true) → f.eq a b ≡ false

-- A sum of finite numbers and one minus infinity is minus infinity, or NaN where the others add up to
-- infinity. A positive count does not scale minus infinity, and it is not zero; minus infinity less
-- itself is NaN; and what is left of a number less minus infinity, infinity or NaN, has a square.
pub record HasMinusInf {F : Type 0} (f : Float F) (is_nan is_finite : F → Bool) : Type 0 where
  pub sum_minus_inf :
      (xs ys : List F)
      → All (λ x. is_finite x ≡ true) xs
      → All (λ x. is_finite x ≡ true) ys
      → (f.sum (xs ++ f.minus_inf ∷ ys) ≡ f.minus_inf)
        ⊎ (is_nan (f.sum (xs ++ f.minus_inf ∷ ys)) ≡ true)
  pub div_minus_inf : (n : ℕ) → 0 < n → f.div f.minus_inf (of_ℕ f n) ≡ f.minus_inf
  pub minus_inf_sub_self : is_nan (f.sub f.minus_inf f.minus_inf) ≡ true
  pub minus_inf_ne_zero : f.eq f.minus_inf (of_ℕ f 0) ≡ false
  pub sub_minus_inf_overflows : (a : F) → f.square_overflows (f.sub a f.minus_inf) ≡ false
