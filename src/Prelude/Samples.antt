-- ===== src/Prelude/Samples.antt =====
-- Two concrete float types for the theorems' instances: whole numbers, and whole numbers with the
-- two infinities and NaN. Both divide and take roots rounding towards zero.
pub mod Extended
use strategy_gpt.Prelude.{
  ℕ, zero, suc, ◌*◌, ◌/◌, ◌^◌, ◌≡◌, Bool, true, false, List, [], ◌∷◌, arith, leb, ltb,
  if◌then◌else◌, ◌&&◌,
}
use strategy_gpt.Prelude.Int.{
  ℤ, pos, negsuc, pos_part, neg_part, sub_ℕ, ◌+ℤ◌, ◌-ℤ◌, ◌*ℤ◌, ltb_ℤ, leb_ℤ, neg_ℤ,
}
use strategy_gpt.Prelude.Floats.{Float, IsOrdered}

unfoldable pub abs_ℤ : ℤ → ℤ
abs_ℤ (pos n) = pos n
abs_ℤ (negsuc n) = pos (suc n)

unfoldable pub div_ℤ : ℤ → ℤ → ℤ
unfolding neg_ℤ
div_ℤ (pos a) (pos b) = pos (a / b)
div_ℤ (pos a) (negsuc b) = neg_ℤ (pos (a / suc b))
div_ℤ (negsuc a) (pos b) = neg_ℤ (pos (suc a / b))
div_ℤ (negsuc a) (negsuc b) = pos (suc a / suc b)

root_below : ℕ → ℕ → ℕ
root_below zero n = 0
root_below (suc r) n = let lower = root_below r n in if leb (suc r * suc r) n then suc r else lower

unfoldable pub sqrt_ℤ : ℤ → ℤ
unfolding root_below
sqrt_ℤ (pos n) = pos (root_below n n)
sqrt_ℤ (negsuc n) = pos 0

unfoldable pub sum_ℤ : List ℤ → ℤ
unfolding ◌+ℤ◌
sum_ℤ [] = pos 0
sum_ℤ (x ∷ xs) = x +ℤ sum_ℤ xs

unfoldable pub literal_ℤ : ℤ → ℕ → ℤ
unfolding div_ℤ
literal_ℤ m k = div_ℤ m (pos (10 ^ k))

abbrev pub whole : Float ℤ
whole = record {
  literal = literal_ℤ;
  add = ◌+ℤ◌;
  sub = ◌-ℤ◌;
  mul = ◌*ℤ◌;
  div = div_ℤ;
  square = λ x. x *ℤ x;
  square_overflows = λ x. false;
  sqrt = sqrt_ℤ;
  absolute = abs_ℤ;
  sum = sum_ℤ;
  inf = pos (10 ^ 9);
  minus_inf = neg_ℤ (pos (10 ^ 9));
  lt = ltb_ℤ;
  le = leb_ℤ;
  eq = λ a b. leb_ℤ a b && leb_ℤ b a;
}

pub whole-IsOrdered : IsOrdered whole
whole-IsOrdered = record {
  lt_asymm = λ a b h. ground arith;
  lt_cotrans = λ a b c h k. ground arith;
  le_not_lt = λ a b h. ground arith;
  lt_not_le = λ a b h. ground arith;
  not_le_lt = λ a b h. ground arith;
  not_lt_le = λ a b h. ground arith;
}

-- What a test must unfold to compute with `whole`.
unfoldable pub whole_arith : Unit {0}
unfolding ◌+ℤ◌ ◌-ℤ◌ ◌*ℤ◌ neg_ℤ abs_ℤ div_ℤ sqrt_ℤ sum_ℤ literal_ℤ
whole_arith = tt
