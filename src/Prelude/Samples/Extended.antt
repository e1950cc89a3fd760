-- ===== src/Prelude/Samples/Extended.antt =====
-- Whole numbers with NaN and the two infinities, which follow the rules of IEEE 754.
use strategy_gpt.Prelude.{
  ℕ, zero, suc, ◌<◌, ◌≡◌, ◌⊎◌, refl, inl, inr, Bool, true, false, List, [], ◌∷◌, ◌++◌, arith, All,
  ◌^◌,
}
use Prim.Native.Nat.{◌/◌}
use strategy_gpt.Prelude.Int.{ℤ, pos, negsuc, ◌+ℤ◌, ◌*ℤ◌, ltb_ℤ, leb_ℤ, neg_ℤ}
use mathlib.Core.Bool.{◌&&◌}
use strategy_gpt.Prelude.Floats.{Float, HasNan, HasMinusInf}
use strategy_gpt.Prelude.Samples.{abs_ℤ, div_ℤ, sqrt_ℤ, literal_ℤ}

pub data Extended : Type 0 where
  nan low high : Extended
  fin : ℤ → Extended

-- An infinity scaled by a sign.
abbrev scaled : ℤ → Extended → Extended → Extended
scaled (pos zero) up down = nan
scaled (pos (suc n)) up down = up
scaled (negsuc n) up down = down

abbrev negate : Extended → Extended
negate nan = nan
negate low = high
negate high = low
negate (fin a) = fin (neg_ℤ a)

abbrev plus : Extended → Extended → Extended
plus nan b = nan
plus low nan = nan
plus low low = low
plus low high = nan
plus low (fin b) = low
plus high nan = nan
plus high low = nan
plus high high = high
plus high (fin b) = high
plus (fin a) nan = nan
plus (fin a) low = low
plus (fin a) high = high
plus (fin a) (fin b) = fin (a +ℤ b)

abbrev times : Extended → Extended → Extended
times nan b = nan
times low nan = nan
times low low = high
times low high = low
times low (fin b) = scaled b low high
times high nan = nan
times high low = low
times high high = high
times high (fin b) = scaled b high low
times (fin a) nan = nan
times (fin a) low = scaled a low high
times (fin a) high = scaled a high low
times (fin a) (fin b) = fin (a *ℤ b)

abbrev over : Extended → Extended → Extended
over nan b = nan
over low nan = nan
over low low = nan
over low high = nan
over low (fin b) = scaled b low high
over high nan = nan
over high low = nan
over high high = nan
over high (fin b) = scaled b high low
over (fin a) nan = nan
over (fin a) low = fin (pos 0)
over (fin a) high = fin (pos 0)
over (fin a) (fin b) = fin (div_ℤ a b)

abbrev root : Extended → Extended
root nan = nan
root low = nan
root high = high
root (fin a) = fin (sqrt_ℤ a)

abbrev magnitude : Extended → Extended
magnitude nan = nan
magnitude low = high
magnitude high = high
magnitude (fin a) = fin (abs_ℤ a)

abbrev total_from : Extended → List Extended → Extended
total_from acc [] = acc
total_from acc (x ∷ xs) = total_from (plus acc x) xs

abbrev below : Extended → Extended → Bool
below nan b = false
below low nan = false
below low low = false
below low high = true
below low (fin b) = true
below high b = false
below (fin a) nan = false
below (fin a) low = false
below (fin a) high = true
below (fin a) (fin b) = ltb_ℤ a b

abbrev at_most : Extended → Extended → Bool
at_most nan b = false
at_most low nan = false
at_most low low = true
at_most low high = true
at_most low (fin b) = true
at_most high nan = false
at_most high low = false
at_most high high = true
at_most high (fin b) = false
at_most (fin a) nan = false
at_most (fin a) low = false
at_most (fin a) high = true
at_most (fin a) (fin b) = leb_ℤ a b

abbrev pub is_nan : Extended → Bool
is_nan nan = true
is_nan low = false
is_nan high = false
is_nan (fin a) = false

abbrev pub is_finite : Extended → Bool
is_finite (fin a) = true
is_finite nan = false
is_finite low = false
is_finite high = false

abbrev pub extended : Float Extended
extended = record {
  literal = λ m k. fin (literal_ℤ m k);
  add = plus;
  sub = λ a b. plus a (negate b);
  mul = times;
  div = over;
  square = λ a. times a a;
  square_overflows = λ a. is_finite a && below (fin (pos (10 ^ 6))) (magnitude a);
  sqrt = root;
  absolute = magnitude;
  sum = total_from (fin (pos 0));
  inf = high;
  minus_inf = low;
  lt = below;
  le = at_most;
  eq = λ a b. at_most a b && at_most b a;
}

plus_nan : (a b : Extended) → (is_nan a ≡ true) ⊎ (is_nan b ≡ true) → is_nan (plus a b) ≡ true
plus_nan a b h = ground arith

negate_nan : (a : Extended) → is_nan (negate a) ≡ is_nan a
negate_nan a = ground arith

total_from_nan :
    (acc : Extended) (xs : List Extended) → is_nan acc ≡ true → is_nan (total_from acc xs) ≡ true
total_from_nan acc [] h = h
total_from_nan acc (x ∷ xs) h = total_from_nan (plus acc x) xs (plus_nan acc x (inl h))

total_from_append_nan :
    (acc : Extended) (xs ys : List Extended) (a : Extended)
    → is_nan a ≡ true
    → is_nan (total_from acc (xs ++ a ∷ ys)) ≡ true
total_from_append_nan acc [] ys a h = total_from_nan (plus acc a) ys (plus_nan acc a (inr h))
total_from_append_nan acc (x ∷ xs) ys a h = total_from_append_nan (plus acc x) xs ys a h

pub extended-HasNan : HasNan extended is_nan
unfolding abs_ℤ literal_ℤ
extended-HasNan = record {
  sub_nan = λ a b h. plus_nan a (negate b) (rw negate_nan h);
  add_nan = plus_nan;
  mul_nan = λ a b h. ground arith;
  div_nan = λ a b h. ground arith;
  square_nan = λ a h. ground arith;
  overflows_nan = λ a h. ground arith;
  zero_overflows = refl;
  absolute_nan = λ a h. ground arith;
  sqrt_nan = λ a h. ground arith;
  sum_nan = total_from_append_nan (fin (pos 0));
  lt_nan = λ a b h. ground arith;
  le_nan = λ a b h. ground arith;
  eq_nan = λ a b h. ground arith;
}

total_from_low : (xs : List Extended) → All (λ x. is_finite x ≡ true) xs → total_from low xs ≡ low
total_from_low [] h = refl
total_from_low (fin a ∷ xs) h = total_from_low xs h.1
total_from_low (nan ∷ xs) h = absurd (ground arith)
total_from_low (low ∷ xs) h = absurd (ground arith)
total_from_low (high ∷ xs) h = absurd (ground arith)

total_from_append_low :
    (n : ℤ) (xs ys : List Extended)
    → All (λ x. is_finite x ≡ true) xs
    → All (λ x. is_finite x ≡ true) ys
    → total_from (fin n) (xs ++ low ∷ ys) ≡ low
total_from_append_low n [] ys h k = total_from_low ys k
total_from_append_low n (fin a ∷ xs) ys h k = total_from_append_low (n +ℤ a) xs ys h.1 k
total_from_append_low n (nan ∷ xs) ys h k = absurd (ground arith)
total_from_append_low n (low ∷ xs) ys h k = absurd (ground arith)
total_from_append_low n (high ∷ xs) ys h k = absurd (ground arith)

over_count : (n : ℕ) → 0 < n → over low (fin (literal_ℤ (pos n) 0)) ≡ low
unfolding literal_ℤ
over_count zero h = absurd (omega arith)
over_count (suc n) h = let e : suc n / 1 ≡ suc n = omega arith in rw e refl

pub extended-HasMinusInf : HasMinusInf extended is_nan is_finite
extended-HasMinusInf = record {
  sum_minus_inf = λ xs ys h k. inl (total_from_append_low (pos 0) xs ys h k);
  div_minus_inf = over_count;
  minus_inf_sub_self = refl;
  minus_inf_ne_zero = refl;
  sub_minus_inf_overflows = λ a. ground arith;
}
