-- ===== src/Selection/Selector/Order.antt =====
-- The keys of the two sorts are ordered, where floats are.
use strategy_gpt.Prelude.{◌≡◌, not, List, Bool, ◌&&◌, length, true, false, ◌∷◌, arith, [], refl}
use strategy_gpt.Prelude.Floats.{Float, IsOrdered}
use strategy_gpt.Selection.Candidates.{key_lt, tuple_lt}

-- On the values that occur, two floats are equal just where neither is less.
abbrev pub EqOfOrder : {F : Type 0} → Float F → Type 0
EqOfOrder f = (a b : _) → f.eq a b ≡ (not (f.lt a b) && not (f.lt b a))

module _ {F : Type 0} (f : Float F) (order : IsOrdered f) (law : EqOfOrder f) where
  tuple_lt_asymm : (xs ys : List F) → tuple_lt f xs ys ≡ true → tuple_lt f ys xs ≡ false
  tuple_lt_asymm [] ys h = absurd (cc)
  tuple_lt_asymm (x ∷ xs) [] h = absurd (cc)
  tuple_lt_asymm (x ∷ xs) (y ∷ ys) h =
      ground (arith, h, law x y, law y x, order.lt_asymm x y, tuple_lt_asymm xs ys)

  tuple_lt_cotrans :
      (xs ys zs : List F)
      → length xs ≡ length ys
      → length ys ≡ length zs
      → tuple_lt f xs ys ≡ false
      → tuple_lt f ys zs ≡ false
      → tuple_lt f xs zs ≡ false
  tuple_lt_cotrans [] ys zs e g h k = refl
  tuple_lt_cotrans (x ∷ xs) [] zs e g h k = absurd (omega (arith, e))
  tuple_lt_cotrans (x ∷ xs) (y ∷ ys) [] e g h k = absurd (omega (arith, g))
  tuple_lt_cotrans (x ∷ xs) (y ∷ ys) (z ∷ zs) e g h k = ground (
    arith,
    h,
    k,
    law x y,
    law y z,
    law x z,
    tuple_lt_cotrans xs ys zs (omega (arith, e)) (omega (arith, g)),
    order.lt_asymm x y,
    order.lt_asymm y z,
    order.lt_asymm x z,
    order.lt_asymm y x,
    order.lt_asymm z y,
    order.lt_asymm z x,
    order.lt_cotrans x y z,
    order.lt_cotrans z y x,
    order.lt_cotrans x z y,
    order.lt_cotrans y z x,
    order.lt_cotrans y x z,
    order.lt_cotrans z x y,
  )

  -- The order of the first components before the rest.
  pub key_lt_asymm : (a b : Bool × List F) → key_lt f a b ≡ true → key_lt f b a ≡ false
  key_lt_asymm (false, xs) (true, ys) h = refl
  key_lt_asymm (true, xs) (false, ys) h = absurd (cc)
  key_lt_asymm (true, xs) (true, ys) h = tuple_lt_asymm xs ys h
  key_lt_asymm (false, xs) (false, ys) h = tuple_lt_asymm xs ys h

  pub key_lt_cotrans :
      (a b c : Bool × List F)
      → length a.1 ≡ length b.1
      → length b.1 ≡ length c.1
      → key_lt f a b ≡ false
      → key_lt f b c ≡ false
      → key_lt f a c ≡ false
  key_lt_cotrans (true, xs) (true, ys) (true, zs) e g h k = tuple_lt_cotrans xs ys zs e g h k
  key_lt_cotrans (false, xs) (false, ys) (false, zs) e g h k = tuple_lt_cotrans xs ys zs e g h k
  key_lt_cotrans (true, xs) b (false, zs) e g h k = refl
  key_lt_cotrans (true, xs) (false, ys) (true, zs) e g h k = absurd (cc)
  key_lt_cotrans (false, xs) (true, ys) c e g h k = absurd (cc)
  key_lt_cotrans (false, xs) (false, ys) (true, zs) e g h k = absurd (cc)
