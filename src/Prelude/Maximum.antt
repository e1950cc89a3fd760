-- ===== src/Prelude/Maximum.antt =====
-- Python's `max(xs, key=...)`: the first of the greatest elements. `less a b` is the test
-- `key(a) < key(b)`, the only one that `max` makes.
use strategy_gpt.Prelude.{
  Bool, ◌≡◌, List, if◌then◌else◌, Option, ◌∷◌, none, ◌++◌, true, some, All, false, Bool-cases, inl,
  inr, arith, [], ap, subst, refl,
}
use strategy_gpt.Prelude.Sorting.{IsWeakOrder}

module _ {ℓ} {A : Type ℓ} (less : A → A → Bool) where
  abbrev pub max_from : A → List A → A
  max_from best [] = best
  max_from best (x ∷ xs) = max_from (if less best x then x else best) xs

  -- `max(xs, key=..., default=None)`
  abbrev pub max_of : List A → Option A
  max_of [] = none
  max_of (x ∷ xs) = some (max_from x xs)

  pub max_of-none : (xs : List A) → max_of xs ≡ none → xs ≡ []
  max_of-none [] h = refl
  max_of-none (x ∷ xs) h = absurd (cc)

  -- `m` is greater than all that stands before it, and not less than what follows.
  pub record IsFirstMax (m : A) (xs : List A) : Type ℓ where
    pub before : List A
    pub after : List A
    pub split : xs ≡ before ++ m ∷ after
    pub greater : All (λ x. less x m ≡ true) before
    pub not_less : All (λ x. less m x ≡ false) after

module _ {ℓ} {A : Type ℓ} (less : A → A → Bool) (order : IsWeakOrder less) where
  less_trans : (a b c : A) → less a b ≡ true → less c b ≡ false → less a c ≡ true
  less_trans a b c h k = elim (Bool-cases (less a c)) [
    | inl e ↦ e
    | inr e ↦ absurd (ground (arith, h, order.cotrans a c b e k))
  ]

  less_irrefl : (a : A) → less a a ≡ false
  less_irrefl a = elim (Bool-cases (less a a)) [ inl e ↦ order.asymm a a e | inr e ↦ e ]

  -- The greatest is not less than the head.
  not_less_head :
      (m x : A) (xs before after : List A)
      → x ∷ xs ≡ before ++ m ∷ after
      → All (λ y. less y m ≡ true) before
      → less m x ≡ false
  not_less_head m x xs [] after e h = ground (arith, less_irrefl m)
  not_less_head m x xs (b ∷ before) after e h = ground (arith, order.asymm b m h.0)

  above :
      (best x m : A) (xs : List A)
      → less best x ≡ true
      → IsFirstMax less m (x ∷ xs)
      → IsFirstMax less m (best ∷ x ∷ xs)
  above best x m xs e h = record {
    before = best ∷ h.before;
    after = h.after;
    split = ap (λ l. best ∷ l) h.split;
    greater = (
      less_trans best x m e (not_less_head m x xs h.before h.after h.split h.greater),
      h.greater,
    );
    not_less = h.not_less;
  }

  kept :
      (best x m : A) (xs before after : List A)
      → less best x ≡ false
      → best ∷ xs ≡ before ++ m ∷ after
      → All (λ y. less y m ≡ true) before
      → All (λ y. less m y ≡ false) after
      → IsFirstMax less m (best ∷ x ∷ xs)
  kept best x m xs [] after e s g n = record {
    before = [];
    after = x ∷ xs;
    split = ground arith;
    greater = tt;
    not_less = ground arith;
  }
  kept best x m xs (b ∷ before) after e s g n = record {
    before = best ∷ x ∷ before;
    after = after;
    split = ground arith;
    greater = (ground arith, (ground (arith, order.cotrans best x m e), g.1));
    not_less = n;
  }

  pub max_from-IsFirstMax :
      (best : A) (xs : List A) → IsFirstMax less (max_from less best xs) (best ∷ xs)
  max_from-IsFirstMax best [] = record {
    before = [];
    after = [];
    split = λ i. best ∷ [];
    greater = tt;
    not_less = tt;
  }
  max_from-IsFirstMax best (x ∷ xs) = elim (Bool-cases (less best x)) [
    | inl e ↦ rw e (above best x (max_from less x xs) xs e (max_from-IsFirstMax x xs))
    | inr e ↦
        let h = max_from-IsFirstMax best xs in
        rw e
          (kept best x (max_from less best xs) xs h.before h.after e h.split h.greater h.not_less)
  ]

  pub max_of-IsFirstMax : (xs : List A) (m : A) → max_of less xs ≡ some m → IsFirstMax less m xs
  max_of-IsFirstMax [] m h = absurd (cc)
  max_of-IsFirstMax (x ∷ xs) m h =
      subst (λ y. IsFirstMax less y (x ∷ xs)) (ground arith) (max_from-IsFirstMax x xs)
