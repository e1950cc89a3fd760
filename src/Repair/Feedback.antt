-- ===== src/Repair/Feedback.antt =====
-- What the feedback quotes of a long emission.
use mathlib.Core.List.{append_assoc}
use strategy_gpt.Prelude.{
  inl, inr, Bool-cases, ltb, ℕ, zero, suc, ◌+◌, ◌-◌, ◌≤◌, ◌≡◌, refl, sym, ap, ◌∙◌, List, [], ◌∷◌,
  ◌++◌, arith, if_true, length, take, drop, length-append, length-take, length-drop, if_false,
}
use strategy_gpt.Repair.{Text, last_chars, truncation_mark, excerpt}

take-append_left {ℓ} :
    {A : Type ℓ} (n : ℕ) (xs ys : List A) → length xs ≡ n → take n (xs ++ ys) ≡ xs
take-append_left zero [] ys e = refl
take-append_left zero (x ∷ xs) ys e = absurd (omega arith)
take-append_left (suc n) [] ys e = absurd (omega arith)
take-append_left (suc n) (x ∷ xs) ys e = ap (◌∷◌ x) (take-append_left n xs ys (omega arith))

drop-append_left {ℓ} :
    {A : Type ℓ} (n : ℕ) (xs ys : List A) → length xs ≡ n → drop n (xs ++ ys) ≡ ys
drop-append_left zero [] ys e = refl
drop-append_left zero (x ∷ xs) ys e = absurd (omega arith)
drop-append_left (suc n) [] ys e = absurd (omega arith)
drop-append_left (suc n) (x ∷ xs) ys e = drop-append_left n xs ys (omega arith)

-- A suffix of a suffix, taken from the end of a longer text.
last_chars-append : (n : ℕ) (xs ys : Text) → length ys ≡ n → last_chars n (xs ++ ys) ≡ ys
last_chars-append n xs ys e =
    drop-append_left (length (xs ++ ys) - n) xs ys (omega (arith, length-append xs ys))

length-mark : length truncation_mark ≡ 21
unfolding truncation_mark
length-mark = refl

module _ (half : ℕ) (s : Text) where
  abbrev shortened : Text
  shortened = take half s ++ (truncation_mark ++ last_chars half s)

module _ (half : ℕ) (s : Text) (long : half + half ≤ length s) where
  length-front : length (take half s) ≡ half
  length-front = omega (arith, length-take half s)

  length-back : length (last_chars half s) ≡ half
  length-back = omega (arith, length-drop (length s - half) s)

  shortened-keeps :
      (take half (shortened half s) ≡ take half s)
      × (last_chars half (shortened half s) ≡ last_chars half s)
  shortened-keeps = (
    take-append_left half (take half s) _ length-front,
    ap (last_chars half) (sym (append_assoc (take half s) truncation_mark (last_chars half s)))
        ∙ last_chars-append half (take half s ++ truncation_mark) (last_chars half s) length-back,
  )

  length-shortened : length (shortened half s) ≡ half + half + 21
  length-shortened = omega (
    arith,
    length-append (take half s) (truncation_mark ++ last_chars half s),
    length-append truncation_mark (last_chars half s),
    length-mark,
    length-front,
    length-back,
  )

-- What is quoted of an emission has at most 8021 characters, and it begins with the first 4000
-- characters of the emission and ends with the last 4000, or is all of it where that is shorter.
pub excerpt_lem :
    (s : Text)
    → (length (excerpt s) ≤ 8021)
      × (take 4000 (excerpt s) ≡ take 4000 s)
      × (last_chars 4000 (excerpt s) ≡ last_chars 4000 s)
unfolding excerpt
excerpt_lem s = elim (Bool-cases (ltb 8000 (length s))) [
  | inr f ↦ rw (if_false (shortened 4000 s) s f) (ground arith, refl, refl)
  | inl t ↦
      let long : 4000 + 4000 ≤ length s = ground arith in
      rw (if_true (shortened 4000 s) s t) (
        omega (arith, length-shortened 4000 s long),
        (shortened-keeps 4000 s long).0,
        (shortened-keeps 4000 s long).1,
      )
]
