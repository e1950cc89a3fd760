-- ===== src/Selection/Cscv/Splits.antt =====
-- The enumerated splits: as many as there are combinations, and each of them two halves that
-- together are all folds.
use strategy_gpt.Prelude.Result.{ok, raise, value_error}
use strategy_gpt.Selection.Cscv.{combinations, range_from, enumerate_splits, comb, is_in, rest_of}
use strategy_gpt.Prelude.{
  List, ℕ, ◌∷◌, length, All, ◌<◌, suc, ◌%◌, ◌≡◌, [], map, subst, ◌++◌, ◌+◌, arith, false, true, ap,
  sym, length-append, ==_iff, All-mono, zero, ◌/◌, refl, length-map, ◌⊎◌, ◌≢◌, Bool-cases, ◌==◌,
  inl, ◌∙◌, inr, if_true, not,
}
use mathlib.Core.List.Perm
use mathlib.Core.List.{Perm, perm_middle}

length-combinations : (k : ℕ) (xs : List ℕ) → length (combinations k xs) ≡ comb (length xs) k
unfolding combinations comb
length-combinations zero [] = refl
length-combinations zero (x ∷ xs) = refl
length-combinations (suc k) [] = refl
length-combinations (suc k) (x ∷ xs) = grind (
  arith,
  length-append (map (λ (c : List ℕ). x ∷ c) (combinations k xs)) (combinations (suc k) xs),
  length-map (combinations k xs) (λ (c : List ℕ). x ∷ c),
  length-combinations k xs,
  length-combinations (suc k) xs,
)

abbrev Distinct : List ℕ → Type 0
Distinct [] = Unit
Distinct (x ∷ xs) = (is_in x xs ≡ false) × Distinct xs

-- A choice of `k` of the elements, which makes up all of them with the rest.
abbrev pub IsChoice : ℕ → List ℕ → List ℕ → Type 0
IsChoice k xs c = (length c ≡ k) × Perm (c ++ rest_of xs c) xs × All (λ i. is_in i xs ≡ true) c

rest_of_fresh : (x : ℕ) (xs c : List ℕ) → is_in x xs ≡ false → rest_of xs (x ∷ c) ≡ rest_of xs c
rest_of_fresh x [] c h = refl
rest_of_fresh x (y ∷ ys) c h = ground (arith, h, rest_of_fresh x ys c)

rest_of_self :
    (x : ℕ) (xs c : List ℕ) → is_in x xs ≡ false → rest_of (x ∷ xs) (x ∷ c) ≡ rest_of xs c
rest_of_self x xs c h = ground (arith, rest_of_fresh x xs c h)

rest_of_none : (xs : List ℕ) → rest_of xs [] ≡ xs
rest_of_none [] = refl
rest_of_none (x ∷ xs) = ap (λ l. x ∷ l) (rest_of_none xs)

is_in_apart :
    (x : ℕ) (xs c : List ℕ)
    → is_in x xs ≡ false
    → All (λ i. is_in i xs ≡ true) c
    → is_in x c ≡ false
is_in_apart x xs [] h s = refl
is_in_apart x xs (i ∷ c) h s =
    ground (arith, h, s.0, is_in_apart x xs c h s.1, (==_iff i x).0, ap (λ j. is_in j xs))

chosen :
    (k x : ℕ) (xs c : List ℕ)
    → is_in x xs ≡ false
    → IsChoice k xs c
    → IsChoice (suc k) (x ∷ xs) (x ∷ c)
chosen k x xs c fresh h = (
  ap suc h.0,
  subst (λ l. Perm (x ∷ c ++ l) (x ∷ xs)) (sym (rest_of_self x xs c fresh)) (Perm.cons x h.1),
  (ground arith, All-mono (λ i p. ground (arith, p)) c h.2),
)

skipped : (k x : ℕ) (xs c : List ℕ) → is_in x xs ≡ false → IsChoice k xs c → IsChoice k (x ∷ xs) c
skipped k x xs c fresh h = (
  h.0,
  subst (λ l. Perm (c ++ l) (x ∷ xs)) (sym (if_true _ _ (ap not (is_in_apart x xs c fresh h.2))))
      (Perm.trans (perm_middle c (rest_of xs c)) (Perm.cons x h.1)),
  All-mono (λ i p. ground (arith, p)) c h.2,
)

map-All :
    {A B : Type 0} (P : B → Type 0) (g : A → B) (xs : List A)
    → All (λ x. P (g x)) xs
    → All P (map g xs)
map-All P g [] h = tt
map-All P g (x ∷ xs) h = (h.0, map-All P g xs h.1)

append-All : {A : Type 0} (P : A → Type 0) (xs ys : List A) → All P xs → All P ys → All P (xs ++ ys)
append-All P [] ys h k = k
append-All P (x ∷ xs) ys h k = (h.0, append-All P xs ys h.1 k)

combinations-IsChoice :
    (k : ℕ) (xs : List ℕ) → Distinct xs → All (IsChoice k xs) (combinations k xs)
unfolding combinations
combinations-IsChoice zero xs d =
    ((refl, subst (λ l. Perm l xs) (sym (rest_of_none xs)) (Perm.refl xs), tt), tt)
combinations-IsChoice (suc k) [] d = tt
combinations-IsChoice (suc k) (x ∷ xs) d =
    append-All (IsChoice (suc k) (x ∷ xs)) (map (λ (c : List ℕ). x ∷ c) (combinations k xs))
      (combinations (suc k) xs)
      (map-All (IsChoice (suc k) (x ∷ xs)) (λ c. x ∷ c) (combinations k xs)
        (All-mono (λ c. chosen k x xs c d.0) (combinations k xs) (combinations-IsChoice k xs d.1)))
      (All-mono (λ c. skipped (suc k) x xs c d.0) (combinations (suc k) xs)
        (combinations-IsChoice (suc k) xs d.1))

range_from_fresh : (x i n : ℕ) → x < i → is_in x (range_from i n) ≡ false
unfolding range_from
range_from_fresh x i zero h = refl
range_from_fresh x i (suc n) h = ground (arith, h, range_from_fresh x (i + 1) n (omega (arith, h)))

range_from-Distinct : (i n : ℕ) → Distinct (range_from i n)
unfolding range_from
range_from-Distinct i zero = tt
range_from-Distinct i (suc n) =
    (range_from_fresh i (i + 1) n (omega arith), range_from-Distinct (i + 1) n)

length-range_from : (i n : ℕ) → length (range_from i n) ≡ n
unfolding range_from
length-range_from i zero = refl
length-range_from i (suc n) = ap suc (length-range_from (i + 1) n)

-- For an even number of folds there are as many splits as ways to choose half of the folds; each
-- has half of them on its first side, and the two sides together are all folds, each once. For an
-- odd number the call raises.
pub enumerate_splits_lem :
    (s : ℕ)
    → ((splits : List (List ℕ × List ℕ)) × (s % 2 ≡ 0)
        × (enumerate_splits s ≡ ok splits)
        × (length splits ≡ comb s (s / 2))
        × All
            (λ (p : List ℕ × List ℕ). (length p.0 ≡ s / 2) × Perm (p.0 ++ p.1) (range_from 0 s))
            splits)
      ⊎ ((s % 2 ≢ 0) × (enumerate_splits s ≡ raise value_error))
unfolding enumerate_splits
enumerate_splits_lem s = elim (Bool-cases (s % 2 == 0)) [
  | inl e ↦ inl (
    map (λ (c : List ℕ). (c, rest_of (range_from 0 s) c)) (combinations (s / 2) (range_from 0 s)),
    (==_iff _ _).0 e,
    rw e refl,
    length-map (combinations (s / 2) (range_from 0 s)) _
        ∙ length-combinations (s / 2) (range_from 0 s)
        ∙ ap (λ n. comb n (s / 2)) (length-range_from 0 s),
    map-All _ (λ (c : List ℕ). (c, rest_of (range_from 0 s) c))
        (combinations (s / 2) (range_from 0 s))
        (All-mono (λ c (h : IsChoice (s / 2) (range_from 0 s) c). (h.0, h.1))
          (combinations (s / 2) (range_from 0 s))
          (combinations-IsChoice (s / 2) (range_from 0 s) (range_from-Distinct 0 s))),
  )
  | inr e ↦ inr ((λ h. ground (arith, e, h)), rw e refl)
]
