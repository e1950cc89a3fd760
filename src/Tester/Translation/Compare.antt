-- ===== src/Tester/Translation/Compare.antt =====
-- The verdict on a criterion, and the slices of a walk-forward run.
use strategy_gpt.Prelude.Result.{ok, raise, value_error}
use strategy_gpt.Prelude.{
  Bool, ℕ, String, List, length, ◌+◌, ◌≡◌, suc, ◌≤◌, not, ◌∷◌, ap, false, zero, [], refl, some,
  subst, arith, Bool-cases, ◌∙◌, if◌then◌else◌, true, inl, inr, ltb, ◌==◌, ◌-◌, sym,
}
use strategy_gpt.Prelude.Floats.{Float, IsOrdered}
use strategy_gpt.Tester.Translation.{
  ComparisonOp, VerdictKind, lt, failed, le, passed, walk_forward_slices, gt, compare_with,
  FalsificationCriterion, slices_from, ge, Verdict, ne, judged, eq,
}

-- The operator that holds just where the other does not.
abbrev pub opposite : ComparisonOp → ComparisonOp
opposite ge = lt
opposite gt = le
opposite le = gt
opposite lt = ge
opposite eq = ne
opposite ne = eq

abbrev pub other_kind : VerdictKind → VerdictKind
other_kind passed = failed
other_kind failed = passed

abbrev kind_of : Bool → VerdictKind
kind_of passes = if passes then passed else failed

kind_of-not : (b : Bool) → kind_of (not b) ≡ other_kind (kind_of b)
kind_of-not true = refl
kind_of-not false = refl

module _ {F : Type 0} (f : Float F) (order : IsOrdered f) (float_of : String → F) where
  lt_of_le : (x y : F) → f.lt x y ≡ not (f.le y x)
  lt_of_le x y = elim (Bool-cases (f.le y x)) [
    | inl e ↦ rw e (order.le_not_lt y x e)
    | inr e ↦ rw e (order.not_le_lt y x e)
  ]

  le_of_lt : (x y : F) → f.le x y ≡ not (f.lt y x)
  le_of_lt x y = elim (Bool-cases (f.lt y x)) [
    | inl e ↦ rw e (order.lt_not_le y x e)
    | inr e ↦ rw e (order.not_lt_le y x e)
  ]

  not-not : (b : Bool) → b ≡ not (not b)
  not-not true = refl
  not-not false = refl

  compare_with-opposite :
      (op : ComparisonOp) (x y : F)
      → compare_with f float_of (opposite op) x y ≡ not (compare_with f float_of op x y)
  compare_with-opposite ge x y = lt_of_le x y
  compare_with-opposite gt x y = le_of_lt x y
  compare_with-opposite le x y = lt_of_le y x
  compare_with-opposite lt x y = le_of_lt y x
  compare_with-opposite eq x y = refl
  compare_with-opposite ne x y = not-not (f.eq x y)

  -- Where floats are totally ordered and the metric is there, a criterion gets a verdict, and the
  -- criterion with the opposite operator gets the opposite one.
  pub judged-opposite :
      (c : FalsificationCriterion F) (observed : F)
      → (v : Verdict F) × (w : Verdict F) × (judged f float_of c (some observed) ≡ ok v)
        × (judged f float_of (record c { op = opposite c.op }) (some observed) ≡ ok w)
        × (w.kind ≡ other_kind v.kind)
  judged-opposite c observed = (
    record {
      kind = kind_of (compare_with f float_of c.op observed c.threshold);
      criterion = c;
      observed = observed;
    },
    record {
      kind = kind_of (compare_with f float_of (opposite c.op) observed c.threshold);
      criterion = record c { op = opposite c.op };
      observed = observed;
    },
    refl,
    refl,
    ap kind_of (compare_with-opposite c.op observed c.threshold) ∙ kind_of-not _,
  )

module _ {T : Type 0} (is_le : T → T → Bool) (at : T → T → ℕ → ℕ → T) where
  -- Each slice starts where the one before it ends; the last ends at `end`.
  abbrev pub Contiguous : T → T → List (T × T) → Type 0
  Contiguous from end [] = from ≡ end
  Contiguous from end (s ∷ slices) = (s.0 ≡ from) × Contiguous s.1 end slices

  inner_end :
      (start end : T) (folds i left : ℕ)
      → i + suc (suc left) ≡ folds
      → (if i == folds - 1 then end else at start end folds (i + 1)) ≡ at start end folds (i + 1)
  inner_end start end folds i left h = ground (arith, h)

  forward_ok :
      (folds : ℕ) (slices : List (T × T)) (backward : Bool)
      → 1 ≤ folds
      → backward ≡ false
      → (if ltb folds 1
          then raise value_error
          else if backward
          then raise value_error
          else ok slices)
        ≡ ok slices
  forward_ok folds slices backward h e = ground (arith, h, e)

  slices_from-Contiguous :
      (start end : T) (folds i left : ℕ)
      → i + suc left ≡ folds
      → Contiguous (at start end folds i) end (slices_from is_le at start end folds i (suc left))
  slices_from-Contiguous start end folds i zero h = (refl, ground (arith, h))
  slices_from-Contiguous start end folds i (suc left) h = (
    refl,
    subst (λ from. Contiguous from end (slices_from is_le at start end folds (i + 1) (suc left)))
        (sym (inner_end start end folds i left h))
        (slices_from-Contiguous start end folds (i + 1) left (omega (arith, h))),
  )

  length-slices_from :
      (start end : T) (folds i left : ℕ)
      → length (slices_from is_le at start end folds i left) ≡ left
  length-slices_from start end folds i zero = refl
  length-slices_from start end folds i (suc left) =
      ap suc (length-slices_from start end folds (i + 1) left)

  -- Where a range that goes forward is split into one or more folds, there are as many slices,
  -- which cover it without a gap or an overlap.
  pub walk_forward_slices_lem :
      (start end : T) (folds : ℕ)
      → 1 ≤ folds
      → is_le end start ≡ false
      → at start end folds 0 ≡ start
      → (slices : List (T × T)) × (walk_forward_slices is_le at start end folds ≡ ok slices)
        × (length slices ≡ folds)
        × Contiguous start end slices
  unfolding walk_forward_slices
  walk_forward_slices_lem start end (suc left) h forward zero_at = (
    slices_from is_le at start end (suc left) 0 (suc left),
    forward_ok (suc left) _ (is_le end start) h forward,
    length-slices_from start end (suc left) 0 (suc left),
    subst (λ from. Contiguous from end (slices_from is_le at start end (suc left) 0 (suc left)))
        zero_at (slices_from-Contiguous start end (suc left) 0 left (omega arith)),
  )
  walk_forward_slices_lem start end zero h forward zero_at = absurd (omega arith)
