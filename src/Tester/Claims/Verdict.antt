-- ===== src/Tester/Claims/Verdict.antt =====
-- The verdict on a claim, against a direct reading of the guards and of the primary claim.
use strategy_gpt.Prelude.Result.{ok, raise, value_error, ◌>>=◌}
use strategy_gpt.Prelude.Dict.{Dict, lookup}
use strategy_gpt.Tester.Claims.{
  is_down, evaluate_guard, is_up, Classification, FalsificationGuardVerdict, accepted, held_in,
  value_or_zero, falsified, regression, evaluate_guards, classify_falsification, delta_guard,
  guard_verdict, FalsificationCheck, any_guard_failed, factor_guard, classification_of, check_of,
}
use strategy_gpt.Prelude.Floats.{Float, of_ℕ}
use strategy_gpt.Prelude.{
  String, Bool, ◌≡◌, ◌&&◌, some, List, ◌||◌, true, false, if◌then◌else◌, Bool-cases, ◌∷◌, inl, none,
  inr, arith, [], refl, Option, All, length, ap, not, ◌∙◌, suc,
}
use text.Mathlib.Text.{◌==◌}
use text.Mathlib.TextEquality.{eq_iff}
use strategy_gpt.PerStrategyLedger.{GuardConstraint, FalsificationPrimary}

-- No direction is both up and down.
up_of_down : (d : String) → is_down d ≡ true → is_up d ≡ false
up_of_down d h = elim (Bool-cases (d == "lt")) [
  | inl e ↦ rw ((eq_iff d "lt").0 e) refl
  | inr e ↦ elim (Bool-cases (d == "lte")) [
    | inl g ↦ rw ((eq_iff d "lte").0 g) refl
    | inr g ↦ absurd (ground (arith, h, e, g))
  ]
]

down_of_up : (d : String) → is_up d ≡ true → is_down d ≡ false
down_of_up d h = elim (Bool-cases (is_down d)) [
  | inl e ↦ absurd (ground (arith, h, up_of_down d e))
  | inr e ↦ e
]

not_and : (a b : Bool) → (not a || not b) ≡ not (a && b)
not_and true b = refl
not_and false b = refl

side_cases :
    (down up x y : Bool)
    → (down ≡ true → up ≡ false)
    → (down || up) ≡ true
    → (if down then ok x else if up then ok y else raise value_error)
      ≡ ok ((down && x) || (up && y))
side_cases true true x y apart h = absurd (ground (arith, apart refl))
side_cases true false x y apart h = ground arith
side_cases false true x y apart h = refl
side_cases false false x y apart h = absurd (cc)

module _ {F : Type 0} (f : Float F) where
  -- `x` is on the side of `limit` that the direction names.
  abbrev pub on_side : String → F → F → Bool
  on_side direction x limit =
      (is_down direction && f.le x limit) || (is_up direction && f.le limit x)

  -- A guard's inequality: on the change against the baseline, or on the candidate's value.
  abbrev pub limit_holds : String → Option F → Option F → F → F → Bool
  limit_holds direction (some delta) factor c b = on_side direction (f.sub c b) delta
  limit_holds direction none (some factor) c b = on_side direction c (f.mul factor b)
  limit_holds direction none none c b = false

  abbrev pub guard_holds : GuardConstraint F → F → F → Bool
  guard_holds g = limit_holds g.direction g.delta_vs_baseline g.factor

  abbrev pub all_hold : Dict F → Dict F → List (GuardConstraint F) → Bool
  all_hold candidate baseline [] = true
  all_hold candidate baseline (g ∷ gs) =
      guard_holds g (value_or_zero f (lookup g.metric candidate))
        (value_or_zero f (lookup g.metric baseline))
      && all_hold candidate baseline gs

  abbrev pub primary_holds : FalsificationPrimary F → F → Bool
  primary_holds p observed =
      (is_up p.direction && f.le p.delta_vs_baseline observed)
      || (is_down p.direction && f.le observed (f.sub (of_ℕ f 0) (f.absolute p.delta_vs_baseline)))

  abbrev pub verdict : Bool → Bool → Classification
  verdict holds met = if holds then if met then accepted else falsified else regression

  -- A guard can be evaluated: its direction is known, and it has a limit.
  abbrev has_limit : Option F → Option F → Bool
  has_limit (some delta) factor = true
  has_limit none (some factor) = true
  has_limit none none = false

  abbrev pub IsGuard : GuardConstraint F → Type 0
  IsGuard g =
      ((is_down g.direction || is_up g.direction) ≡ true)
      × (has_limit g.delta_vs_baseline g.factor ≡ true)

  held_in-on_side :
      (d : String) (x limit : F)
      → (is_down d || is_up d) ≡ true
      → held_in f d x limit ≡ ok (on_side d x limit)
  held_in-on_side d x limit h = side_cases (is_down d) (is_up d) _ _ (up_of_down d) h

  delta_guard-ok :
      (g : GuardConstraint F) (delta factor : Option F) (c b : F)
      → g.factor ≡ factor
      → (is_down g.direction || is_up g.direction) ≡ true
      → has_limit delta factor ≡ true
      → (v : FalsificationGuardVerdict F) × (delta_guard f g delta c b ≡ ok v)
        × (v.held ≡ limit_holds g.direction delta factor c b)
  delta_guard-ok g (some delta) factor c b e h k = (
    guard_verdict f g c b delta (on_side g.direction (f.sub c b) delta),
    ap (λ x. x >>= λ held. ok (guard_verdict f g c b delta held))
        (held_in-on_side g.direction (f.sub c b) delta h),
    refl,
  )
  delta_guard-ok g none (some factor) c b e h k = (
    guard_verdict f g c b factor (on_side g.direction c (f.mul factor b)),
    ap (λ o. factor_guard f g o c b) e
        ∙ ap (λ x. x >>= λ held. ok (guard_verdict f g c b factor held))
            (held_in-on_side g.direction c (f.mul factor b) h),
    refl,
  )
  delta_guard-ok g none none c b e h k = absurd (cc)

  verdict_of_not : (holds met : Bool) → classification_of f (not holds) met ≡ verdict holds met
  verdict_of_not true true = refl
  verdict_of_not true false = refl
  verdict_of_not false met = refl

  evaluate_guards-ok :
      (candidate baseline : Dict F) (gs : List (GuardConstraint F))
      → All IsGuard gs
      → (vs : List (FalsificationGuardVerdict F)) × (evaluate_guards f candidate baseline gs
          ≡ ok vs)
        × (length vs ≡ length gs)
        × (any_guard_failed f vs ≡ not (all_hold candidate baseline gs))
  unfolding evaluate_guards evaluate_guard
  evaluate_guards-ok candidate baseline [] h = ([], refl, refl, refl)
  evaluate_guards-ok candidate baseline (g ∷ gs) h =
      let c = value_or_zero f (lookup g.metric candidate) in
      let b = value_or_zero f (lookup g.metric baseline) in
      let (v, made, held) = delta_guard-ok g g.delta_vs_baseline g.factor c b refl h.0.0 h.0.1 in
      let (vs, rest, count, failed) = evaluate_guards-ok candidate baseline gs h.1 in
      (
        v ∷ vs,
        ap (λ x. x >>= λ u. evaluate_guards f candidate baseline gs >>= λ us. ok (u ∷ us)) made
            ∙ ap (λ x. x >>= λ us. ok (v ∷ us)) rest,
        ap suc count,
        rw (held, failed) (not_and _ _),
      )

  -- Where every guard has a limit and all directions are known, the claim gets a verdict, with one
  -- entry per guard: a regression if some guard's inequality fails, and else accepted or falsified
  -- as the primary claim holds or not.
  pub classify_falsification_lem :
      (candidate baseline : Dict F) (guards : List (GuardConstraint F))
      (primary : FalsificationPrimary F) (observed : F)
      → All IsGuard guards
      → (is_down primary.direction || is_up primary.direction) ≡ true
      → (check : FalsificationCheck F) × ((evaluate_guards f candidate baseline guards
            >>= classify_falsification f primary observed)
          ≡ ok check)
        × (length check.guard_verdicts ≡ length guards)
        × (check.classification
            ≡ verdict (all_hold candidate baseline guards) (primary_holds primary observed))
  unfolding classify_falsification
  classify_falsification_lem candidate baseline guards primary observed h k =
      let (vs, made, count, failed) = evaluate_guards-ok candidate baseline guards h in
      let met = primary_holds primary observed in
      (
        check_of f primary observed vs met,
        ap (λ x. x >>= classify_falsification f primary observed) made
            ∙ ap (λ x. x >>= λ m. ok (check_of f primary observed vs m))
                (side_cases (is_up primary.direction) (is_down primary.direction) _ _
                  (down_of_up primary.direction) (ground (arith, k))),
        count,
        ap (λ g. classification_of f g met) failed
            ∙ verdict_of_not (all_hold candidate baseline guards) met,
      )
