-- ===== src/SuccessiveHalving/Rungs.antt =====
-- The schedule of the rungs: it is finite, and its fold budgets and survivor counts.
use native.Mathlib.Nat.{div-le_of_le-mul, lt-div-mul-add, div-mul-le_self, le-div_iff_mul-le}
use strategy_gpt.Prelude.{
  ℕ, zero, suc, ◌+◌, ◌-◌, ◌*◌, ◌≤◌, ◌<◌, max, min, ◌≡◌, refl, ap, ◌∙◌, some, List, [], ◌∷◌, length,
  get_last?, leb, Bool-cases, inl, inr, arith, All,
}
use strategy_gpt.SuccessiveHalving.{
  ceil_div, cons_some, budgets_from, rung_budgets, counts_after, rung_survivor_counts,
}

mul_growth : (b eta : ℕ) → 1 ≤ b → 2 ≤ eta → b + 1 ≤ b * eta
mul_growth b (suc (suc k)) h e = grind arith
mul_growth b (suc zero) h e = absurd (omega arith)
mul_growth b zero h e = absurd (omega arith)

cross_le : (c e : ℕ) → suc c + suc e - 1 ≤ suc e * suc c
cross_le c e = grind arith

pub ceil_div-le : (c eta : ℕ) → 1 ≤ c → 1 ≤ eta → ceil_div c eta ≤ c
ceil_div-le (suc c) (suc e) h g = div-le_of_le-mul (suc e) (cross_le c e)
ceil_div-le zero eta h g = absurd (omega arith)
ceil_div-le (suc c) zero h g = absurd (omega arith)

-- The budget of each rung: `eta` times the one before, up to all the folds.
pub Geometric : (b eta total : ℕ) → List ℕ → Type 0
Geometric b eta total [] = Unit
Geometric b eta total (x ∷ xs) = (x ≡ min b total) × Geometric (b * eta) eta total xs

get_last?-cons : (x : ℕ) (xs : List ℕ) → 1 ≤ length xs → get_last? (x ∷ xs) ≡ get_last? xs
get_last?-cons x [] h = absurd (omega arith)
get_last?-cons x (y ∷ ys) h = refl

-- A schedule of `total` folds: budgets between one and all folds, rung by rung `eta` times as many
-- up to all of them, and all of them in the last rung.
pub record IsSchedule (b eta total : ℕ) (budgets : List ℕ) : Type 0 where
  pub some_rung : 1 ≤ length budgets
  pub last : get_last? budgets ≡ some total
  pub growth : Geometric b eta total budgets
  pub in_range : All (λ x. (1 ≤ x) × (x ≤ total)) budgets

budgets_from-IsSchedule :
    (fuel b eta total : ℕ)
    → 1 ≤ b
    → 2 ≤ eta
    → 1 ≤ total
    → 1 ≤ fuel
    → total < fuel + b
    → (budgets : List ℕ) × (budgets_from fuel b eta total ≡ some budgets)
      × IsSchedule b eta total budgets
unfolding budgets_from Geometric
budgets_from-IsSchedule zero b eta total hb he ht hf enough = absurd (omega arith)
budgets_from-IsSchedule (suc fuel) b eta total hb he ht hf enough =
    elim (Bool-cases (leb total (min b total))) [
      | inl e ↦ (
        min b total ∷ [],
        rw e,
        record {
          some_rung = omega arith;
          last = ap some (ground arith);
          growth = (refl, tt);
          in_range = (ground arith, tt);
        },
      )
      | inr e ↦
          let grown = mul_growth b eta hb he in
          let below : b < total = ground arith in
          let (rest, made, s) =
            budgets_from-IsSchedule fuel (b * eta) eta total (omega (arith, grown)) he ht
              (omega arith) (omega (arith, grown)) in
          (
            min b total ∷ rest,
            rw e (ap (cons_some (min b total)) made),
            record {
              some_rung = omega arith;
              last = get_last?-cons (min b total) rest s.some_rung ∙ s.last;
              growth = (refl, s.growth);
              in_range = (omega arith, s.in_range);
            },
          )
    ]

-- With `eta` at least two and at least one fold, the loop that builds the schedule ends. It has at
-- least one rung; the first budget is the initial one or one fold, each next one `eta` times as
-- many, cut at the number of folds; all are between one and that number; and the last is that number.
pub rung_budgets-IsSchedule :
    (initial_folds eta total : ℕ)
    → 2 ≤ eta
    → 1 ≤ total
    → (budgets : List ℕ) × (rung_budgets initial_folds eta total ≡ some budgets)
      × IsSchedule (max 1 initial_folds) eta total budgets
unfolding rung_budgets
rung_budgets-IsSchedule initial_folds eta total he ht =
    budgets_from-IsSchedule (suc total) (max 1 initial_folds) eta total (omega arith) he ht
      (omega arith) (omega arith)

-- The survivor counts from `last` on: of each `eta` candidates, and of a rest of them, a rung keeps
-- one. So `keep` is the least number of which `eta` times as many are the candidates or more.
pub IsHalving : ℕ → ℕ → List ℕ → Type 0
IsHalving last eta [] = Unit
IsHalving last eta (keep ∷ cs) =
    (last ≤ keep * eta) × (keep * eta < last + eta) × IsHalving keep eta cs

-- The ceiling of a quotient.
ceil_div-bounds :
    (last eta : ℕ)
    → 1 ≤ last
    → 1 ≤ eta
    → (1 ≤ ceil_div last eta)
      × (last ≤ ceil_div last eta * eta)
      × (ceil_div last eta * eta < last + eta)
ceil_div-bounds last eta hl he =
    let above = lt-div-mul-add {a = last + eta - 1} {b = eta} (omega (arith, he)) in
    let below = div-mul-le_self (last + eta - 1) eta in
    (
      (le-div_iff_mul-le {k = eta} {x = 1} {y = last + eta - 1} (omega (arith, he))).1
          (omega (arith, hl)),
      omega (arith, above),
      omega (arith, below, hl, he),
    )

max_one : (k : ℕ) → 1 ≤ k → max 1 k ≡ k
max_one k h = omega (arith, h)

counts_after-IsHalving :
    (last eta left : ℕ) → 1 ≤ last → 1 ≤ eta → IsHalving last eta (counts_after last eta left)
unfolding counts_after IsHalving
counts_after-IsHalving last eta zero hl he = tt
counts_after-IsHalving last eta (suc left) hl he =
    let (some_kept, above, below) = ceil_div-bounds last eta hl he in
    rw (max_one (ceil_div last eta) some_kept)
      (above, below, counts_after-IsHalving (ceil_div last eta) eta left some_kept he)

length-counts_after : (last eta left : ℕ) → length (counts_after last eta left) ≡ left
unfolding counts_after
length-counts_after last eta zero = refl
length-counts_after last eta (suc left) =
    ap suc (length-counts_after (max 1 (ceil_div last eta)) eta left)

-- There is one survivor count for each rung. The first is the number of initial candidates, and of
-- each `eta` candidates of a rung, and of a rest of them, the next one keeps one.
pub rung_survivor_counts-IsHalving :
    (initial_candidates eta n_rungs : ℕ)
    → 1 ≤ initial_candidates
    → 1 ≤ eta
    → 1 ≤ n_rungs
    → (length (rung_survivor_counts initial_candidates eta n_rungs) ≡ n_rungs)
      × (rest : List ℕ) × (rung_survivor_counts initial_candidates eta n_rungs
          ≡ initial_candidates ∷ rest)
      × IsHalving initial_candidates eta rest
unfolding rung_survivor_counts
rung_survivor_counts-IsHalving n eta rungs hn he hr = (
  omega (arith, length-counts_after n eta (rungs - 1)),
  counts_after n eta (rungs - 1),
  refl,
  counts_after-IsHalving n eta (rungs - 1) hn he,
)
