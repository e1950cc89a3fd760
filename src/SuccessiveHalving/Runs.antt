-- ===== src/SuccessiveHalving/Runs.antt =====
-- The cascade runs as many trials as are announced.
use strategy_gpt.Prelude.{
  ℕ, zero, suc, ◌+◌, ◌*◌, ◌≤◌, max, min, ◌≡◌, refl, ap, ◌∙◌, List, [], ◌∷◌, ◌++◌, length, take,
  drop, length-take, length-map, length-append, arith, some,
}
use strategy_gpt.Prelude.Floats.{Float}
use strategy_gpt.Prelude.Result.{ok}
use strategy_gpt.Prelude.Sorting.{sorted_desc, length-sorted_desc}
use strategy_gpt.SuccessiveHalving.{
  add_cross, SuccessiveHalvingKnobs, planned_run_count, planned_of, search_with, search_global,
  rung_budgets, rung_survivor_counts, Outcome, TrialRow, ceil_div, counts_after, planned_runs,
  runs_of, runs_for, rows_of, scored, promoted, rung, cascade, after_rung,
}
use strategy_gpt.SuccessiveHalving.Rungs.{rung_budgets-IsSchedule, ceil_div-le}

rung_survivor_counts-cons :
    (count eta b : ℕ) (budgets : List ℕ)
    → rung_survivor_counts count eta (length (b ∷ budgets))
      ≡ count ∷ counts_after count eta (length budgets)
unfolding rung_survivor_counts
rung_survivor_counts-cons count eta b budgets =
    ap (λ k. count ∷ counts_after count eta k) (omega arith)

module _ {F P W : Type 0} (f : Float F)
    (evaluate_batch : List (P × ℕ) → W → List (Outcome F) × W) where
  length-runs_of :
      (params : P) (left fold : ℕ) → length (runs_of f evaluate_batch params left fold) ≡ left
  unfolding runs_of
  length-runs_of params zero fold = refl
  length-runs_of params (suc left) fold = ap suc (length-runs_of params left (fold + 1))

  length-runs_for :
      (survivors : List P) (budget : ℕ)
      → length (runs_for f evaluate_batch survivors budget) ≡ length survivors * budget
  unfolding runs_for
  length-runs_for [] budget = omega arith
  length-runs_for (p ∷ survivors) budget = grind (
    arith,
    length-append (runs_of f evaluate_batch p budget 0)
        (runs_for f evaluate_batch survivors budget),
    length-runs_of p budget 0,
    length-runs_for survivors budget,
  )

  rows_of-ok :
      (r : ℕ) (runs : List (P × ℕ)) (outcomes : List (Outcome F))
      → length outcomes ≡ length runs
      → (rows : List (TrialRow F P)) × (rows_of f evaluate_batch r runs outcomes ≡ ok rows)
        × (length rows ≡ length runs)
  unfolding rows_of
  rows_of-ok r [] [] h = ([], refl, refl)
  rows_of-ok r [] (o ∷ outcomes) h = absurd (omega arith)
  rows_of-ok r (run ∷ runs) [] h = absurd (omega arith)
  rows_of-ok r (run ∷ runs) (o ∷ outcomes) h =
      let (rows, made, count) = rows_of-ok r runs outcomes (omega arith) in
      (
        record { round = r; fold_index = run.1; params = run.0; outcome = o } ∷ rows,
        rw (made, rows_of),
        ap suc count,
      )

  length-scored :
      (survivors : List P) (budget : ℕ) (rows : List (TrialRow F P))
      → length (scored f evaluate_batch survivors budget rows) ≡ length survivors
  unfolding scored
  length-scored [] budget rows = refl
  length-scored (p ∷ survivors) budget rows =
      ap suc (length-scored survivors budget (drop budget rows))

  length-promoted :
      (keep : ℕ) (scores : List (P × F))
      → length (promoted f evaluate_batch keep scores) ≡ min keep (length scores)
  length-promoted keep scores =
      length-map (take keep (sorted_desc _ scores)) _
      ∙ length-take keep (sorted_desc _ scores)
      ∙ ap (min keep) (length-sorted_desc _ scores)

  module _
      (answers : (runs : List (P × ℕ)) (w : W)
        → length (evaluate_batch runs w).0 ≡ length runs) where
    rung-ok :
        (r budget keep : ℕ) (kept : List P) (w : W)
        → (rows : List (TrialRow F P)) × (next : List P) × (w' : W) × (rung f evaluate_batch r
              budget keep kept w
            ≡ (ok (rows, next), w'))
          × (length rows ≡ length kept * budget)
          × (length next ≡ min keep (length kept))
    unfolding rung
    rung-ok r budget keep kept w =
        let runs = runs_for f evaluate_batch kept budget in
        let out = evaluate_batch runs w in
        let (rows, made, count) = rows_of-ok r runs out.0 (answers runs w) in
        let scores = scored f evaluate_batch kept budget rows in
        (
          rows,
          promoted f evaluate_batch keep scores,
          out.1,
          rw (made, rung),
          count ∙ length-runs_for kept budget,
          length-promoted keep scores ∙ ap (min keep) (length-scored kept budget rows),
        )

    -- The rest of a cascade, from the rung with `count` survivors on.
    abbrev Runs : (eta r count budget : ℕ) → List ℕ → List (TrialRow F P) → List P → W → Type 0
    Runs eta r count budget budgets rows survivors w =
        (rows' : List (TrialRow F P)) × (last : List P) × (w' : W) × (n : ℕ) × (cascade f
            evaluate_batch eta r (budget ∷ budgets)
            (count ∷ counts_after count eta (length budgets)) rows survivors w
          ≡ (ok (rows', last), w'))
        × (planned_runs (count ∷ counts_after count eta (length budgets)) (budget ∷ budgets) ≡ ok n)
        × (length rows' ≡ length rows + n)
        × (1 ≤ length last)

    cascade-Runs :
        (eta r count budget : ℕ) (budgets : List ℕ) (rows : List (TrialRow F P))
        (survivors : List P) (w : W)
        → 1 ≤ eta
        → 1 ≤ count
        → length survivors ≡ count
        → Runs eta r count budget budgets rows survivors w
    unfolding cascade counts_after planned_runs
    cascade-Runs eta r count budget [] rows survivors w he hc hs =
        let kept = take count survivors in
        let whole : length kept ≡ count = omega (arith, length-take count survivors, hs) in
        let (found, next, w', made, size, left) =
          rung-ok r budget (max 1 (ceil_div (length kept) eta)) kept w in
        (
          rows ++ found,
          next,
          w',
          count * budget + 0,
          ap (after_rung f evaluate_batch (cascade f evaluate_batch eta (r + 1) [] []) rows) made,
          refl,
          grind (arith, length-append rows found, size, whole),
          omega (arith, left, whole, hc),
        )
    cascade-Runs eta r count budget (b ∷ budgets) rows survivors w he hc hs =
        let kept = take count survivors in
        let whole : length kept ≡ count = omega (arith, length-take count survivors, hs) in
        let keep = max 1 (ceil_div count eta) in
        let (found, next, w₁, made, size, left) = rung-ok r budget keep kept w in
        let (rows', last, w', n, run, planned, total, kept_some) =
          cascade-Runs eta (r + 1) keep b budgets (rows ++ found) next w₁ he (omega arith)
            (omega (arith, left, whole, ceil_div-le count eta hc he)) in
        let counts = keep ∷ counts_after keep eta (length budgets) in
        (
          rows',
          last,
          w',
          count * budget + n,
          ap
                (after_rung f evaluate_batch
                  (cascade f evaluate_batch eta (r + 1) (b ∷ budgets) counts) rows)
                made
              ∙ run,
          rw planned refl,
          grind (arith, length-append rows found, size, whole, total),
          kept_some,
        )

    -- What a search of `total` folds leaves.
    abbrev Searched : SuccessiveHalvingKnobs → ℕ → List P → W → Type 0
    Searched knobs total initial w =
        (rows : List (TrialRow F P)) × (last : List P) × (w' : W) × (planned : ℕ) × (search_global f
            evaluate_batch knobs total initial w
          ≡ some (ok (rows, last), w'))
        × (planned_run_count knobs total ≡ some (ok planned))
        × (planned ≡ length rows + total * total)
        × (1 ≤ length last)

    searched :
        (knobs : SuccessiveHalvingKnobs) (m : ℕ) (initial : List P) (w : W) (budgets : List ℕ)
        → rung_budgets knobs.initial_folds knobs.eta (suc m) ≡ some budgets
        → 1 ≤ length budgets
        → 2 ≤ knobs.eta
        → 1 ≤ knobs.initial_candidates
        → length initial ≡ knobs.initial_candidates
        → Searched knobs (suc m) initial w
    unfolding search_global planned_run_count rung_survivor_counts
    searched knobs m initial w [] made some_rung he hc hs = absurd (omega arith)
    searched knobs m initial w (b ∷ budgets) made some_rung he hc hs =
        let (rows, last, w', n, run, planned, total, kept) =
          cascade-Runs knobs.eta 0 knobs.initial_candidates b budgets [] initial w (omega arith) hc
            hs in
        (
          rows,
          last,
          w',
          n + suc m * suc m,
          ap (search_with f evaluate_batch knobs initial w) made
              ∙ ap
                  (λ counts.
                    some (cascade f evaluate_batch knobs.eta 0 (b ∷ budgets) counts [] initial w))
                  (rung_survivor_counts-cons knobs.initial_candidates knobs.eta b budgets)
              ∙ ap some run,
          ap (planned_of knobs (suc m)) made
              ∙ ap (λ counts. some (add_cross (suc m) (planned_runs counts (b ∷ budgets))))
                  (rung_survivor_counts-cons knobs.initial_candidates knobs.eta b budgets)
              ∙ ap (λ p. some (add_cross (suc m) p)) planned,
          omega (arith, total),
          kept,
        )

    -- Where the engine answers each run, `eta` is at least two, there is a fold and the searcher has
    -- made the announced number of initial candidates, at least one, the search ends with at least one
    -- survivor, and has logged as many trials as `planned_run_count` announces, less the runs of the
    -- cross-validation after it.
    pub search_global_lem :
        (knobs : SuccessiveHalvingKnobs) (total : ℕ) (initial : List P) (w : W)
        → 2 ≤ knobs.eta
        → 1 ≤ total
        → 1 ≤ knobs.initial_candidates
        → length initial ≡ knobs.initial_candidates
        → (rows : List (TrialRow F P)) × (last : List P) × (w' : W) × (planned : ℕ) × (search_global
              f evaluate_batch knobs total initial w
            ≡ some (ok (rows, last), w'))
          × (planned_run_count knobs total ≡ some (ok planned))
          × (planned ≡ length rows + total * total)
          × (1 ≤ length last)
    search_global_lem knobs zero initial w he ht hc hs = absurd (omega arith)
    search_global_lem knobs (suc m) initial w he ht hc hs =
        let (budgets, made, s) =
          rung_budgets-IsSchedule knobs.initial_folds knobs.eta (suc m) he ht in
        searched knobs m initial w budgets made s.some_rung he hc hs
