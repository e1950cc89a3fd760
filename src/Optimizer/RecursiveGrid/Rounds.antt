-- ===== src/Optimizer/RecursiveGrid/Rounds.antt =====
-- The driver, asked and answered round by round, makes the trials that `search` makes.
use strategy_gpt.Prelude.Floats.{Float}
use strategy_gpt.Prelude.Int.{ℤ, pos, ◌+ℤ◌, int_laws}
use strategy_gpt.Prelude.Result.{value_error, Result, ok, raise, ◌>>=◌}
use strategy_gpt.Prelude.{
  ℕ, Bool, true, false, List, [], ◌∷◌, Option, some, none, ◌≡◌, ◌≤◌, ◌+◌, ◌++◌, arith, refl, length,
  suc, zero, inl, inr, Bool-cases, ap, ◌∙◌, ◌==◌, if◌then◌else◌, ==_iff,
}
use strategy_gpt.Optimizer.{trial_of, ParamSet, Trial, EvaluationOutcome, result_of}
use strategy_gpt.Optimizer.RecursiveGrid.{Numbers, Box, initial_box}
use strategy_gpt.Optimizer.RecursiveGrid.Choices.{
  AllFilled, round_candidates_some, shrink_box-AllFilled,
}
use strategy_gpt.Optimizer.RecursiveGrid.Search.{
  RecursiveGridSearcher, Random, RecursiveGridDriver, validate, overrides_valid, search, rounds,
  drive, new_driver, observe, observed_box, driver_candidates, on_candidates, evaluate_round, cells,
  next_box, zip_trials, is_converged, after_observe, after_shrink, after_round, after_batch,
  evaluate_entries,
}

module _ {F V M S W : Type 0} (f : Float F) (n : Numbers F V) (random : Random S)
    (evaluate_batch : List (ParamSet V) → W → Result (List M) × W)
    (score : M → Result (EvaluationOutcome F)) (s : RecursiveGridSearcher F V) where
  abbrev Driver : Type 0
  Driver = RecursiveGridDriver f n random evaluate_batch score s

  abbrev open_at : Box s.space → S → ℕ → Driver
  open_at box rng r = record { box = box; rng = rng; round_index = r; done = false }

  abbrev run : ℕ → Box s.space → S → List (Trial F V M) → W → Result (List (Trial F V M)) × W
  run = rounds f n random evaluate_batch score s none

  abbrev driven : ℕ → Driver → List (Trial F V M) → W → Option (Result (List (Trial F V M)) × W)
  driven = drive f n random evaluate_batch score s

  -- The engine answers one entry for each candidate.
  abbrev pub IsOnePerCandidate : Type 0
  IsOnePerCandidate =
      (ps : List (ParamSet V)) (w : W) (entries : List M)
      → (evaluate_batch ps w).0 ≡ ok entries
      → length entries ≡ length ps

  -- Where it does, the check of the length that only `search` makes finds nothing.
  checked_all :
      (ps : List (ParamSet V)) (answer : Result (List M))
      → ((entries : List M) → answer ≡ ok entries → length entries ≡ length ps)
      → (answer >>= λ entries. zip_trials f n random evaluate_batch score s none ps entries) ≡ (
          answer >>= λ entries.
          if length entries == length ps
          then zip_trials f n random evaluate_batch score s none ps entries
          else raise value_error)
  checked_all ps (raise e) one = refl
  checked_all ps (ok entries) one =
      rw ((==_iff (length entries) (length ps)).1 (one entries refl)) refl

  evaluate_entries-evaluate_round :
      (ps : List (ParamSet V)) (w : W)
      → IsOnePerCandidate
      → evaluate_entries f n random evaluate_batch score s ps w
        ≡ evaluate_round f n random evaluate_batch score s none ps w
  evaluate_entries-evaluate_round ps w one =
      ap (λ (r : Result (List (Trial F V M))). (r, (evaluate_batch ps w).1))
        (checked_all ps (evaluate_batch ps w).0 (one ps w))

  drive_done :
      (fuel : ℕ) (driver : Driver) (trials : List (Trial F V M)) (w : W)
      → driver.done ≡ true
      → driven fuel driver trials w ≡ some (ok trials, w)
  unfolding drive
  drive_done zero driver trials w h = rw h refl
  drive_done (suc fuel) driver trials w h = rw h refl

  abbrev Agrees : (fuel left : ℕ) → Type 0
  Agrees fuel left =
      (r : ℕ) (box : Box s.space) (rng : S) (trials : List (Trial F V M)) (w : W)
      → AllFilled s.space box
      → r + left ≡ s.depth
      → driven fuel (open_at box rng r) trials w ≡ some (run left box rng trials w)

  abbrev consed : {A B : Type 0} → Result A → Result (List B) → (A → B) → Result (List B)
  consed first rest make = first >>= λ a. rest >>= λ bs. ok (make a ∷ bs)

  abbrev checked : ParamSet V → List (ParamSet V) → Bool → List M → Result (List (Trial F V M))
  checked p ps same_length metrics =
      if same_length
      then zip_trials f n random evaluate_batch score s none (p ∷ ps) metrics
      else raise value_error

  -- After the box has shrunk: the driver goes on just where `search` does.
  after_observe-after_shrink :
      (fuel left r : ℕ) (box : Box s.space) (rng : S) (trials : List (Trial F V M)) (w : W)
      (shrunk : Result (Box s.space) × S)
      → ((1 ≤ left) → Agrees fuel left)
      → ((new_box : Box s.space) → shrunk.0 ≡ ok new_box → AllFilled s.space new_box)
      → r + suc left ≡ s.depth
      → after_observe f n random evaluate_batch score s
          (driven fuel)
          trials
          w
          (observed_box f n random evaluate_batch score s (open_at box rng r) shrunk)
        ≡ some (after_shrink f n random evaluate_batch score s (run left) trials w shrunk)
  unfolding rounds
  after_observe-after_shrink fuel left r box rng trials w (raise e, rng') again filled h = refl
  after_observe-after_shrink fuel zero r box rng trials w (ok new_box, rng') again filled h =
      elim (Bool-cases (is_converged f n random evaluate_batch score s new_box)) [
        | inl e ↦ rw e (drive_done fuel _ trials w (ground (arith, e, h)))
        | inr e ↦ rw e (drive_done fuel _ trials w (ground (arith, e, h)))
      ]
  after_observe-after_shrink fuel (suc left) r box rng trials w (ok new_box, rng') again filled h =
      elim (Bool-cases (is_converged f n random evaluate_batch score s new_box)) [
        | inl e ↦ rw e (drive_done fuel _ trials w (ground (arith, e, h)))
        | inr e ↦ rw e (
            ap
              (λ d.
                driven fuel (record { box = new_box; rng = rng'; round_index = r + 1; done = d })
                  trials w)
              (ground (arith, e, h))
            ∙ again (omega arith) (r + 1) new_box rng' trials w (filled new_box refl)
                (omega (arith, h)))
      ]

  after_batch-after_round :
      (fuel left r : ℕ) (box : Box s.space) (rng : S) (trials : List (Trial F V M))
      (out : Result (List (Trial F V M)) × W)
      → ((1 ≤ left) → Agrees fuel left)
      → AllFilled s.space box
      → r + suc left ≡ s.depth
      → ((ts : List (Trial F V M)) → out.0 ≡ ok ts → 1 ≤ length ts)
      → after_batch f n random evaluate_batch score s (driven fuel) (open_at box rng r) trials out
        ≡ some (after_round f n random evaluate_batch score s (run left) box rng trials out)
  unfolding observe
  after_batch-after_round fuel left r box rng trials (raise e, w) again filled h k = refl
  after_batch-after_round fuel left r box rng trials (ok [], w) again filled h k =
      absurd (omega (arith, k [] refl))
  after_batch-after_round fuel left r box rng trials (ok (t ∷ ts), w) again filled h k =
      after_observe-after_shrink fuel left r box rng (trials ++ t ∷ ts) w
        (next_box f n random evaluate_batch score s box (t ∷ ts) rng) again
        (λ new_box e. shrink_box-AllFilled f n _ _ _ s.space box new_box filled e) h

  -- A batch of candidates gives as many trials, or raises.
  cons_some :
      {A B : Type 0} (first : Result A) (rest : Result (List B)) (make : A → B) (bs : List B)
      → consed first rest make ≡ ok bs
      → 1 ≤ length bs
  cons_some (raise e) rest make bs h = absurd (cc)
  cons_some (ok a) (raise e) make bs h = absurd (cc)
  cons_some (ok a) (ok rest) make [] h = absurd (cc)
  cons_some (ok a) (ok rest) make (b ∷ bs) h = omega arith

  zip_trials_some :
      (p : ParamSet V) (ps : List (ParamSet V)) (same_length : Bool) (metrics : List M)
      (ts : List (Trial F V M))
      → checked p ps same_length metrics ≡ ok ts
      → 1 ≤ length ts
  zip_trials_some p ps false metrics ts h = absurd (cc)
  zip_trials_some p ps true [] ts h = absurd (cc)
  zip_trials_some p ps true (m ∷ ms) ts h =
      cons_some (score m) (zip_trials f n random evaluate_batch score s none ps ms)
        (trial_of f none p m) ts h

  evaluate_round_some :
      (p : ParamSet V) (ps : List (ParamSet V)) (answer : Result (List M)) (ts : List (Trial F V M))
      → (answer >>= λ metrics. checked p ps (length metrics == length (p ∷ ps)) metrics) ≡ ok ts
      → 1 ≤ length ts
  evaluate_round_some p ps (raise e) ts h = absurd (cc)
  evaluate_round_some p ps (ok metrics) ts h = zip_trials_some p ps _ metrics ts h

  -- A round that has candidates.
  on_candidates-after_round :
      (fuel left r : ℕ) (box : Box s.space) (rng : S) (trials : List (Trial F V M)) (w : W)
      (ps : List (ParamSet V))
      → ((1 ≤ left) → Agrees fuel left)
      → AllFilled s.space box
      → r + suc left ≡ s.depth
      → 1 ≤ length ps
      → IsOnePerCandidate
      → on_candidates f n random evaluate_batch score s
          (driven fuel)
          (open_at box rng r)
          trials
          w
          ps
        ≡ some (
            after_round f n random evaluate_batch score s
              (run left)
              box
              rng
              trials
              (evaluate_round f n random evaluate_batch score s none ps w))
  on_candidates-after_round fuel left r box rng trials w [] again filled h k one =
      absurd (omega (arith, k))
  on_candidates-after_round fuel left r box rng trials w (p ∷ ps) again filled h k one =
      ap (after_batch f n random evaluate_batch score s (driven fuel) (open_at box rng r) trials)
        (evaluate_entries-evaluate_round (p ∷ ps) w one)
      ∙ after_batch-after_round fuel left r box rng trials
          (evaluate_round f n random evaluate_batch score s none (p ∷ ps) w) again filled h
          (evaluate_round_some p ps (evaluate_batch (p ∷ ps) w).0)

  drive-rounds :
      (fuel left : ℕ)
      → overrides_valid f s.space s.per_dim_resolution ≡ true
      → 1 ≤ s.resolution
      → suc left ≤ fuel
      → IsOnePerCandidate
      → Agrees fuel (suc left)
  unfolding drive rounds driver_candidates
  drive-rounds zero left v res k one r box rng trials w filled h = absurd (omega (arith, k))
  drive-rounds (suc fuel) zero v res k one r box rng trials w filled h =
      on_candidates-after_round fuel zero r box rng trials w
        (cells f n random evaluate_batch score s box) (λ i. absurd (omega (arith, i))) filled h
        (round_candidates_some f n s.space s.per_dim_resolution s.resolution box v res filled) one
  drive-rounds (suc fuel) (suc left) v res k one r box rng trials w filled h =
      on_candidates-after_round fuel (suc left) r box rng trials w
        (cells f n random evaluate_batch score s box)
        (λ i. drive-rounds fuel left v res (omega (arith, k)) one) filled h
        (round_candidates_some f n s.space s.per_dim_resolution s.resolution box v res filled) one

  sum_zero : (z : ℤ) → z +ℤ pos 0 ≡ z
  sum_zero z = grind int_laws

  valid_parts :
      validate f s ≡ ok tt
      → (overrides_valid f s.space s.per_dim_resolution ≡ true) × (1 ≤ s.resolution) × (1 ≤ s.depth)
  unfolding validate
  valid_parts h = (ground (arith, h), ground (arith, h), ground (arith, h))

  drive_from_start :
      (salt : ℤ) (fuel depth : ℕ) (w : W)
      → depth ≡ s.depth
      → validate f s ≡ ok tt
      → AllFilled s.space (initial_box f n s.space)
      → depth ≤ fuel
      → IsOnePerCandidate
      → driven fuel (new_driver f n random evaluate_batch score s salt) [] w
        ≡ some (run depth (initial_box f n s.space) (random.seeded (s.seed +ℤ salt)) [] w)
  drive_from_start salt fuel zero w e v filled h one = absurd (omega (arith, e, (valid_parts v).2))
  drive_from_start salt fuel (suc depth) w e v filled h one =
      let (overrides, resolution, some_depth) = valid_parts v in
      drive-rounds fuel depth overrides resolution h one 0 (initial_box f n s.space)
        (random.seeded (s.seed +ℤ salt)) [] w filled (omega (arith, e))

  -- `_build_searcher` with another seed.
  abbrev pub reseeded : ℤ → RecursiveGridSearcher F V
  reseeded seed = record {
    space = s.space;
    resolution = s.resolution;
    top_k = s.top_k;
    depth = s.depth;
    plateau_epsilon = s.plateau_epsilon;
    seed = seed;
    per_dim_resolution = s.per_dim_resolution;
  }

  -- The seed counts only where the generator is made.
  rounds-reseeded :
      (seed : ℤ) (left : ℕ) (box : Box s.space) (rng : S) (trials : List (Trial F V M)) (w : W)
      → rounds f n random evaluate_batch score (reseeded seed) none left box rng trials w
        ≡ run left box rng trials w
  unfolding rounds
  rounds-reseeded seed zero box rng trials w = refl
  rounds-reseeded seed (suc left) box rng trials w =
      ap
        (λ again. after_round f n random evaluate_batch score s again box rng trials (
          evaluate_round f n random evaluate_batch score s none
            (cells f n random evaluate_batch score s box) w))
        (λ i b r ts v. rounds-reseeded seed left b r ts v i)

  validate-reseeded : (seed : ℤ) → validate f s ≡ ok tt → validate f (reseeded seed) ≡ ok tt
  unfolding validate
  validate-reseeded seed h = h

  -- Where the searcher is valid, no parameter is left without choices, the engine answers one entry
  -- for each candidate and the fuel is at least the depth, the loop of rounds with the driver of
  -- any salt ends, and `search` of the searcher whose seed is moved by the salt, without a gate,
  -- returns the result of the driver's trials, or raises what the loop raises, in the same world.
  pub drive-search :
      (salt : ℤ) (fuel : ℕ) (w : W)
      → validate f s ≡ ok tt
      → AllFilled s.space (initial_box f n s.space)
      → s.depth ≤ fuel
      → IsOnePerCandidate
      → (trials : Result (List (Trial F V M))) × (w' : W) × (driven fuel
            (new_driver f n random evaluate_batch score s salt)
            []
            w
          ≡ some (trials, w'))
        × (search f n random evaluate_batch score (reseeded (s.seed +ℤ salt)) none w
            ≡ (trials >>= λ ts. ok (result_of f ts), w'))
  unfolding search
  drive-search salt fuel w v filled h one =
      let out = run s.depth (initial_box f n s.space) (random.seeded (s.seed +ℤ salt)) [] w in
      (
        out.0,
        out.1,
        drive_from_start salt fuel s.depth w refl v filled h one,
        rw
            (
              validate-reseeded (s.seed +ℤ salt) v,
              search,
              rounds-reseeded (s.seed +ℤ salt) s.depth (initial_box f n s.space)
                  (random.seeded (s.seed +ℤ salt)) [] w,
            )
            refl,
      )
