-- ===== src/Optimizer/RecursiveGrid/Search.antt =====
-- python/strategy_gpt/optimizer.py and python/strategy_gpt/search/recursive_grid.py: the recursive
-- grid run by `search`, and by the driver in the loop of `search_fold`. The random order is an
-- argument on the generator's state `S`; the engine's batches may raise and change the world `W`.
use strategy_gpt.Prelude.Dict.{Dict, lookup}
use strategy_gpt.Prelude.Floats.{Float, of_ℕ}
use strategy_gpt.Prelude.Int.{ℤ, ◌+ℤ◌}
use strategy_gpt.Prelude.Result.{Result, ok, raise, value_error, ◌>>=◌}
use strategy_gpt.Prelude.Sorting.{sorted_desc}
use strategy_gpt.Prelude.{
  ℕ, Bool, true, false, List, [], ◌∷◌, Option, some, none, if◌then◌else◌, ◌&&◌, ◌||◌, not, map,
  zero, suc, ltb, leb, ◌+◌, ◌++◌, take, length, ◌==◌, get_elem?,
}
use strategy_gpt.Optimizer.{
  ParamSet, Trial, EvaluationOutcome, OptimizerResult, scored_below, trial_of, result_of,
}
use strategy_gpt.Optimizer.RecursiveGrid.{
  Numbers, Space, Box, initial_box, original_widths, round_candidates, shrink_box, all_converged,
}

pub record RecursiveGridSearcher (F V : Type 0) : Type 0 where
  pub space : Space F V
  pub resolution : ℕ
  pub top_k : ℕ
  pub depth : ℕ
  pub plateau_epsilon : F
  pub seed : ℤ
  pub per_dim_resolution : Dict ℕ

-- `random.Random(seed)` and `rng.shuffle(list(range(n)))`
pub record Random (S : Type 0) : Type 0 where
  pub seeded : ℤ → S
  pub shuffle : ℕ → S → List ℕ × S

module _ {F V : Type 0} (f : Float F) where
  abbrev pub overrides_valid : Space F V → Dict ℕ → Bool
  overrides_valid space [] = true
  overrides_valid space ((name, override) ∷ rest) = elim (lookup name space) [
    | none ↦ false
    | some param ↦ not (ltb override 2) && overrides_valid space rest
  ]

  -- `_validate`. The counts are natural numbers; a negative one raises like zero.
  unfoldable pub validate : RecursiveGridSearcher F V → Result (Unit {0})
  validate s =
      if ltb s.resolution 2
        || ltb s.top_k 1
        || ltb s.depth 1
        || f.le s.plateau_epsilon (of_ℕ f 0)
        || not (overrides_valid s.space s.per_dim_resolution)
      then raise value_error
      else ok tt

-- `[round_trials[i] for i in order]`; the indices of a shuffled range are in range.
abbrev pub picked_trials : {A : Type 0} → List A → List ℕ → List A
picked_trials items [] = []
picked_trials items (i ∷ order) = elim (get_elem? items i) [
  | some x ↦ x ∷ picked_trials items order
  | none ↦ picked_trials items order
]

module _ {F V M S W : Type 0} (f : Float F) (n : Numbers F V) (random : Random S)
    (evaluate_batch : List (ParamSet V) → W → Result (List M) × W)
    (score : M → Result (EvaluationOutcome F)) (s : RecursiveGridSearcher F V) where
  -- `_select_top`
  abbrev pub select_top : List (Trial F V M) → S → List (Trial F V M) × S
  select_top round_trials rng =
      let (order, rng') = random.shuffle (length round_trials) rng in
      (take s.top_k (sorted_desc (scored_below f) (picked_trials round_trials order)), rng')

  abbrev pub next_box : Box s.space → List (Trial F V M) → S → Result (Box s.space) × S
  next_box box round_trials rng =
      let (top, rng') = select_top round_trials rng in
      (
        shrink_box f n (map (λ (t : Trial F V M). t.params) top) s.per_dim_resolution s.resolution
            s.space box,
        rng',
      )

  abbrev pub is_converged : Box s.space → Bool
  is_converged box = all_converged f n (original_widths f n s.space) s.plateau_epsilon s.space box

  abbrev pub cells : Box s.space → List (ParamSet V)
  cells box = round_candidates f n s.per_dim_resolution s.resolution s.space box

  -- One trial per cell, in order, with the metrics of the batch.
  abbrev pub zip_trials : Option F → List (ParamSet V) → List M → Result (List (Trial F V M))
  zip_trials oos_min_score [] [] = ok []
  zip_trials oos_min_score [] (m ∷ ms) = raise value_error
  zip_trials oos_min_score (p ∷ ps) [] = raise value_error
  zip_trials oos_min_score (p ∷ ps) (m ∷ ms) = score m >>= λ outcome.
      zip_trials oos_min_score ps ms >>= λ trials.
      ok (trial_of f oos_min_score p m outcome ∷ trials)

  -- The batch of a round and its trials. A batch of another length raises before any score.
  abbrev pub evaluate_round : Option F → List (ParamSet V) → W → Result (List (Trial F V M)) × W
  evaluate_round oos_min_score ps w =
      let (answer, w') = evaluate_batch ps w in
      (
        answer >>= λ metrics.
            if length metrics == length ps
            then zip_trials oos_min_score ps metrics
            else raise value_error,
        w',
      )

  -- The trials of a round of `search_fold`: each candidate zipped with its entry of the batch,
  -- which is an `M` here, and `score` scores an entry. Another length raises where the zip ends,
  -- after the entries before it are scored.
  abbrev pub evaluate_entries : List (ParamSet V) → W → Result (List (Trial F V M)) × W
  evaluate_entries ps w =
      let (answer, w') = evaluate_batch ps w in
      (answer >>= λ entries. zip_trials none ps entries, w')

  -- The end of a round of `search`. `again` is the rest of the loop.
  abbrev pub after_shrink :
      (Box s.space → S → List (Trial F V M) → W → Result (List (Trial F V M)) × W)
      → List (Trial F V M)
      → W
      → Result (Box s.space) × S
      → Result (List (Trial F V M)) × W
  after_shrink again trials w (raise e, rng) = (raise e, w)
  after_shrink again trials w (ok new_box, rng) =
      if is_converged new_box then (ok trials, w) else again new_box rng trials w

  abbrev pub after_round :
      (Box s.space → S → List (Trial F V M) → W → Result (List (Trial F V M)) × W)
      → Box s.space
      → S
      → List (Trial F V M)
      → Result (List (Trial F V M)) × W
      → Result (List (Trial F V M)) × W
  after_round again box rng trials (raise e, w) = (raise e, w)
  after_round again box rng trials (ok round_trials, w) =
      after_shrink again (trials ++ round_trials) w (next_box box round_trials rng)

  -- `for _round in range(depth)`
  unfoldable pub rounds :
      Option F → ℕ → Box s.space → S → List (Trial F V M) → W → Result (List (Trial F V M)) × W
  rounds oos_min_score zero box rng trials w = (ok trials, w)
  rounds oos_min_score (suc left) box rng trials w =
      after_round (rounds oos_min_score left) box rng trials
        (evaluate_round oos_min_score (cells box) w)

  -- `RecursiveGridSearcher.search`
  unfoldable pub search : Option F → W → Result (OptimizerResult F V M) × W
  unfolding rounds validate
  search oos_min_score w = elim (validate f s) [
    | raise e ↦ (raise e, w)
    | ok u ↦
        let (trials, w') =
          rounds oos_min_score s.depth (initial_box f n s.space) (random.seeded s.seed) [] w in
        (trials >>= λ ts. ok (result_of f ts), w')
  ]

  pub record RecursiveGridDriver : Type 0 where
    pub box : Box s.space
    pub rng : S
    pub round_index : ℕ
    pub done : Bool

  -- `RecursiveGridDriver.__init__`
  abbrev pub new_driver : (salt : ℤ) → RecursiveGridDriver
  new_driver salt = record {
    box = initial_box f n s.space;
    rng = random.seeded (s.seed +ℤ salt);
    round_index = 0;
    done = false;
  }

  unfoldable pub driver_candidates : RecursiveGridDriver → List (ParamSet V)
  driver_candidates driver = if driver.done then [] else cells driver.box

  abbrev pub observed_box :
      RecursiveGridDriver → Result (Box s.space) × S → Result RecursiveGridDriver
  observed_box driver (raise e, rng) = raise e
  observed_box driver (ok new_box, rng) = ok (record {
    box = new_box;
    rng = rng;
    round_index = driver.round_index + 1;
    done = leb s.depth (driver.round_index + 1) || is_converged new_box;
  })

  abbrev pub observe_open : List (Trial F V M) → RecursiveGridDriver → Result RecursiveGridDriver
  observe_open [] driver =
      ok (record {
        box = driver.box;
        rng = driver.rng;
        round_index = driver.round_index;
        done = true;
      })
  observe_open (t ∷ trials) driver =
      observed_box driver (next_box driver.box (t ∷ trials) driver.rng)

  unfoldable pub observe : List (Trial F V M) → RecursiveGridDriver → Result RecursiveGridDriver
  observe trials driver = if driver.done then ok driver else observe_open trials driver

  -- The loop of `search_fold`, up to the rows it writes and the winner it keeps: while the driver
  -- is not done and has candidates, they are evaluated and observed. `none` is the end of the fuel.
  abbrev pub after_observe :
      (RecursiveGridDriver → List (Trial F V M) → W → Option (Result (List (Trial F V M)) × W))
      → List (Trial F V M)
      → W
      → Result RecursiveGridDriver
      → Option (Result (List (Trial F V M)) × W)
  after_observe again trials w (raise e) = some (raise e, w)
  after_observe again trials w (ok driver) = again driver trials w

  abbrev pub after_batch :
      (RecursiveGridDriver → List (Trial F V M) → W → Option (Result (List (Trial F V M)) × W))
      → RecursiveGridDriver
      → List (Trial F V M)
      → Result (List (Trial F V M)) × W
      → Option (Result (List (Trial F V M)) × W)
  after_batch again driver trials (raise e, w) = some (raise e, w)
  after_batch again driver trials (ok round_trials, w) =
      after_observe again (trials ++ round_trials) w (observe round_trials driver)

  abbrev pub on_candidates :
      (RecursiveGridDriver → List (Trial F V M) → W → Option (Result (List (Trial F V M)) × W))
      → RecursiveGridDriver
      → List (Trial F V M)
      → W
      → List (ParamSet V)
      → Option (Result (List (Trial F V M)) × W)
  on_candidates again driver trials w [] = some (ok trials, w)
  on_candidates again driver trials w (p ∷ ps) =
      after_batch again driver trials (evaluate_entries (p ∷ ps) w)

  unfoldable pub drive :
      ℕ → RecursiveGridDriver → List (Trial F V M) → W → Option (Result (List (Trial F V M)) × W)
  drive zero driver trials w = if driver.done then some (ok trials, w) else none
  drive (suc fuel) driver trials w =
      if driver.done
      then some (ok trials, w)
      else on_candidates (drive fuel) driver trials w (driver_candidates driver)
