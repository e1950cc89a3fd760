-- ===== src/Optimizer/RecursiveGrid.antt =====
-- python/strategy_gpt/optimizer.py: the boxes of the recursive grid. A box has one cell for each
-- parameter of the space, in its order, since every loop over a box goes over the space.
pub mod Search
pub mod Rounds
pub mod Choices
pub mod Clipping
mod Examples
use strategy_gpt.Prelude.Dict.{Dict, lookup, keys}
use strategy_gpt.Prelude.Floats.{Float, of_ℕ}
use strategy_gpt.Prelude.Int.{ℤ, leb_ℤ, ◌-ℤ◌}
use strategy_gpt.Prelude.Maximum.{max_from}
use strategy_gpt.Prelude.Result.{Result, ok, raise, key_error, ◌>>=◌}
use strategy_gpt.Prelude.{
  ℕ, Bool, true, false, List, [], ◌∷◌, Option, some, none, String, if◌then◌else◌, ◌&&◌, ◌||◌, not,
  map, zero, suc, ltb, ◌-◌, ◌+◌,
}
use strategy_gpt.Optimizer.{
  RandomParam, continuous_param, int_param, choice_param, ParamSet, product, zip_params,
}

-- Parameter values: how Python makes them from numbers, reads them as floats, and rounds.
pub record Numbers (F V : Type 0) : Type 0 where
  pub of_float : F → V
  pub of_int : ℤ → V
  pub as_float : V → F
  pub round : F → ℤ

abbrev pub Space : Type 0 → Type 0 → Type 0
Space F V = Dict (RandomParam F V)

module _ {F V : Type 0} where
  -- `box[name]`: a tuple for a number, the choices for a choice.
  abbrev pub Cell : RandomParam F V → Type 0
  Cell (continuous_param low high log) = F × F
  Cell (int_param low high) = F × F
  Cell (choice_param choices) = List V

  abbrev pub Box : Space F V → Type 0
  Box [] = Unit
  Box ((name, param) ∷ space) = Cell param × Box space

module _ {F V : Type 0} (f : Float F) (n : Numbers F V) where
  abbrev pub of_ℤ : ℤ → F
  of_ℤ z = f.literal z 0

  abbrev pub width : F × F → F
  width (low, high) = f.sub high low

  -- `high - low < 1.0`
  abbrev pub is_frozen : F × F → Bool
  is_frozen cell = f.lt (width cell) (of_ℕ f 1)

  -- `(low + high) / 2.0`, rounded.
  abbrev pub centre_of : F × F → ℤ
  centre_of (low, high) = n.round (f.div (f.add low high) (of_ℕ f 2))

  -- `low + (high - low) * i / (resolution - 1)`
  abbrev pub point : F × F → (resolution i : ℕ) → F
  point (low, high) resolution i =
      f.add low (f.div (f.mul (width (low, high)) (of_ℕ f i)) (of_ℕ f (resolution - 1)))

  -- `[point(i) for i in range(i, i + count)]`
  abbrev pub points_from : F × F → (resolution i count : ℕ) → List F
  points_from cell resolution i zero = []
  points_from cell resolution i (suc count) =
      point cell resolution i ∷ points_from cell resolution (i + 1) count

  abbrev pub is_seen : ℤ → List ℤ → Bool
  is_seen p [] = false
  is_seen p (q ∷ seen) = (leb_ℤ p q && leb_ℤ q p) || is_seen p seen

  abbrev pub unique_among : List ℤ → List ℤ → List ℤ
  unique_among seen [] = []
  unique_among seen (p ∷ pts) =
      let rest = unique_among (p ∷ seen) pts in
      let same = unique_among seen pts in if is_seen p seen then same else p ∷ rest

  -- `_dim_grid_points`
  unfoldable pub dim_grid_points : (param : RandomParam F V) → Cell param → ℕ → List V
  dim_grid_points (choice_param choices) current resolution = current
  dim_grid_points (int_param low high) cell resolution =
      if is_frozen cell
      then n.of_int (centre_of cell) ∷ []
      else map n.of_int (unique_among [] (map n.round (points_from cell resolution 0 resolution)))
  dim_grid_points (continuous_param low high log) cell resolution =
      if f.le (width cell) (of_ℕ f 0)
      then n.of_float cell.0 ∷ []
      else map n.of_float (points_from cell resolution 0 resolution)

  -- `_initial_box`
  abbrev pub initial_cell : (param : RandomParam F V) → Cell param
  initial_cell (continuous_param low high log) = (low, high)
  initial_cell (int_param low high) = (of_ℤ low, of_ℤ high)
  initial_cell (choice_param choices) = choices

  abbrev pub initial_box : (space : Space F V) → Box space
  initial_box [] = tt
  initial_box ((name, param) ∷ space) = (initial_cell param, initial_box space)

  -- `_original_widths`
  abbrev pub original_widths : Space F V → Dict F
  original_widths [] = []
  original_widths ((name, continuous_param low high log) ∷ space) =
      (name, f.sub high low) ∷ original_widths space
  original_widths ((name, int_param low high) ∷ space) =
      (name, of_ℤ (high -ℤ low)) ∷ original_widths space
  original_widths ((name, choice_param choices) ∷ space) = original_widths space

  -- `int(per_dim_resolution.get(name, resolution))`
  abbrev pub resolution_for : Dict ℕ → ℕ → String → ℕ
  resolution_for per_dim_resolution resolution name = elim (lookup name per_dim_resolution) [
    | some own ↦ own
    | none ↦ resolution
  ]

  abbrev pub per_dim_points : Dict ℕ → ℕ → (space : Space F V) → Box space → List (List V)
  per_dim_points per_dim resolution [] box = []
  per_dim_points per_dim resolution ((name, param) ∷ space) (cell, box) =
      dim_grid_points param cell (resolution_for per_dim resolution name)
      ∷ per_dim_points per_dim resolution space box

  -- `_round_candidates`, and `RecursiveGridDriver.candidates` before the end.
  unfoldable pub round_candidates : Dict ℕ → ℕ → (space : Space F V) → Box space → List (ParamSet V)
  round_candidates per_dim resolution space box =
      map (zip_params (keys space)) (product (per_dim_points per_dim resolution space box))

  -- `[t[name] for t in top_params]`, read as floats.
  abbrev pub centres : String → List (ParamSet V) → Result (List F)
  centres name [] = ok []
  centres name (params ∷ top_params) = elim (lookup name params) [
    | none ↦ raise key_error
    | some v ↦ centres name top_params >>= λ rest. ok (n.as_float v ∷ rest)
  ]

  abbrev pub half_step : F × F → ℕ → F
  half_step cell res =
      if ltb 1 res then f.div (f.div (width cell) (of_ℕ f (res - 1))) (of_ℕ f 2) else of_ℕ f 0

  -- The hull of the centres and half a step, clipped to the current cell.
  abbrev pub clipped : F × F → ℕ → F → List F → F × F
  clipped cell res c cs =
      let least = f.sub (max_from (λ a b. f.lt b a) c cs) (half_step cell res) in
      let greatest = f.add (max_from f.lt c cs) (half_step cell res) in
      (
        if f.lt cell.0 least then least else cell.0,
        if f.lt greatest cell.1 then greatest else cell.1,
      )

  abbrev pub frozen_at : F × F → F × F
  frozen_at cell = if is_frozen cell then (of_ℤ (centre_of cell), of_ℤ (centre_of cell)) else cell

  abbrev pub shrunk_cell : (param : RandomParam F V) → Cell param → ℕ → List F → Cell param
  shrunk_cell (choice_param choices) current res cs = current
  shrunk_cell (continuous_param low high log) cell res [] = cell
  shrunk_cell (continuous_param low high log) cell res (c ∷ cs) = clipped cell res c cs
  shrunk_cell (int_param low high) cell res [] = cell
  shrunk_cell (int_param low high) cell res (c ∷ cs) = frozen_at (clipped cell res c cs)

  abbrev pub is_choice : RandomParam F V → Bool
  is_choice (continuous_param low high log) = false
  is_choice (int_param low high) = false
  is_choice (choice_param choices) = true

  abbrev pub centres_for : RandomParam F V → String → List (ParamSet V) → Result (List F)
  centres_for param name top_params = if is_choice param then ok [] else centres name top_params

  -- `_shrink_box`
  unfoldable pub shrink_box :
      List (ParamSet V) → Dict ℕ → ℕ → (space : Space F V) → Box space → Result (Box space)
  shrink_box top_params per_dim resolution [] box = ok tt
  shrink_box top_params per_dim resolution ((name, param) ∷ space) (cell, box) =
      centres_for param name top_params >>= λ cs.
      shrink_box top_params per_dim resolution space box >>= λ rest.
      ok (shrunk_cell param cell (resolution_for per_dim resolution name) cs, rest)

  -- `original_widths.get(name, 0.0)`
  abbrev pub original_width : Dict F → String → F
  original_width widths name = elim (lookup name widths) [ some o ↦ o | none ↦ of_ℕ f 0 ]

  -- Whether a parameter keeps the search going: its width is not below `epsilon` of the first one.
  abbrev pub is_wide : Dict F → F → String → F → Bool
  is_wide widths epsilon name w =
      not (f.le (original_width widths name) (of_ℕ f 0))
      && f.le epsilon (f.div w (original_width widths name))

  abbrev pub is_unconverged : Dict F → F → String → (param : RandomParam F V) → Cell param → Bool
  is_unconverged widths epsilon name (choice_param choices) current = false
  is_unconverged widths epsilon name (int_param low high) cell =
      not (is_frozen cell) && is_wide widths epsilon name (width cell)
  is_unconverged widths epsilon name (continuous_param low high log) cell =
      is_wide widths epsilon name (width cell)

  -- `_all_converged`
  unfoldable pub all_converged : Dict F → F → (space : Space F V) → Box space → Bool
  all_converged widths epsilon [] box = true
  all_converged widths epsilon ((name, param) ∷ space) (cell, box) =
      not (is_unconverged widths epsilon name param cell) && all_converged widths epsilon space box
