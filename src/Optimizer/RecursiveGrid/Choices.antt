-- ===== src/Optimizer/RecursiveGrid/Choices.antt =====
-- Every round has candidates, where no parameter is left without choices.
use strategy_gpt.Prelude.Dict.{Dict, lookup, keys}
use strategy_gpt.Prelude.Floats.{Float}
use strategy_gpt.Prelude.Int.{pos}
use strategy_gpt.Prelude.Result.{Result, ok, raise, ◌>>=◌}
use text.Mathlib.Text.{◌==◌}
use strategy_gpt.Prelude.{
  ℕ, Bool, true, false, List, [], ◌∷◌, some, none, ◌≡◌, ◌≤◌, arith, length, length-map, suc, zero,
  Option, subst, sym, inl, inr, Bool-cases, String, ltb, not, ◌&&◌,
}
use strategy_gpt.Optimizer.{
  RandomParam, continuous_param, int_param, choice_param, ParamSet, product, zip_params,
}
use strategy_gpt.Optimizer.Grid.{length-prefixed}
use strategy_gpt.Optimizer.RecursiveGrid.{
  Numbers, Space, Cell, Box, dim_grid_points, resolution_for, per_dim_points, round_candidates,
  shrink_box, centres_for, shrunk_cell, is_frozen, width,
}
use strategy_gpt.Optimizer.RecursiveGrid.Search.{overrides_valid}

module _ {F V : Type 0} where
  abbrev pub IsFilled : (param : RandomParam F V) → Cell param → Type 0
  IsFilled (continuous_param low high log) cell = Unit
  IsFilled (int_param low high) cell = Unit
  IsFilled (choice_param choices) current = 1 ≤ length current

  abbrev pub AllFilled : (space : Space F V) → Box space → Type 0
  AllFilled [] box = Unit
  AllFilled ((name, param) ∷ space) (cell, box) = IsFilled param cell × AllFilled space box

module _ {F V : Type 0} (f : Float F) (n : Numbers F V) where
  dim_grid_points_some :
      (param : RandomParam F V) (cell : Cell param) (res : ℕ)
      → IsFilled param cell
      → 1 ≤ res
      → 1 ≤ length (dim_grid_points f n param cell res)
  unfolding dim_grid_points
  dim_grid_points_some param cell zero h k = absurd (omega (arith, k))
  dim_grid_points_some (choice_param choices) cell (suc res) h k = h
  dim_grid_points_some (int_param low high) cell (suc res) h k =
      elim (Bool-cases (is_frozen f n cell)) [
        | inl e ↦ rw e (omega arith)
        | inr e ↦ rw e (omega arith)
      ]
  dim_grid_points_some (continuous_param low high log) cell (suc res) h k =
      elim (Bool-cases (f.le (width f n cell) (f.literal (pos 0) 0))) [
        | inl e ↦ rw e (omega arith)
        | inr e ↦ rw e (omega arith)
      ]

  valid_override :
      {P : Type 0} (found : Option P) (override : ℕ) (rest : Bool)
      → elim found as (λ o. Bool) [ none ↦ false | some p ↦ not (ltb override 2) && rest ] ≡ true
      → (2 ≤ override) × (rest ≡ true)
  valid_override none override rest h = absurd (cc)
  valid_override (some p) override rest h = (ground (arith, h), ground (arith, h))

  resolution_for_valid :
      (space : Space F V) (per_dim : Dict ℕ) (resolution : ℕ) (name : String)
      → overrides_valid f space per_dim ≡ true
      → 1 ≤ resolution
      → 1 ≤ resolution_for f n per_dim resolution name
  unfolding lookup
  resolution_for_valid space [] resolution name h k = k
  resolution_for_valid space ((key, own) ∷ per_dim) resolution name h k =
      let valid = valid_override (lookup key space) own (overrides_valid f space per_dim) h in
      elim (Bool-cases (key == name)) [
        | inl e ↦ rw (e, resolution_for) (omega (arith, valid.0))
        | inr e ↦
            rw (e, resolution_for) (resolution_for_valid space per_dim resolution name valid.1 k)
      ]

  product_some :
      (vs : List V) (values : List (List V))
      → 1 ≤ length vs
      → 1 ≤ length (product values)
      → 1 ≤ length (product (vs ∷ values))
  product_some (v ∷ vs) values h k = ground (arith, length-prefixed (v ∷ vs) (product values))
  product_some [] values h k = absurd (omega (arith, h))

  per_dim_points_some :
      (space : Space F V) (per_dim : Dict ℕ) (resolution : ℕ) (rest : Space F V) (box : Box rest)
      → overrides_valid f space per_dim ≡ true
      → 1 ≤ resolution
      → AllFilled rest box
      → 1 ≤ length (product (per_dim_points f n per_dim resolution rest box))
  per_dim_points_some space per_dim resolution [] box v k h = omega arith
  per_dim_points_some space per_dim resolution ((name, param) ∷ rest) (cell, box) v k h =
      product_some (dim_grid_points f n param cell (resolution_for f n per_dim resolution name))
        (per_dim_points f n per_dim resolution rest box)
        (dim_grid_points_some param cell (resolution_for f n per_dim resolution name) h.0
          (resolution_for_valid space per_dim resolution name v k))
        (per_dim_points_some space per_dim resolution rest box v k h.1)

  pub round_candidates_some :
      (space : Space F V) (per_dim : Dict ℕ) (resolution : ℕ) (box : Box space)
      → overrides_valid f space per_dim ≡ true
      → 1 ≤ resolution
      → AllFilled space box
      → 1 ≤ length (round_candidates f n per_dim resolution space box)
  unfolding round_candidates
  round_candidates_some space per_dim resolution box v k h =
      let points = product (per_dim_points f n per_dim resolution space box) in
      ground (
        arith,
        length-map points (zip_params (keys space)),
        per_dim_points_some space per_dim resolution space box v k h,
      )

  shrunk_cell-IsFilled :
      (param : RandomParam F V) (cell : Cell param) (res : ℕ) (cs : List F)
      → IsFilled param cell
      → IsFilled param (shrunk_cell f n param cell res cs)
  shrunk_cell-IsFilled (choice_param choices) cell res cs h = h
  shrunk_cell-IsFilled (int_param low high) cell res cs h = tt
  shrunk_cell-IsFilled (continuous_param low high log) cell res cs h = tt

  abbrev pub pair_of : {A B C : Type 0} → Result A → Result B → (A → C) → Result (C × B)
  pair_of cs rest shrunk = cs >>= λ k. rest >>= λ r. ok (shrunk k, r)

  pub shrunk_parts :
      {A B C : Type 0} (cs : Result A) (rest : Result B) (shrunk : A → C) (c : C) (b : B)
      → pair_of cs rest shrunk ≡ ok (c, b)
      → ((k : A) × (c ≡ shrunk k)) × (rest ≡ ok b)
  shrunk_parts (raise x) rest shrunk c b e = absurd (cc)
  shrunk_parts (ok k) (raise x) shrunk c b e = absurd (cc)
  shrunk_parts (ok k) (ok r) shrunk c b e = ((k, cc), cc)

  pub shrink_box-AllFilled :
      (top : List (ParamSet V)) (per_dim : Dict ℕ) (resolution : ℕ) (space : Space F V)
      (box new_box : Box space)
      → AllFilled space box
      → shrink_box f n top per_dim resolution space box ≡ ok new_box
      → AllFilled space new_box
  unfolding shrink_box
  shrink_box-AllFilled top per_dim resolution [] box new_box h e = tt
  shrink_box-AllFilled top per_dim resolution ((name, param) ∷ space) (cell, box) (c, b) h e =
      let res = resolution_for f n per_dim resolution name in
      let ((k, c_eq), rest_eq) =
        shrunk_parts (centres_for f n param name top)
          (shrink_box f n top per_dim resolution space box) (shrunk_cell f n param cell res) c b
          e in
      (
        subst (IsFilled param) (sym c_eq) (shrunk_cell-IsFilled param cell res k h.0),
        shrink_box-AllFilled top per_dim resolution space box b h.1 rest_eq,
      )
