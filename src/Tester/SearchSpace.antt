-- ===== src/Tester/SearchSpace.antt =====
-- python/strategy_gpt/tester.py: `_build_search_space`.
pub mod Lookup
use strategy_gpt.Optimizer.{RandomParam, continuous_param, int_param}
use strategy_gpt.Prelude.Dict.{Dict, assign, among, lookup}
use strategy_gpt.Prelude.{String, List, Option, if◌then◌else◌, [], ◌||◌, ◌∷◌, false, some, none}
use strategy_gpt.Prelude.Int.{ℤ}
use strategy_gpt.Prelude.Result.{Result, ok, raise, value_error, ◌>>=◌}
use text.Mathlib.Text.{◌==◌}
use strategy_gpt.PerStrategyLedger.{ParamIntent, AddedParam}

module _ {F V : Type 0} (truncate : F → Result ℤ) where
  -- `truncate` is `int` of a float.
  abbrev pub bounded : String → F → F → Result (RandomParam F V)
  bounded kind low high =
      if kind == "f64"
      then ok (continuous_param low high false)
      else truncate low >>= λ l. truncate high >>= λ h. ok (int_param l h)

  abbrev pub with_bounds : String → Option F → Option F → Result (RandomParam F V)
  with_bounds kind (some low) (some high) = bounded kind low high
  with_bounds kind (some low) none = raise value_error
  with_bounds kind none upper = raise value_error

  abbrev pub added_param : AddedParam F → Result (RandomParam F V)
  added_param added =
      if (added.kind == "f64") || (added.kind == "i64")
      then with_bounds added.kind added.lower added.upper
      else raise value_error

  unfoldable pub add_params :
      List String → List (AddedParam F) → Dict (RandomParam F V) → Result (Dict (RandomParam F V))
  add_params removed [] space = ok space
  add_params removed (a ∷ added) space =
      let again = λ (p : RandomParam F V). add_params removed added (assign a.name p space) in
      if among a.name removed then raise value_error else added_param a >>= again

  -- `kept_bounds[name]`, checked.
  abbrev pub bounds_of : Option (RandomParam F V) → Result (RandomParam F V)
  bounds_of none = raise value_error
  bounds_of (some p) = ok p

  unfoldable pub keep_params :
      List String
      → Dict (RandomParam F V)
      → List String
      → Dict (RandomParam F V)
      → Result (Dict (RandomParam F V))
  keep_params removed kept_bounds [] space = ok space
  keep_params removed kept_bounds (name ∷ kept) space =
      let again =
        λ (p : RandomParam F V). keep_params removed kept_bounds kept (assign name p space) in
      if among name removed
      then raise value_error
      else bounds_of (lookup name kept_bounds) >>= again

  unfoldable pub build_search_space :
      ParamIntent F → Dict (RandomParam F V) → Result (Dict (RandomParam F V))
  unfolding add_params keep_params
  build_search_space intent kept_bounds =
      add_params intent.removed intent.added []
      >>= keep_params intent.removed kept_bounds intent.kept
