-- ===== src/Tester/Translation.antt =====
-- python/strategy_gpt/tester.py: the parameter-only translation of a hypothesis, and its verdict
-- against a falsification criterion. `ParamOnlyTranslationError` and `FalsificationParseError` are
-- value errors; the text of a rationale is left out.
pub mod Params
pub mod Compare
use strategy_gpt.Prelude.Result.{Result, ok, ◌>>=◌, raise, value_error, type_error}
use strategy_gpt.Prelude.Floats.{Float, of_ℕ}
use strategy_gpt.HypothesisLoop.{HypothesisCandidate}
use strategy_gpt.Prelude.Dict.{Dict, assign, lookup}
use text.Mathlib.Text.{◌==◌}
use strategy_gpt.Prelude.{
  ◌==◌ as ◌==n◌, List, String, Option, Bool, ◌∷◌, false, if◌then◌else◌, not, ℕ, [], some, ◌||◌, ltb,
  true, none, suc, ◌-◌, ◌+◌, zero,
}
use strategy_gpt.Json.{
  get, Json, Items, Fields, null, object, string, cons, array, number, boolean, nil,
}

-- `_LOGIC_CHANGE_KEYS`
abbrev pub logic_change_keys : List String
logic_change_keys = "source" ∷ "code" ∷ "rewrite" ∷ "diff" ∷ "patch" ∷ "new_strategy" ∷ []

pub record ParamDiff : Type 0 where
  pub param : String
  pub from_value : Json
  pub to_value : Json

pub record TranslatedRun : Type 0 where
  pub strategy_artifact : String
  pub params : Dict Json
  pub diffs : List ParamDiff

abbrev pub is_found : Option Json → Bool
is_found none = false
is_found (some j) = true

-- `key in fields`, and whether one of the keys is.
abbrev pub has_key : String → Fields → Bool
has_key key fields = is_found (get key fields)

abbrev pub has_any : List String → Fields → Bool
has_any [] fields = false
has_any (k ∷ ks) fields = has_key k fields || has_any ks fields

abbrev null_if_missing : Option Json → Json
null_if_missing none = null
null_if_missing (some j) = j

-- The old value, by its alias `from` or else by its name.
abbrev pub from_or_name : Option Json → Option Json → Json
from_or_name none by_name = null_if_missing by_name
from_or_name (some j) by_name = j

-- `ParamDiff.model_validate`: the name must be a text.
abbrev pub validated_diff : Option Json → Option Json → Json → Result ParamDiff
validated_diff (some (string name)) (some to_value) from_value =
    ok (record { param = name; from_value = from_value; to_value = to_value })
validated_diff _ _ from_value = raise value_error

unfoldable pub diff_from_mapping : Json → Result ParamDiff
diff_from_mapping (object item) =
    validated_diff (get "param" item) (get "to" item)
      (from_or_name (get "from" item) (get "from_value" item))
diff_from_mapping _ = raise value_error

unfoldable pub diffs_from : Items → Result (List ParamDiff)
unfolding diff_from_mapping
diffs_from nil = ok []
diffs_from (cons item items) =
    diff_from_mapping item >>= λ d. diffs_from items >>= λ ds. ok (d ∷ ds)

-- A change with `diffs`, or else with `param`.
abbrev pub diffs_or_single : Option Json → Fields → Result (List ParamDiff)
diffs_or_single (some (array items)) change = diffs_from items
diffs_or_single (some _) change = raise value_error
diffs_or_single none change =
    if has_key "param" change
    then (diff_from_mapping (object change) >>= λ d. ok (d ∷ []))
    else raise value_error

unfoldable pub parse_param_only_change : Json → Result (List ParamDiff)
unfolding diffs_from
parse_param_only_change (object change) =
    if has_any logic_change_keys change
    then raise value_error
    else diffs_or_single (get "diffs" change) change
parse_param_only_change _ = raise value_error

unfoldable pub apply_param_diffs : Dict Json → List ParamDiff → Dict Json
apply_param_diffs merged [] = merged
apply_param_diffs merged (d ∷ diffs) = apply_param_diffs (assign d.param d.to_value merged) diffs

unfoldable pub translate_param_only :
    {F : Type 0} → HypothesisCandidate F → String → Dict Json → Result TranslatedRun
unfolding parse_param_only_change apply_param_diffs
translate_param_only candidate strategy_artifact base_params =
    parse_param_only_change candidate.proposed_change >>= λ diffs. ok (record {
      strategy_artifact = strategy_artifact;
      params = apply_param_diffs base_params diffs;
      diffs = diffs;
    })

pub data ComparisonOp : Type 0 where
  ge gt le lt eq ne : ComparisonOp

pub record FalsificationCriterion (F : Type 0) : Type 0 where
  pub metric : String
  pub op : ComparisonOp
  pub threshold : F

pub data VerdictKind : Type 0 where
  passed failed : VerdictKind

pub record Verdict (F : Type 0) : Type 0 where
  pub kind : VerdictKind
  pub criterion : FalsificationCriterion F
  pub observed : F

abbrev pub op_of : String → Option ComparisonOp
op_of text =
    if text == ">="
    then some ge
    else if text == ">"
    then some gt
    else if text == "<="
    then some le
    else if text == "<"
    then some lt
    else if text == "=="
    then some eq
    else if text == "!="
    then some ne
    else none

-- `op not in _FALSIFICATION_OPS`; a list or a dict cannot be hashed.
abbrev pub known_op : Option ComparisonOp → Result ComparisonOp
known_op none = raise value_error
known_op (some op) = ok op

abbrev pub parsed_op : Option Json → Result ComparisonOp
parsed_op (some (string text)) = known_op (op_of text)
parsed_op (some (array items)) = raise type_error
parsed_op (some (object fields)) = raise type_error
parsed_op _ = raise value_error

abbrev pub non_empty : String → Result String
non_empty name = if name == "" then raise value_error else ok name

abbrev pub parsed_metric : String → Option Json → Result String
parsed_metric default_metric none = non_empty default_metric
parsed_metric default_metric (some (string name)) = non_empty name
parsed_metric default_metric (some _) = raise value_error

module _ {F : Type 0} (f : Float F) (float_of : String → F) where
  -- A `bool` is an `int`.
  abbrev pub parsed_threshold : Option Json → Result F
  parsed_threshold (some (number text)) = ok (float_of text)
  parsed_threshold (some (boolean b)) = ok (of_ℕ f (if b then 1 else 0))
  parsed_threshold _ = raise value_error

  unfoldable pub parse_falsification : Json → String → Result (FalsificationCriterion F)
  parse_falsification (object raw) default_metric = parsed_op (get "op" raw) >>= λ op.
      parsed_threshold (get "threshold" raw) >>= λ threshold.
      parsed_metric default_metric (get "metric" raw) >>= λ metric.
      ok (record { metric = metric; op = op; threshold = threshold })
  parse_falsification _ default_metric = raise value_error

  -- `_compare`
  abbrev pub compare_with : ComparisonOp → F → F → Bool
  compare_with ge observed threshold = f.le threshold observed
  compare_with gt observed threshold = f.lt threshold observed
  compare_with le observed threshold = f.le observed threshold
  compare_with lt observed threshold = f.lt observed threshold
  compare_with eq observed threshold = f.eq observed threshold
  compare_with ne observed threshold = not (f.eq observed threshold)

  abbrev pub judged : FalsificationCriterion F → Option F → Result (Verdict F)
  judged criterion none = raise value_error
  judged criterion (some observed) = ok (record {
    kind = if compare_with criterion.op observed criterion.threshold then passed else failed;
    criterion = criterion;
    observed = observed;
  })

  -- The metrics are given as a dict of floats.
  unfoldable pub evaluate_verdict : HypothesisCandidate F → Dict F → Result (Verdict F)
  unfolding parse_falsification
  evaluate_verdict candidate metrics =
      parse_falsification candidate.falsification candidate.target_metric >>= λ criterion.
      judged criterion (lookup criterion.metric metrics)

-- `walk_forward_slices`: `at i` is the start plus `i` steps of a `folds`-th of the whole.
module _ {T : Type 0} (is_le : T → T → Bool) (at : T → T → ℕ → ℕ → T) where
  abbrev pub slices_from : T → T → (folds i left : ℕ) → List (T × T)
  slices_from start end folds i zero = []
  slices_from start end folds i (suc left) =
      (at start end folds i, if i ==n folds - 1 then end else at start end folds (i + 1))
      ∷ slices_from start end folds (i + 1) left

  unfoldable pub walk_forward_slices : T → T → ℕ → Result (List (T × T))
  walk_forward_slices start end folds =
      if ltb folds 1
      then raise value_error
      else if is_le end start
      then raise value_error
      else ok (slices_from start end folds 0 folds)
