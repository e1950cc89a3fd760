-- ===== src/Tester/Translation/Params.antt =====
-- The parameters of a translated run: the last diff of a parameter wins.
use strategy_gpt.HypothesisLoop.{HypothesisCandidate}
use strategy_gpt.Json.{
  get, nil, cons, Items, null, Json, Fields, object, boolean, number, string, array,
}
use strategy_gpt.Prelude.Result.{value_error, Result, ◌>>=◌, ok, Error, raise, Result-cases}
use strategy_gpt.Prelude.Dict.{Dict, lookup, assign, lookup-assign_self, lookup-assign_other}
use strategy_gpt.Tester.Translation.{
  apply_param_diffs, parse_param_only_change, translate_param_only, ParamDiff, TranslatedRun,
  has_any, has_key, logic_change_keys, from_or_name, validated_diff, diff_from_mapping, diffs_from,
  diffs_or_single,
}
use strategy_gpt.Prelude.{
  String, List, Option, ◌≡◌, ◌∷◌, if◌then◌else◌, some, ◌∙◌, Bool-cases, ap, [], inl, refl, sym,
  false, none, subst, arith, ◌⊎◌, inr,
}
use text.Mathlib.Text.{◌==◌}
use text.Mathlib.TextEquality.{eq_iff}

-- The value of a parameter after the diffs, from its value before them.
abbrev pub last_value : String → List ParamDiff → Option Json → Option Json
last_value name [] before = before
last_value name (d ∷ diffs) before =
    last_value name diffs (if d.param == name then some d.to_value else before)

lookup-assign :
    {A : Type 0} (i k : String) (v : A) (d : Dict A)
    → lookup i (assign k v d) ≡ (if k == i then some v else lookup i d)
lookup-assign i k v d = elim (Bool-cases (k == i)) [
  | inl e ↦ rw e (rw (sym ((eq_iff k i).0 e)) (lookup-assign_self k v d))
  | inr e ↦ rw e (lookup-assign_other i k v d e)
]

lookup-apply_param_diffs :
    (name : String) (diffs : List ParamDiff) (base : Dict Json)
    → lookup name (apply_param_diffs base diffs) ≡ last_value name diffs (lookup name base)
unfolding apply_param_diffs
lookup-apply_param_diffs name [] base = refl
lookup-apply_param_diffs name (d ∷ diffs) base =
    lookup-apply_param_diffs name diffs (assign d.param d.to_value base)
    ∙ ap (last_value name diffs) (lookup-assign name d.param d.to_value base)

-- The old value that a mapping gives: under `from`, else under `from_value`, else null.
pub data GivesFrom (item : Fields) : Json → Type 0 where
  by_alias : {j : Json} → get "from" item ≡ some j → GivesFrom item j
  by_name : {j : Json} → get "from" item ≡ none → get "from_value" item ≡ some j → GivesFrom item j
  by_default : get "from" item ≡ none → get "from_value" item ≡ none → GivesFrom item null

-- A value is a mapping that gives the diff.
pub data GivesDiff : Json → ParamDiff → Type 0 where
  diff_of :
      {item : Fields} {d : ParamDiff}
      → get "param" item ≡ some (string d.param)
      → get "to" item ≡ some d.to_value
      → GivesFrom item d.from_value
      → GivesDiff (object item) d

-- The items give the diffs, one each, in order.
pub data GiveDiffs : Items → List ParamDiff → Type 0 where
  no_items : GiveDiffs nil []
  next_item :
      {j : Json} {items : Items} {d : ParamDiff} {ds : List ParamDiff}
      → GivesDiff j d
      → GiveDiffs items ds
      → GiveDiffs (cons j items) (d ∷ ds)

-- A change gives diffs by its array `diffs`, or one by its own keys where it has no `diffs`.
pub data ChangeGives (change : Fields) : List ParamDiff → Type 0 where
  listed :
      {items : Items} {ds : List ParamDiff}
      → get "diffs" change ≡ some (array items)
      → GiveDiffs items ds
      → ChangeGives change ds
  alone :
      {d : ParamDiff}
      → get "diffs" change ≡ none
      → GivesDiff (object change) d
      → ChangeGives change (d ∷ [])

from_or_name-GivesFrom :
    (item : Fields) (a b : Option Json)
    → get "from" item ≡ a
    → get "from_value" item ≡ b
    → GivesFrom item (from_or_name a b)
from_or_name-GivesFrom item (some j) b h k = by_alias h
from_or_name-GivesFrom item none (some j) h k = by_name h k
from_or_name-GivesFrom item none none h k = by_default h k

-- What holds of the value that a call returns.
of_ok : {A : Type 0} (P : A → Type 0) {a b : A} → ok a ≡ ok b → P a → P b
of_ok P e p = subst (λ r. elim r as (λ r. Type 0) [ ok x ↦ P x | raise x ↦ Unit ]) e p

validated_diff-GivesDiff :
    (item : Fields) (p t : Option Json) (from : Json) (d : ParamDiff)
    → get "param" item ≡ p
    → get "to" item ≡ t
    → GivesFrom item from
    → validated_diff p t from ≡ ok d
    → GivesDiff (object item) d
validated_diff-GivesDiff item (some (string name)) (some to) from d h k g e =
    of_ok (λ d. GivesDiff (object item) d) e (diff_of h k g)
validated_diff-GivesDiff item (some (string name)) none from d h k g e = absurd (cc)
validated_diff-GivesDiff item none t from d h k g e = absurd (cc)
validated_diff-GivesDiff item (some null) t from d h k g e = absurd (cc)
validated_diff-GivesDiff item (some (boolean b)) t from d h k g e = absurd (cc)
validated_diff-GivesDiff item (some (number b)) t from d h k g e = absurd (cc)
validated_diff-GivesDiff item (some (array b)) t from d h k g e = absurd (cc)
validated_diff-GivesDiff item (some (object b)) t from d h k g e = absurd (cc)

diff_from_mapping-GivesDiff :
    (j : Json) (d : ParamDiff) → diff_from_mapping j ≡ ok d → GivesDiff j d
unfolding diff_from_mapping
diff_from_mapping-GivesDiff (object item) d e =
    validated_diff-GivesDiff item (get "param" item) (get "to" item) _ d refl refl
      (from_or_name-GivesFrom item (get "from" item) (get "from_value" item) refl refl) e
diff_from_mapping-GivesDiff null d e = absurd (cc)
diff_from_mapping-GivesDiff (boolean b) d e = absurd (cc)
diff_from_mapping-GivesDiff (number n) d e = absurd (cc)
diff_from_mapping-GivesDiff (string s) d e = absurd (cc)
diff_from_mapping-GivesDiff (array items) d e = absurd (cc)

abbrev consed : Result ParamDiff → Result (List ParamDiff) → Result (List ParamDiff)
consed first rest = first >>= λ d. rest >>= λ ds. ok (d ∷ ds)

consed-parts :
    (P : List ParamDiff → Type 0) (first : Result ParamDiff) (rest : Result (List ParamDiff))
    (ds : List ParamDiff)
    → consed first rest ≡ ok ds
    → ((d : ParamDiff) (r : List ParamDiff) → first ≡ ok d → rest ≡ ok r → P (d ∷ r))
    → P ds
consed-parts P (raise x) rest ds e k = absurd (cc)
consed-parts P (ok d) (raise x) ds e k = absurd (cc)
consed-parts P (ok d) (ok r) ds e k = of_ok P e (k d r refl refl)

diffs_from-GiveDiffs :
    (items : Items) (ds : List ParamDiff) → diffs_from items ≡ ok ds → GiveDiffs items ds
unfolding diffs_from
diffs_from-GiveDiffs nil ds e = of_ok (λ ds. GiveDiffs nil ds) e no_items
diffs_from-GiveDiffs (cons j items) ds e =
    consed-parts (λ ds. GiveDiffs (cons j items) ds) (diff_from_mapping j) (diffs_from items) ds e
      (λ d r h k. next_item (diff_from_mapping-GivesDiff j d h) (diffs_from-GiveDiffs items r k))

abbrev single : Result ParamDiff → Result (List ParamDiff)
single r = r >>= λ d. ok (d ∷ [])

single-parts :
    (P : List ParamDiff → Type 0) (r : Result ParamDiff) (ds : List ParamDiff)
    → single r ≡ ok ds
    → ((d : ParamDiff) → r ≡ ok d → P (d ∷ []))
    → P ds
single-parts P (raise x) ds e k = absurd (cc)
single-parts P (ok d) ds e k = of_ok P e (k d refl)

diffs_or_single-ChangeGives :
    (listed_diffs : Option Json) (change : Fields) (ds : List ParamDiff)
    → get "diffs" change ≡ listed_diffs
    → diffs_or_single listed_diffs change ≡ ok ds
    → ChangeGives change ds
diffs_or_single-ChangeGives (some (array items)) change ds h e =
    listed h (diffs_from-GiveDiffs items ds e)
diffs_or_single-ChangeGives (some null) change ds h e = absurd (cc)
diffs_or_single-ChangeGives (some (boolean b)) change ds h e = absurd (cc)
diffs_or_single-ChangeGives (some (number b)) change ds h e = absurd (cc)
diffs_or_single-ChangeGives (some (string b)) change ds h e = absurd (cc)
diffs_or_single-ChangeGives (some (object b)) change ds h e = absurd (cc)
diffs_or_single-ChangeGives none change ds h e = elim (Bool-cases (has_key "param" change)) [
  | inr k ↦ absurd (ground (arith, e, k))
  | inl k ↦
      single-parts (λ ds. ChangeGives change ds) (diff_from_mapping (object change)) ds
        (subst
          (λ b.
            (if b then single (diff_from_mapping (object change)) else raise value_error) ≡ ok ds)
          k e)
        (λ d m. alone h (diff_from_mapping-GivesDiff (object change) d m))
]

parsed-object :
    (j : Json) (diffs : List ParamDiff)
    → parse_param_only_change j ≡ ok diffs
    → (change : Fields) × (j ≡ object change)
      × (has_any logic_change_keys change ≡ false)
      × ChangeGives change diffs
unfolding parse_param_only_change
parsed-object (object change) diffs h = elim (Bool-cases (has_any logic_change_keys change)) [
  | inl e ↦ absurd (ground (arith, h, e))
  | inr e ↦ (
    change,
    refl,
    e,
    diffs_or_single-ChangeGives (get "diffs" change) change diffs refl (
        subst
          (λ b.
            (if b then raise value_error else diffs_or_single (get "diffs" change) change)
            ≡ ok diffs)
          e h),
  )
]
parsed-object null diffs h = absurd (cc)
parsed-object (boolean b) diffs h = absurd (cc)
parsed-object (number n) diffs h = absurd (cc)
parsed-object (string s) diffs h = absurd (cc)
parsed-object (array items) diffs h = absurd (cc)

-- A translation keeps the artifact, has just the diffs that the change gives, by its array `diffs`
-- or by its own keys, and gives each parameter its last diff's value, else its old one; a change
-- that is no object, or has a key of a logic change, is refused.
pub translate_param_only_lem :
    {F : Type 0} (candidate : HypothesisCandidate F) (artifact : String) (base : Dict Json)
    → ((run : TranslatedRun) × (change : Fields) × (translate_param_only candidate artifact base
          ≡ ok run)
        × (candidate.proposed_change ≡ object change)
        × (has_any logic_change_keys change ≡ false)
        × ChangeGives change run.diffs
        × (run.strategy_artifact ≡ artifact)
        × ((name : String) → lookup name run.params ≡ last_value name run.diffs (lookup name base)))
      ⊎ ((e : Error) × (translate_param_only candidate artifact base ≡ raise e)
          × (parse_param_only_change candidate.proposed_change ≡ raise e))
unfolding translate_param_only
translate_param_only_lem candidate artifact base =
    elim (Result-cases (parse_param_only_change candidate.proposed_change)) [
      | inr (e, h) ↦ inr (e, rw h refl, h)
      | inl (diffs, h) ↦
          let (change, same, plain, gives) = parsed-object candidate.proposed_change diffs h in
          inl (
            record {
              strategy_artifact = artifact;
              params = apply_param_diffs base diffs;
              diffs = diffs;
            },
            change,
            rw h refl,
            same,
            plain,
            gives,
            refl,
            λ name. lookup-apply_param_diffs name diffs base,
          )
    ]
