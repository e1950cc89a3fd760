-- ===== src/Tester/SearchSpace/Lookup.antt =====
-- Which bounds a parameter has in the search space, and when there is a search space.
use strategy_gpt.Prelude.Dict.{
  Dict, among, lookup, assign, lookup-assign_self, lookup-assign_other, eq_refl,
}
use strategy_gpt.Tester.SearchSpace.{add_params, keep_params, added_param, build_search_space}
use strategy_gpt.Optimizer.{RandomParam}
use strategy_gpt.Prelude.{
  List, String, Option, ◌∷◌, All, ◌≡◌, some, if◌then◌else◌, false, Bool-cases, ◌∙◌, none, inl, ap,
  [], sym, refl, inr, arith, map, true, All-mono, if_false,
}
use strategy_gpt.Prelude.Int.{ℤ}
use strategy_gpt.Prelude.Result.{Result, ok, raise}
use text.Mathlib.Text.{◌==◌}
use text.Mathlib.TextEquality.{eq_iff}
use strategy_gpt.PerStrategyLedger.{ParamIntent, AddedParam}

-- An added parameter can be searched: it is not removed, and its kind and bounds give a range.
abbrev pub IsSearchable :
    {F : Type 0} (V : Type 0) → (F → Result ℤ) → List String → AddedParam F → Type 0
IsSearchable {F} V truncate removed a =
    (among a.name removed ≡ false) × (p : RandomParam F V) × (added_param truncate a ≡ ok p)

among-cons :
    (k n : String) (names : List String) → among k names ≡ true → among k (n ∷ names) ≡ true
among-cons k n names h = ground (arith, h)

All-among : (names : List String) → All (λ n. among n names ≡ true) names
All-among [] = tt
All-among (n ∷ names) =
    (rw (eq_refl n) refl, All-mono (λ k. among-cons k n names) names (All-among names))

-- A removed name is not among names that are not removed.
kept_apart :
    (name : String) (removed names : List String)
    → among name removed ≡ true
    → All (λ n. among n removed ≡ false) names
    → among name names ≡ false
kept_apart name removed [] r h = refl
kept_apart name removed (n ∷ names) r h = elim (Bool-cases (n == name)) [
  | inl e ↦ absurd (ground (arith, r, h.0, ap (λ i. among i removed) ((eq_iff n name).0 e)))
  | inr e ↦ rw e (kept_apart name removed names r h.1)
]

names_apart :
    {F : Type 0} (V : Type 0) (truncate : F → Result ℤ) (removed : List String)
    (added : List (AddedParam F))
    → All (IsSearchable V truncate removed) added
    → All (λ n. among n removed ≡ false) (map (λ (a : AddedParam F). a.name) added)
names_apart V truncate removed [] h = tt
names_apart V truncate removed (a ∷ added) h = (h.0.0, names_apart V truncate removed added h.1)

module _ {F V : Type 0} (truncate : F → Result ℤ) where
  abbrev pub IsKeepable : List String → Dict (RandomParam F V) → String → Type 0
  IsKeepable removed kept_bounds name =
      (among name removed ≡ false) × (p : RandomParam F V) × (lookup name kept_bounds ≡ some p)

  abbrev range_of : Result (RandomParam F V) → Option (RandomParam F V)
  range_of (ok p) = some p
  range_of (raise e) = none

  -- The range of the last added parameter with the name, else `before`.
  abbrev pub last_added :
      String → List (AddedParam F) → Option (RandomParam F V) → Option (RandomParam F V)
  last_added name [] before = before
  last_added name (a ∷ added) before =
      last_added name added (if a.name == name then range_of (added_param truncate a) else before)

  lookup-assign :
      (i k : String) (v : RandomParam F V) (d : Dict (RandomParam F V))
      → lookup i (assign k v d) ≡ (if k == i then some v else lookup i d)
  lookup-assign i k v d = elim (Bool-cases (k == i)) [
    | inl e ↦ rw e (rw (sym ((eq_iff k i).0 e)) (lookup-assign_self k v d))
    | inr e ↦ rw e (lookup-assign_other i k v d e)
  ]

  add_params-ok :
      (removed : List String) (added : List (AddedParam F)) (space : Dict (RandomParam F V))
      → All (IsSearchable V truncate removed) added
      → (out : Dict (RandomParam F V)) × (add_params truncate removed added space ≡ ok out)
        × ((name : String) → lookup name out ≡ last_added name added (lookup name space))
  unfolding add_params
  add_params-ok removed [] space h = (space, refl, λ name. refl)
  add_params-ok removed (a ∷ added) space h =
      let (fresh, p, made) = h.0 in
      let (out, k, found) = add_params-ok removed added (assign a.name p space) h.1 in
      (
        out,
        rw (fresh, made) k,
        λ name.
            found name
            ∙ ap (last_added name added) (lookup-assign name a.name p space ∙ rw made refl),
      )

  keep_params-ok :
      (removed : List String) (kept_bounds : Dict (RandomParam F V)) (kept : List String)
      (space : Dict (RandomParam F V))
      → All (IsKeepable removed kept_bounds) kept
      → (out : Dict (RandomParam F V)) × (keep_params truncate removed kept_bounds kept space
          ≡ ok out)
        × ((name : String)
            → lookup name out
              ≡ (if among name kept then lookup name kept_bounds else lookup name space))
  unfolding keep_params
  keep_params-ok removed kept_bounds [] space h = (space, refl, λ name. refl)
  keep_params-ok removed kept_bounds (n ∷ kept) space h =
      let (fresh, p, bound) = h.0 in
      let (out, k, found) = keep_params-ok removed kept_bounds kept (assign n p space) h.1 in
      (
        out,
        rw (fresh, bound) k,
        λ name. found name ∙ elim (Bool-cases (n == name)) [
          | inl e ↦ ground (
            arith,
            e,
            lookup-assign name n p space,
            bound,
            ap (λ i. lookup i kept_bounds) ((eq_iff n name).0 e),
          )
          | inr e ↦ ground (arith, e, lookup-assign name n p space)
        ],
      )

  among-none :
      (name : String) (added : List (AddedParam F)) (before : Option (RandomParam F V))
      → among name (map (λ (a : AddedParam F). a.name) added) ≡ false
      → last_added name added before ≡ before
  among-none name [] before h = refl
  among-none name (a ∷ added) before h = elim (Bool-cases (a.name == name)) [
    | inl e ↦ absurd (ground (arith, h, e))
    | inr e ↦ rw e (among-none name added before (ground (arith, h, e)))
  ]

  -- There is a search space where the added parameters can be searched and the kept ones have
  -- bounds, and none of them is removed. A kept parameter has its bounds, any other that is added
  -- the range it was last added with, and no other is in it.
  pub build_search_space_lem :
      (intent : ParamIntent F) (kept_bounds : Dict (RandomParam F V))
      → All (IsSearchable V truncate intent.removed) intent.added
      → All (IsKeepable intent.removed kept_bounds) intent.kept
      → (space : Dict (RandomParam F V)) × (build_search_space truncate intent kept_bounds
          ≡ ok space)
        × ((name : String)
            → lookup name space ≡ (
                if among name intent.kept
                then lookup name kept_bounds
                else last_added name intent.added none))
        × All (λ name. lookup name space ≡ none) intent.removed
  unfolding build_search_space lookup
  build_search_space_lem intent kept_bounds h k =
      let (first, made, found) = add_params-ok intent.removed intent.added [] h in
      let (space, kept, looked) = keep_params-ok intent.removed kept_bounds intent.kept first k in
      (
        space,
        rw made kept,
        λ name.
            looked name
            ∙ ap (λ o. if among name intent.kept then lookup name kept_bounds else o) (found name),
        All-mono
            (λ name r.
              looked name
              ∙ if_false _ _ (
                  kept_apart name intent.removed intent.kept r (
                    All-mono (λ n (s : IsKeepable intent.removed kept_bounds n). s.0) intent.kept
                      k))
              ∙ found name
              ∙ among-none name intent.added none (
                  kept_apart name intent.removed (map (λ (a : AddedParam F). a.name) intent.added) r
                    (names_apart V truncate intent.removed intent.added h)))
            intent.removed (All-among intent.removed),
      )
