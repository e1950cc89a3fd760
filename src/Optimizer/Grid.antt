-- ===== src/Optimizer/Grid.antt =====
-- The grid: as many candidates as announced, and exactly the ways to choose a value for each key.
use strategy_gpt.Optimizer.{
  grid_count, grid_candidates, ParamSet, length, map, prefixed, product, [], values, String,
  zip_params, keys,
}
use strategy_gpt.Prelude.{
  List, ◌∷◌, ◌++◌, ◌⊎◌, ◌≡◌, [], ◌∙◌, length-map, inr, inl, ◌↔◌, ◌*◌, arith, ap, length-append,
  subst, refl, sym,
}
use strategy_gpt.Prelude.Dict.{Dict}

-- An occurrence of a value in a list.
pub data Has {ℓ} {A : Type ℓ} (x : A) : List A → Type ℓ where
  here : {y : A} {xs : List A} → x ≡ y → Has x (y ∷ xs)
  there : {y : A} {xs : List A} → Has x xs → Has x (y ∷ xs)

module _ {V : Type 0} where
  -- One of the values of each key, under the keys in their order.
  pub data Chooses : Dict (List V) → ParamSet V → Type 0 where
    none_left : Chooses [] []
    choose :
        {k : String} {v : V} {vs : List V} {grid : Dict (List V)} {p : ParamSet V}
        → Has v vs
        → Chooses grid p
        → Chooses ((k, vs) ∷ grid) ((k, v) ∷ p)

  pub length-prefixed :
      (vs : List V) (combos : List (List V))
      → length (prefixed vs combos) ≡ length vs * length combos
  length-prefixed [] combos = omega arith
  length-prefixed (v ∷ vs) combos = grind (
    arith,
    length-append (map (λ combo. v ∷ combo) combos) (prefixed vs combos),
    length-map combos (λ (combo : List V). v ∷ combo),
    length-prefixed vs combos,
  )

  length-product : (grid : Dict (List V)) → length (product (values grid)) ≡ grid_count grid
  unfolding grid_count
  length-product [] = refl
  length-product ((k, vs) ∷ grid) =
      length-prefixed vs (product (values grid)) ∙ ap (λ n. length vs * n) (length-product grid)

  pub length-grid_candidates :
      (grid : Dict (List V)) → length (grid_candidates grid) ≡ grid_count grid
  unfolding grid_candidates
  length-grid_candidates grid =
      length-map (product (values grid)) (zip_params (keys grid)) ∙ length-product grid

module _ {ℓ} {A : Type ℓ} {x : A} where
  append_left-Has : {xs : List A} (ys : List A) → Has x xs → Has x (xs ++ ys)
  append_left-Has ys (here e) = here e
  append_left-Has ys (there h) = there (append_left-Has ys h)

  append_right-Has : (xs : List A) {ys : List A} → Has x ys → Has x (xs ++ ys)
  append_right-Has [] h = h
  append_right-Has (y ∷ xs) h = there (append_right-Has xs h)

  append-Has : (xs : List A) {ys : List A} → Has x (xs ++ ys) → Has x xs ⊎ Has x ys
  append-Has [] h = inr h
  append-Has (y ∷ xs) (here e) = inl (here e)
  append-Has (y ∷ xs) (there h) = elim (append-Has xs h) [ inl k ↦ inl (there k) | inr k ↦ inr k ]

  map-Has {κ} : {B : Type κ} (g : A → B) {xs : List A} → Has x xs → Has (g x) (map g xs)
  map-Has g (here e) = here (ap g e)
  map-Has g (there h) = there (map-Has g h)

module _ {ℓ κ} {A : Type ℓ} {B : Type κ} where
  map-source : (g : A → B) (y : B) (xs : List A) → Has y (map g xs) → (x : A) × Has x xs × (y ≡ g x)
  map-source g y [] h = elim h [ ]
  map-source g y (x ∷ xs) (here e) = (x, here refl, e)
  map-source g y (x ∷ xs) (there h) = let (z, k, e) = map-source g y xs h in (z, there k, e)

module _ {V : Type 0} where
  prefixed-Has :
      {v : V} {vs : List V} {combo : List V} {combos : List (List V)}
      → Has v vs
      → Has combo combos
      → Has (v ∷ combo) (prefixed vs combos)
  prefixed-Has {v} {combo} {combos} (here e) c =
      append_left-Has _
        (subst (λ u. Has (v ∷ combo) (map (λ l. u ∷ l) combos)) e (map-Has (λ l. v ∷ l) c))
  prefixed-Has (there h) c = append_right-Has _ (prefixed-Has h c)

  prefixed-source :
      (vs : List V) (combos : List (List V)) (l : List V)
      → Has l (prefixed vs combos)
      → (v : V) × (combo : List V) × Has v vs × Has combo combos × (l ≡ v ∷ combo)
  prefixed-source [] combos l h = elim h [ ]
  prefixed-source (v ∷ vs) combos l h = elim (append-Has (map (λ combo. v ∷ combo) combos) h) [
    | inl k ↦ let (c, m, e) = map-source (λ combo. v ∷ combo) l combos k in (v, c, here refl, m, e)
    | inr k ↦ let (u, c, m, n, e) = prefixed-source vs combos l k in (u, c, there m, n, e)
  ]

  grid_candidates_complete :
      (grid : Dict (List V)) (p : ParamSet V)
      → Chooses grid p
      → (combo : List V) × Has combo (product (values grid)) × (p ≡ zip_params (keys grid) combo)
  grid_candidates_complete [] [] none_left = ([], here refl, refl)
  grid_candidates_complete [] (_ ∷ p) h = elim h [ ]
  grid_candidates_complete (_ ∷ grid) [] h = elim h [ ]
  grid_candidates_complete ((k, vs) ∷ grid) ((_, v) ∷ p) (choose h c) =
      let (combo, m, e) = grid_candidates_complete grid p c in
      (v ∷ combo, prefixed-Has h m, ap (λ q. (k, v) ∷ q) e)

  grid_candidates_sound :
      (grid : Dict (List V)) (combo : List V)
      → Has combo (product (values grid))
      → Chooses grid (zip_params (keys grid) combo)
  grid_candidates_sound [] combo h = none_left
  grid_candidates_sound ((k, vs) ∷ grid) combo h =
      let (v, c, m, n, e) = prefixed-source vs (product (values grid)) combo h in
      subst (λ l. Chooses ((k, vs) ∷ grid) (zip_params (k ∷ keys grid) l)) (sym e)
        (choose m (grid_candidates_sound grid c n))

  pub grid_candidates_lem :
      (grid : Dict (List V)) (p : ParamSet V)
      → (length (grid_candidates grid) ≡ grid_count grid)
        × (Has p (grid_candidates grid) ↔ Chooses grid p)
  unfolding grid_candidates
  grid_candidates_lem grid p = (
    length-grid_candidates grid,
    (
      (λ h.
          let (c, m, e) = map-source (zip_params (keys grid)) p (product (values grid)) h in
          subst (Chooses grid) (sym e) (grid_candidates_sound grid c m)),
      (λ h.
          let (c, m, e) = grid_candidates_complete grid p h in
          subst (λ q. Has q (grid_candidates grid)) (sym e) (map-Has (zip_params (keys grid)) m)),
    ),
  )
