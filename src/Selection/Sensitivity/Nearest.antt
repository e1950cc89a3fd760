-- ===== src/Selection/Sensitivity/Nearest.antt =====
-- The neighbourhood of a candidate holds the nearest trials.
use strategy_gpt.Prelude.Int.{pos}
use strategy_gpt.Prelude.Floats.{Float, IsOrdered}
use strategy_gpt.Prelude.Sorting.{
  length-sorted_desc, sorted_desc, sorted_desc-perm, sorted_desc-IsDescending, IsDescending,
  IsWeakOrder,
}
use mathlib.Core.List.{Perm}
use strategy_gpt.Prelude.{
  ℕ, Bool, false, List, [], ◌∷◌, Option, ◌≡◌, ◌++◌, map, inl, inr, ◌⊎◌, take, drop, min, length,
  arith, refl, All, zero, suc, subst, sym, take-append-drop, length-take, true, filter, Bool-cases,
}
use strategy_gpt.Selection.Candidates.{SensitivityResult}
use strategy_gpt.Selection.Sensitivity.{
  SensitivityKnobs, is_farther, mean_of, std_of, result_among, TrialPoint, compute_sensitivity,
  pool_of, keys_from, distance, min_max_ranges,
}

module _ {ℓ} {A : Type ℓ} (less : A → A → Bool) where
  All-drop : (P : A → Type 0) (n : ℕ) (l : List A) → All P l → All P (drop n l)
  All-drop P zero l h = h
  All-drop P (suc n) [] h = h
  All-drop P (suc n) (x ∷ l) h = All-drop P n l h.1

  -- In a descending list nothing that is taken is less than anything that is dropped.
  take_above_drop :
      (n : ℕ) (l : List A)
      → IsDescending less l
      → All (λ x. All (λ y. less x y ≡ false) (drop n l)) (take n l)
  take_above_drop zero l d = tt
  take_above_drop (suc n) [] d = tt
  take_above_drop (suc n) (x ∷ l) d =
      (All-drop (λ y. less x y ≡ false) n l d.0, take_above_drop n l d.1)

module _ {F V : Type 0} (f : Float F) (order : IsOrdered f) (number : V → Option F)
    (same : V → V → Bool) (is_finite : F → Bool) (pstdev : List F → F) where
  abbrev farther : F × F → F × F → Bool
  farther = is_farther f number same is_finite pstdev

  farther-IsWeakOrder : IsWeakOrder farther
  farther-IsWeakOrder = record {
    asymm = λ a b. order.lt_asymm b.0 a.0;
    cotrans = λ a b c h k. order.lt_cotrans c.0 b.0 a.0 k h;
  }

  -- The points with a finite score, in order.
  pub data FiniteScores : List (TrialPoint F V) → List (TrialPoint F V) → Type 0 where
    no_points : FiniteScores [] []
    finite :
        {p : TrialPoint F V} {ps qs : List (TrialPoint F V)}
        → is_finite p.score ≡ true
        → FiniteScores ps qs
        → FiniteScores (p ∷ ps) (p ∷ qs)
    not_finite :
        {p : TrialPoint F V} {ps qs : List (TrialPoint F V)}
        → is_finite p.score ≡ false
        → FiniteScores ps qs
        → FiniteScores (p ∷ ps) qs

  abbrev finite_of : List (TrialPoint F V) → List (TrialPoint F V)
  finite_of = filter (λ (p : TrialPoint F V). is_finite p.score)

  filter-FiniteScores : (points : List (TrialPoint F V)) → FiniteScores points (finite_of points)
  filter-FiniteScores [] = no_points
  filter-FiniteScores (p ∷ ps) = elim (Bool-cases (is_finite p.score)) [
    | inl e ↦ rw e (finite e (filter-FiniteScores ps))
    | inr e ↦ rw e (not_finite e (filter-FiniteScores ps))
  ]

  pool_of-FiniteScores :
      (candidate : TrialPoint F V) (history : List (TrialPoint F V))
      → FiniteScores
          (candidate ∷ history)
          (pool_of f number same is_finite pstdev candidate history)
  pool_of-FiniteScores candidate history = elim (Bool-cases (is_finite candidate.score)) [
    | inl e ↦ rw e (finite e (filter-FiniteScores history))
    | inr e ↦ rw e (not_finite e (filter-FiniteScores history))
  ]

  -- The pairs of a distance and a score, split into the neighbours and the rest.
  pub record IsNearest (knobs : SensitivityKnobs F) (raw : F) (distances : List (F × F))
      (r : SensitivityResult F) : Type 0 where
    pub near : List (F × F)
    pub far : List (F × F)
    pub all_pairs : Perm (near ++ far) distances
    pub used :
        (r.neighbors_used ≡ min knobs.neighborhood_k (length distances))
        × (r.neighbors_used ≡ length near)
    pub nearest : All (λ a. All (λ b. f.lt b.0 a.0 ≡ false) far) near
    pub mean :
        r.neighborhood_mean ≡ mean_of f number same is_finite pstdev (map (λ (t : F × F). t.1) near)
    pub std :
        r.neighborhood_std ≡ std_of f number same is_finite pstdev (map (λ (t : F × F). t.1) near)
    pub robust : r.robust_score ≡ f.sub r.neighborhood_mean (f.mul knobs.penalty r.neighborhood_std)
    pub raw_score : r.raw_score ≡ raw

  abbrev among : SensitivityKnobs F → F → List (F × F) → SensitivityResult F
  among = result_among f number same is_finite pstdev

  result_among-IsNearest :
      (knobs : SensitivityKnobs F) (raw : F) (d : F × F) (distances : List (F × F))
      → IsNearest knobs raw (d ∷ distances) (among knobs raw (d ∷ distances))
  result_among-IsNearest knobs raw d distances =
      let k = min knobs.neighborhood_k (length (d ∷ distances)) in
      let sorted = sorted_desc farther (d ∷ distances) in
      record {
        near = take k sorted;
        far = drop k sorted;
        all_pairs =
            subst (λ l. Perm l (d ∷ distances)) (sym (take-append-drop k sorted))
              (sorted_desc-perm farther (d ∷ distances));
        used =
            (refl, omega (arith, length-take k sorted, length-sorted_desc farther (d ∷ distances)));
        nearest =
            take_above_drop farther k sorted
              (sorted_desc-IsDescending farther farther-IsWeakOrder (d ∷ distances));
        mean = refl;
        std = refl;
        robust = refl;
        raw_score = refl;
      }

  -- The result without neighbours.
  abbrev pub unchanged : F → SensitivityResult F
  unchanged raw = record {
    raw_score = raw;
    neighborhood_mean = raw;
    neighborhood_std = f.literal (pos 0) 0;
    robust_score = raw;
    neighbors_used = 0;
  }

  result_over_pool :
      (knobs : SensitivityKnobs F) (raw : F) (pair : TrialPoint F V → F × F)
      (pool : List (TrialPoint F V))
      → ((pool ≡ []) × (among knobs raw (map pair pool) ≡ unchanged raw))
        ⊎ IsNearest knobs raw (map pair pool) (among knobs raw (map pair pool))
  result_over_pool knobs raw pair [] = inl (refl, refl)
  result_over_pool knobs raw pair (p ∷ pool) =
      inr (result_among-IsNearest knobs raw (pair p) (map pair pool))

  -- The distance of a point from the candidate, over all keys and ranges, and its score.
  abbrev pub measured : TrialPoint F V → List (TrialPoint F V) → TrialPoint F V → F × F
  measured candidate history p =
      let ks = keys_from [] (candidate ∷ history) in
      (
        distance f number same is_finite pstdev candidate.params p.params ks
            (min_max_ranges f number same is_finite pstdev (candidate ∷ history) ks),
        p.score,
      )

  -- Where floats are totally ordered, the score is unchanged if neither the candidate nor a trial
  -- has a finite score. Else it is the mean, less the penalty on the spread, of as many of the
  -- finite scores of the candidate and the trials as there are or as the knobs ask for, and none of
  -- the others is nearer.
  pub compute_sensitivity-IsNearest :
      (candidate : TrialPoint F V) (history : List (TrialPoint F V)) (knobs : SensitivityKnobs F)
      → (pool : List (TrialPoint F V)) × FiniteScores (candidate ∷ history) pool
        × (((pool ≡ [])
              × (compute_sensitivity f number same is_finite pstdev candidate history knobs
                  ≡ unchanged candidate.score))
            ⊎ IsNearest knobs candidate.score
                (map (measured candidate history) pool)
                (compute_sensitivity f number same is_finite pstdev candidate history knobs))
  unfolding compute_sensitivity
  compute_sensitivity-IsNearest candidate history knobs =
      let pool = pool_of f number same is_finite pstdev candidate history in
      (
        pool,
        pool_of-FiniteScores candidate history,
        result_over_pool knobs candidate.score (measured candidate history) pool,
      )
