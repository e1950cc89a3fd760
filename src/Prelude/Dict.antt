-- ===== src/Prelude/Dict.antt =====
-- Python's `dict` with `str` keys: pairs in insertion order. A key that is assigned again keeps its
-- place.
use text.Mathlib.Text.{◌==◌}
use text.Mathlib.TextEquality.{eq_iff}
use strategy_gpt.Prelude.{
  String, ◌≡◌, ◌≢◌, refl, ap, inl, inr, true, false, Option, none, some, List, [], ◌∷◌, map,
  Bool-cases, if◌then◌else◌, arith, Bool, sym, ◌∙◌, ◌⊎◌, ◌||◌,
}

abbrev pub Dict {ℓ} : Type ℓ → Type ℓ
Dict A = List (String × A)

module _ {ℓ} {A : Type ℓ} where
  -- `d.get(key)`
  unfoldable pub lookup : String → Dict A → Option A
  lookup key [] = none
  lookup key ((k, v) ∷ d) = let rest = lookup key d in if k == key then some v else rest

  -- `d[key] = value`
  unfoldable pub assign : String → A → Dict A → Dict A
  assign key value [] = (key, value) ∷ []
  assign key value ((k, v) ∷ d) =
      let rest = assign key value d in if k == key then (k, value) ∷ d else (k, v) ∷ rest

  -- `d.pop(key, None)`, without the value.
  unfoldable pub remove : String → Dict A → Dict A
  remove key [] = []
  remove key ((k, v) ∷ d) = let rest = remove key d in if k == key then rest else (k, v) ∷ rest

  abbrev pub keys : Dict A → List String
  keys d = map (λ (e : String × A). e.0) d

  abbrev pub values : Dict A → List A
  values d = map (λ (e : String × A). e.1) d

-- The test of two names, by a decision.
pub eq_refl : (s : String) → (s == s) ≡ true
eq_refl s = (eq_iff s s).1 refl

pub ne_false : (s t : String) → s ≢ t → (s == t) ≡ false
ne_false s t h = elim (Bool-cases (s == t)) [ inl e ↦ absurd (h ((eq_iff s t).0 e)) | inr e ↦ e ]

module _ {ℓ} {A : Type ℓ} where
  pub lookup-assign_self : (k : String) (v : A) (d : Dict A) → lookup k (assign k v d) ≡ some v
  unfolding lookup assign
  lookup-assign_self k v [] = ground (arith, eq_refl k)
  lookup-assign_self k v ((j, u) ∷ d) = elim (Bool-cases (j == k)) [
    | inl e ↦ ground (arith, e)
    | inr e ↦ ground (arith, e, lookup-assign_self k v d)
  ]

  pub lookup-assign_other :
      (i k : String) (v : A) (d : Dict A) → (k == i) ≡ false → lookup i (assign k v d) ≡ lookup i d
  unfolding lookup assign
  lookup-assign_other i k v [] h = ground (arith, h)
  lookup-assign_other i k v ((j, u) ∷ d) h = elim (Bool-cases (j == k)) [
    | inl e ↦ ground (arith, e, ap (λ s. s == i) ((eq_iff j k).0 e), h)
    | inr e ↦ ground (arith, e, lookup-assign_other i k v d h)
  ]

  pub lookup-remove_self : (k : String) (d : Dict A) → lookup k (remove k d) ≡ none
  unfolding lookup remove
  lookup-remove_self k [] = refl
  lookup-remove_self k ((j, u) ∷ d) = elim (Bool-cases (j == k)) [
    | inl e ↦ ground (arith, e, lookup-remove_self k d)
    | inr e ↦ ground (arith, e, lookup-remove_self k d)
  ]

  pub lookup-remove_other :
      (i k : String) (d : Dict A) → (k == i) ≡ false → lookup i (remove k d) ≡ lookup i d
  unfolding lookup remove
  lookup-remove_other i k [] h = refl
  lookup-remove_other i k ((j, u) ∷ d) h = elim (Bool-cases (j == k)) [
    | inl e ↦ ground (arith, e, ap (λ s. s == i) ((eq_iff j k).0 e), h, lookup-remove_other i k d h)
    | inr e ↦ ground (arith, e, lookup-remove_other i k d h)
  ]

  -- A dict in which no key is found is empty.
  pub lookup-none : (d : Dict A) → ((k : String) → lookup k d ≡ none) → d ≡ []
  unfolding lookup
  lookup-none [] h = refl
  lookup-none ((j, u) ∷ d) h = absurd (ground (arith, h j, eq_refl j))

-- `key in names`
abbrev pub among : String → List String → Bool
among key [] = false
among key (n ∷ names) = (n == key) || among key names

module _ {ℓ} {A : Type ℓ} where
  pub lookup-among : (k : String) (d : Dict A) → among k (keys d) ≡ false → lookup k d ≡ none
  unfolding lookup
  lookup-among k [] h = refl
  lookup-among k ((j, u) ∷ d) h = elim (Bool-cases (j == k)) [
    | inl e ↦ ground (arith, e)
    | inr e ↦ ground (arith, e, lookup-among k d)
  ]

  pub lookup-assign-none :
      (i k : String) (v : A) (d : Dict A) → lookup i (assign k v d) ≡ none → lookup i d ≡ none
  lookup-assign-none i k v d h = elim (Bool-cases (k == i)) [
    | inl e ↦ absurd (ground (arith, (eq_iff k i).0 e, lookup-assign_self i v d))
    | inr e ↦ sym (lookup-assign_other i k v d e) ∙ h
  ]

  pub lookup-remove-none :
      (i k : String) (d : Dict A) → lookup i d ≡ none → lookup i (remove k d) ≡ none
  lookup-remove-none i k d h = elim (Bool-cases (k == i)) [
    | inl e ↦ rw ((eq_iff k i).0 e) (lookup-remove_self i d)
    | inr e ↦ lookup-remove_other i k d e ∙ h
  ]

  abbrev pub remove_all : List String → Dict A → Dict A
  remove_all [] d = d
  remove_all (n ∷ names) d = remove_all names (remove n d)

  pub lookup-remove_all-none :
      (k : String) (names : List String) (d : Dict A)
      → (lookup k d ≡ none) ⊎ (among k names ≡ true)
      → lookup k (remove_all names d) ≡ none
  lookup-remove_all-none k [] d h = ground arith
  lookup-remove_all-none k (n ∷ names) d h = elim (Bool-cases (n == k)) [
    | inl e ↦
        lookup-remove_all-none k names (remove n d)
          (inl (rw ((eq_iff n k).0 e) (lookup-remove_self k d)))
    | inr e ↦
        lookup-remove_all-none k names (remove n d) (ground (arith, e, lookup-remove-none k n d))
  ]

  -- A dict loses all its entries by its keys.
  pub remove_all-keys : (d : Dict A) → remove_all (keys d) d ≡ []
  remove_all-keys d = lookup-none (remove_all (keys d) d) (λ k.
      lookup-remove_all-none k (keys d) d
        (elim (Bool-cases (among k (keys d))) [ inl e ↦ inr e | inr e ↦ inl (lookup-among k d e) ]))
