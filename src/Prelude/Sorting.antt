-- ===== src/Prelude/Sorting.antt =====
-- Python's `sorted(..., reverse=True)`: a stable sort, the greatest first. `less a b` is the test
-- `key(a) < key(b)`, the only one that the library makes.
use mathlib.Core.List.Perm
use mathlib.Core.List.{Perm, map}
use strategy_gpt.Prelude.{
  ℕ, zero, suc, take, length, ap, ◌≡◌, refl, ◌∙◌, Bool, true, false, List, [], ◌∷◌, arith,
  if◌then◌else◌, Bool-cases, inl, inr, All, filter, ℕ, suc,
}

module _ {ℓ} {A : Type ℓ} (less : A → A → Bool) where
  unfoldable pub insert_desc : A → List A → List A
  insert_desc x [] = x ∷ []
  insert_desc x (y ∷ ys) = if less x y then y ∷ insert_desc x ys else x ∷ y ∷ ys

  unfoldable pub sorted_desc : List A → List A
  unfolding insert_desc
  sorted_desc [] = []
  sorted_desc (x ∷ xs) = insert_desc x (sorted_desc xs)

  insert_desc-perm : (x : A) (l : List A) → Perm (insert_desc x l) (x ∷ l)
  unfolding insert_desc
  insert_desc-perm x [] = Perm.refl (x ∷ [])
  insert_desc-perm x (y ∷ ys) = elim (Bool-cases (less x y)) [
    | inl t ↦ rw t (Perm.trans (Perm.cons y (insert_desc-perm x ys)) (Perm.swap x y ys))
    | inr f ↦ rw f (Perm.refl (x ∷ y ∷ ys))
  ]

  pub sorted_desc-perm : (l : List A) → Perm (sorted_desc l) l
  unfolding sorted_desc
  sorted_desc-perm [] = Perm.refl []
  sorted_desc-perm (x ∷ xs) =
      Perm.trans (insert_desc-perm x (sorted_desc xs)) (Perm.cons x (sorted_desc-perm xs))

  -- No element stands before one with a greater key.
  abbrev pub IsDescending : List A → Type 0
  IsDescending [] = Unit
  IsDescending (x ∷ xs) = All (λ y. less x y ≡ false) xs × IsDescending xs

  pub record IsWeakOrder : Type ℓ where
    pub asymm : (a b : A) → less a b ≡ true → less b a ≡ false
    pub cotrans : (a b c : A) → less a b ≡ false → less b c ≡ false → less a c ≡ false

  -- Elements with equal keys keep their order.
  insert_desc-filter :
      (test : A → Bool) (x : A) (l : List A)
      → ((a b : A) → test a ≡ true → test b ≡ true → less a b ≡ false)
      → filter test (insert_desc x l) ≡ filter test (x ∷ l)
  unfolding insert_desc
  insert_desc-filter test x [] alike = refl
  insert_desc-filter test x (y ∷ ys) alike =
      ground (arith, alike x y, insert_desc-filter test x ys alike)

  pub sorted_desc-filter :
      (test : A → Bool) (l : List A)
      → ((a b : A) → test a ≡ true → test b ≡ true → less a b ≡ false)
      → filter test (sorted_desc l) ≡ filter test l
  unfolding sorted_desc
  sorted_desc-filter test [] alike = refl
  sorted_desc-filter test (x ∷ xs) alike =
      insert_desc-filter test x (sorted_desc xs) alike
      ∙ (ground (arith, sorted_desc-filter test xs alike))

module _ {ℓ} {A : Type ℓ} (less : A → A → Bool) (order : IsWeakOrder less) where
  All-insert_desc :
      (P : A → Type 0) (x : A) (l : List A) → P x → All P l → All P (insert_desc less x l)
  unfolding insert_desc
  All-insert_desc P x [] px h = (px, tt)
  All-insert_desc P x (y ∷ ys) px h = ground (arith, All-insert_desc P x ys px h.1)

  pub All-sorted_desc : (P : A → Type 0) (l : List A) → All P l → All P (sorted_desc less l)
  unfolding sorted_desc
  All-sorted_desc P [] h = tt
  All-sorted_desc P (x ∷ xs) h =
      All-insert_desc P x (sorted_desc less xs) h.0 (All-sorted_desc P xs h.1)

  All-cotrans :
      (x y : A) (l : List A)
      → less x y ≡ false
      → All (λ z. less y z ≡ false) l
      → All (λ z. less x z ≡ false) l
  All-cotrans x y [] e h = tt
  All-cotrans x y (z ∷ l) e h = (order.cotrans x y z e h.0, All-cotrans x y l e h.1)

  insert_desc-IsDescending :
      (x : A) (l : List A) → IsDescending less l → IsDescending less (insert_desc less x l)
  unfolding insert_desc
  insert_desc-IsDescending x [] h = (tt, tt)
  insert_desc-IsDescending x (y ∷ ys) h = elim (Bool-cases (less x y)) [
    | inl t ↦ rw t (
      All-insert_desc (λ z. less y z ≡ false) x ys (order.asymm x y t) h.0,
      insert_desc-IsDescending x ys h.1,
    )
    | inr f ↦ rw f ((f, All-cotrans x y ys f h.0), h)
  ]

  pub sorted_desc-IsDescending : (l : List A) → IsDescending less (sorted_desc less l)
  unfolding sorted_desc
  sorted_desc-IsDescending [] = tt
  sorted_desc-IsDescending (x ∷ xs) =
      insert_desc-IsDescending x (sorted_desc less xs) (sorted_desc-IsDescending xs)

module _ {ℓ} {A : Type ℓ} (less : A → A → Bool) where
  pub All-take : (P : A → Type 0) (n : ℕ) (l : List A) → All P l → All P (take n l)
  All-take P zero l h = tt
  All-take P (suc n) [] h = tt
  All-take P (suc n) (x ∷ xs) h = (h.0, All-take P n xs h.1)

  pub IsDescending-take : (n : ℕ) (l : List A) → IsDescending less l → IsDescending less (take n l)
  IsDescending-take zero l h = tt
  IsDescending-take (suc n) [] h = tt
  IsDescending-take (suc n) (x ∷ xs) h =
      (All-take (λ y. less x y ≡ false) n xs h.0, IsDescending-take n xs h.1)

-- Sorting by a key that the map keeps.
module _ {ℓ κ} {A : Type ℓ} {B : Type κ} (less : B → B → Bool) (g : A → B) where
  insert_desc-map :
      (x : A) (l : List A)
      → insert_desc less (g x) (map g l) ≡ map g (insert_desc (λ a b. less (g a) (g b)) x l)
  unfolding insert_desc
  insert_desc-map x [] = refl
  insert_desc-map x (y ∷ ys) = elim (Bool-cases (less (g x) (g y))) [
    | inl t ↦ rw (t, insert_desc-map x ys) refl
    | inr f ↦ rw f refl
  ]

  pub sorted_desc-map :
      (l : List A) → sorted_desc less (map g l) ≡ map g (sorted_desc (λ a b. less (g a) (g b)) l)
  unfolding sorted_desc
  sorted_desc-map [] = refl
  sorted_desc-map (x ∷ xs) = rw (sorted_desc-map xs) (insert_desc-map x (sorted_desc _ xs))

-- What holds of all sorted elements holds of all.
module _ {ℓ} {A : Type ℓ} (less : A → A → Bool) (P : A → Type 0) where
  All-of_inserted : (x : A) (l : List A) → All P (insert_desc less x l) → P x × All P l
  unfolding insert_desc
  All-of_inserted x [] h = (h.0, tt)
  All-of_inserted x (y ∷ ys) h = elim (Bool-cases (less x y)) [
    | inl t ↦
        let (first, rest) = rw t at h in
        let (px, pys) = All-of_inserted x ys rest in (px, (first, pys))
    | inr f ↦ let (px, rest) = rw f at h in (px, rest)
  ]

  pub All-of_sorted : (l : List A) → All P (sorted_desc less l) → All P l
  unfolding sorted_desc
  All-of_sorted [] h = tt
  All-of_sorted (x ∷ xs) h =
      let (px, rest) = All-of_inserted x (sorted_desc less xs) h in (px, All-of_sorted xs rest)

module _ {ℓ} {A : Type ℓ} (less : A → A → Bool) where
  length-insert_desc : (x : A) (l : List A) → length (insert_desc less x l) ≡ suc (length l)
  unfolding insert_desc
  length-insert_desc x [] = refl
  length-insert_desc x (y ∷ ys) = elim (Bool-cases (less x y)) [
    | inl e ↦ rw e (ap suc (length-insert_desc x ys))
    | inr e ↦ rw e refl
  ]

  pub length-sorted_desc : (l : List A) → length (sorted_desc less l) ≡ length l
  unfolding sorted_desc
  length-sorted_desc [] = refl
  length-sorted_desc (x ∷ xs) =
      length-insert_desc x (sorted_desc less xs) ∙ ap suc (length-sorted_desc xs)
