-- ===== src/Prelude/Sorting.antt =====
-- Stable sorting, as `slices.SortStableFunc`, `slices.Sorted` and `sort.Strings` do it.
use mathlib.Core.Path.{◌≡◌, refl}
use mathlib.Core.Logic.{inl, inr}
use mathlib.Core.Bool.{Bool, true, false, ◌&&◌, ◌||◌}
use mathlib.Core.List.{List, [], ◌∷◌}
use native.Mathlib.Omega.{arith}
use kube_vnet.Prelude.Tests.{if◌then◌else◌, Bool-cases}
use kube_vnet.Prelude.Lists.{is_nil, any, all, All}

module _ {ℓ} {A : Type ℓ} (le : A → A → Bool) where
  -- Puts an element before the first one that it does not exceed.
  unfoldable pub place : A → List A → List A
  place x [] = x ∷ []
  place x (y ∷ ys) = if le x y then x ∷ y ∷ ys else y ∷ place x ys

  unfoldable pub sort : List A → List A
  unfolding place
  sort [] = []
  sort (x ∷ xs) = place x (sort xs)

  -- Each element is followed by elements that it does not exceed.
  abbrev pub IsSorted : List A → Type 0
  IsSorted [] = Unit
  IsSorted (x ∷ xs) = All (λ y. le x y ≡ true) xs × IsSorted xs

  any-place : (p : A → Bool) (x : A) (xs : List A) → any p (place x xs) ≡ (p x || any p xs)
  unfolding place
  any-place p x [] = refl
  any-place p x (y ∷ ys) = ground (arith, any-place p x ys)

  -- Sorting keeps the elements: a test holds of some element before as after.
  pub any-sort : (p : A → Bool) (xs : List A) → any p (sort xs) ≡ any p xs
  unfolding sort
  any-sort p [] = refl
  any-sort p (x ∷ xs) = ground (arith, any-place p x (sort xs), any-sort p xs)

  all-place : (p : A → Bool) (x : A) (xs : List A) → all p (place x xs) ≡ (p x && all p xs)
  unfolding place
  all-place p x [] = refl
  all-place p x (y ∷ ys) = ground (arith, all-place p x ys)

  pub all-sort : (p : A → Bool) (xs : List A) → all p (sort xs) ≡ all p xs
  unfolding sort
  all-sort p [] = refl
  all-sort p (x ∷ xs) = ground (arith, all-place p x (sort xs), all-sort p xs)

  is_nil-place : (x : A) (xs : List A) → is_nil (place x xs) ≡ false
  unfolding place
  is_nil-place x [] = refl
  is_nil-place x (y ∷ ys) = ground arith

  pub is_nil-sort : (xs : List A) → is_nil (sort xs) ≡ is_nil xs
  unfolding sort
  is_nil-sort [] = refl
  is_nil-sort (x ∷ xs) = is_nil-place x (sort xs)

  pub All-place {κ} : (P : A → Type κ) (x : A) (xs : List A) → P x → All P xs → All P (place x xs)
  unfolding place
  All-place P x [] px h = (px, tt)
  All-place P x (y ∷ ys) px h = elim (Bool-cases (le x y)) [
    | inl e ↦ rw e (px, h)
    | inr e ↦ rw e (h.0, All-place P x ys px h.1)
  ]

  pub All-sort {κ} : (P : A → Type κ) (xs : List A) → All P xs → All P (sort xs)
  unfolding sort
  All-sort P [] h = tt
  All-sort P (x ∷ xs) h = All-place P x (sort xs) h.0 (All-sort P xs h.1)

  place_of_All : (x : A) (xs : List A) → All (λ y. le x y ≡ true) xs → place x xs ≡ x ∷ xs
  unfolding place
  place_of_All x [] h = refl
  place_of_All x (y ∷ ys) h = rw h.0

  -- What is sorted stays as it is.
  pub sort_of_IsSorted : (xs : List A) → IsSorted xs → sort xs ≡ xs
  unfolding sort
  sort_of_IsSorted [] h = refl
  sort_of_IsSorted (x ∷ xs) h = rw (sort_of_IsSorted xs h.1) (place_of_All x xs h.0)

  -- A total and transitive test sorts.
  module _ (total : (x y : A) → le x y ≡ false → le y x ≡ true)
      (trans : (x y z : A) → le x y ≡ true → le y z ≡ true → le x z ≡ true) where
    All-le_trans :
        (x y : A) (ys : List A)
        → le x y ≡ true
        → All (λ z. le y z ≡ true) ys
        → All (λ z. le x z ≡ true) ys
    All-le_trans x y [] h a = tt
    All-le_trans x y (z ∷ zs) h a = (trans x y z h a.0, All-le_trans x y zs h a.1)

    place-IsSorted : (x : A) (xs : List A) → IsSorted xs → IsSorted (place x xs)
    unfolding place
    place-IsSorted x [] h = (tt, tt)
    place-IsSorted x (y ∷ ys) h = elim (Bool-cases (le x y)) [
      | inl e ↦ rw e ((e, All-le_trans x y ys e h.0), h)
      | inr e ↦ rw e (All-place _ x ys (total x y e) h.0, place-IsSorted x ys h.1)
    ]

    pub sort-IsSorted : (xs : List A) → IsSorted (sort xs)
    unfolding sort
    sort-IsSorted [] = tt
    sort-IsSorted (x ∷ xs) = place-IsSorted x (sort xs) (sort-IsSorted xs)
