-- ===== src/Sorting.antt =====
-- Sorting by insertion: Python's `sorted`, and the `ORDER BY` of a concrete engine.
use mathlib.Core.List.{Permᴰ}
use mathlib.Core.List.Permᴰ.{refl as perm_refl}
use dox.Prelude.{refl, Bool, List, [], ◌∷◌, All, inl, inr, Bool-cases, if◌then◌else◌}

module _ {A : Type 0} (goes_first : A → A → Bool) where
  unfoldable pub insert_sorted : A → List A → List A
  insert_sorted x [] = x ∷ []
  insert_sorted x (y ∷ ys) = if goes_first x y then x ∷ y ∷ ys else y ∷ insert_sorted x ys

  unfoldable pub sort : List A → List A
  unfolding insert_sorted
  sort [] = []
  sort (x ∷ xs) = insert_sorted x (sort xs)

  insert_sorted-perm : (x : A) (ys : List A) → Permᴰ (insert_sorted x ys) (x ∷ ys)
  unfolding insert_sorted
  insert_sorted-perm x [] = perm_refl (x ∷ [])
  insert_sorted-perm x (y ∷ ys) = elim (Bool-cases (goes_first x y)) [
    | inl first ↦ rw first (perm_refl (x ∷ y ∷ ys))
    | inr later ↦
        rw later (Permᴰ.trans (Permᴰ.cons refl (insert_sorted-perm x ys)) (Permᴰ.swap refl refl))
  ]

  pub sort-perm : (xs : List A) → Permᴰ (sort xs) xs
  unfolding sort
  sort-perm [] = Permᴰ.nil
  sort-perm (x ∷ xs) = Permᴰ.trans (insert_sorted-perm x (sort xs)) (Permᴰ.cons refl (sort-perm xs))

  pub insert_sorted-All :
      (P : A → Type 0) (x : A) (ys : List A) → P x → All P ys → All P (insert_sorted x ys)
  unfolding insert_sorted
  insert_sorted-All P x [] h a = (h, tt)
  insert_sorted-All P x (y ∷ ys) h a = elim (Bool-cases (goes_first x y)) [
    | inl first ↦ rw first (h, a)
    | inr later ↦ rw later (a.0, insert_sorted-All P x ys h a.1)
  ]
