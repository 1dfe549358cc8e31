-- ===== src/Sql/Pages.antt =====
-- `.limit(limit).offset(offset)`: the pages of a list, and the length and order of what a query
-- returns.
use dox.Prelude.{
  ℕ, zero, suc, ◌+◌, ◌-◌, ◌≡◌, refl, sym, ap, List, [], ◌∷◌, ◌++◌, length, arith, take, drop, min,
  All, ℕ_eq,
}
use dox.Sql.{page}

module _ {A : Type 0} where
  pub length-page :
      (limit offset : ℕ) (xs : List A)
      → length (page limit offset xs) ≡ min limit (length xs - offset)
  length-page zero offset xs = omega arith
  length-page (suc n) zero [] = omega arith
  length-page (suc n) zero (x ∷ xs) = omega (arith, length-page n 0 xs)
  length-page (suc n) (suc k) [] = omega arith
  length-page (suc n) (suc k) (x ∷ xs) = omega (arith, length-page (suc n) k xs)

  pub All-page :
      (P : A → Type 0) (limit offset : ℕ) (xs : List A) → All P xs → All P (page limit offset xs)
  All-page P zero offset xs h = tt
  All-page P (suc n) zero [] h = tt
  All-page P (suc n) zero (x ∷ xs) h = (h.0, All-page P n 0 xs h.1)
  All-page P (suc n) (suc k) [] h = tt
  All-page P (suc n) (suc k) (x ∷ xs) h = All-page P (suc n) k xs h.1

  abbrev empty : List A
  empty = []

  take-nil : (m : ℕ) → take m empty ≡ []
  take-nil zero = refl
  take-nil (suc m) = refl

  drop-nil : (m : ℕ) → drop m empty ≡ []
  drop-nil zero = refl
  drop-nil (suc m) = refl

  take-append : (n m : ℕ) (xs : List A) → take n xs ++ take m (drop n xs) ≡ take (n + m) xs
  take-append zero m xs = let e : 0 + m ≡ m = omega arith in rw e refl
  take-append (suc n) m [] = let e : suc n + m ≡ suc (n + m) = omega arith in rw e (take-nil m)
  take-append (suc n) m (x ∷ xs) =
      let e : suc n + m ≡ suc (n + m) = omega arith in rw e (ap (λ l. x ∷ l) (take-append n m xs))

  drop-drop : (n k : ℕ) (xs : List A) → drop (n + k) xs ≡ drop k (drop n xs)
  drop-drop zero k xs = let e : 0 + k ≡ k = omega arith in rw e refl
  drop-drop (suc n) k [] = let e : suc n + k ≡ suc (n + k) = omega arith in rw e (sym (drop-nil k))
  drop-drop (suc n) k (x ∷ xs) =
      let e : suc n + k ≡ suc (n + k) = omega arith in rw e (drop-drop n k xs)

  -- Two pages in a row are one longer page.
  pub page-append :
      (offset n m : ℕ) (xs : List A)
      → page n offset xs ++ page m (offset + n) xs ≡ page (n + m) offset xs
  page-append offset n m xs = rw (drop-drop offset n xs) (take-append n m (drop offset xs))
