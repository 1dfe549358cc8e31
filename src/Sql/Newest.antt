-- ===== src/Sql/Newest.antt =====
-- The newest row: the head of what a query in descending order leaves after a filter.
use mathlib.Core.List.{Mem, mem-cons_self, mem-cons_of_mem}
use dox.Prelude.{
  ℕ, ◌≤◌, ◌≡◌, refl, Bool, true, false, List, [], ◌∷◌, All, All-imp, All-perm, filter, ◌⊎◌, inl,
  inr, arith, Bool-cases,
}
use dox.Sql.{Sql, IsDescending}

module _ {A : Type 0} where
  pub All-Mem : (xs : List A) → All (λ x. Mem x xs) xs
  All-Mem [] = tt
  All-Mem (x ∷ xs) = (
    mem-cons_self,
    All-imp (λ y. Mem y xs) (λ y. Mem y (x ∷ xs)) xs (λ y h. mem-cons_of_mem x h) (All-Mem xs),
  )

  -- What holds of the rows that pass.
  All-passing :
      (P : A → Type 0) (p : A → Bool) (xs : List A)
      → All P (filter p xs)
      → All (λ x. p x ≡ true → P x) xs
  All-passing P p [] h = tt
  All-passing P p (x ∷ xs) h = elim (Bool-cases (p x)) [
    | inl hit ↦
        let found : P x × All P (filter p xs) = rw hit at h in
        (λ e. found.0, All-passing P p xs found.1)
    | inr miss ↦
        let others : All P (filter p xs) = rw miss at h in
        (λ e. cc (e, miss), All-passing P p xs others)
  ]

  All-chosen :
      (P : A → Type 0) (p : A → Bool) (xs : List A)
      → All P xs
      → All (λ x. P x × (p x ≡ true)) (filter p xs)
  All-chosen P p [] h = tt
  All-chosen P p (x ∷ xs) h = elim (Bool-cases (p x)) [
    | inl hit ↦ rw hit ((h.0, hit), All-chosen P p xs h.1)
    | inr miss ↦ rw miss (All-chosen P p xs h.1)
  ]

  -- In a list in descending order the first row that passes is the newest of those.
  first_passing :
      (P : A → Type 0) (key : A → ℕ) (q : A → Bool) (xs : List A)
      → IsDescending key xs
      → All P xs
      → ((filter q xs ≡ []) × All (λ x. q x ≡ false) xs)
        ⊎ ((r : A) × (rest : List A) × (filter q xs ≡ r ∷ rest)
            × P r
            × (q r ≡ true)
            × All (λ x. q x ≡ true → key x ≤ key r) xs)
  first_passing P key q [] sorted h = inl (refl, tt)
  first_passing P key q (x ∷ xs) sorted h = elim (Bool-cases (q x)) [
    | inl hit ↦ inr (
      x,
      filter q xs,
      rw hit refl,
      h.0,
      hit,
      (
        λ e. omega arith,
        All-imp (λ y. key y ≤ key x) (λ y. q y ≡ true → key y ≤ key x) xs (λ y p e. p) sorted.0,
      ),
    )
    | inr miss ↦ elim (first_passing P key q xs sorted.1 h.1) [
      | inl nothing ↦ inl (rw miss nothing.0, (miss, nothing.1))
      | inr (r, rest, found, good, passes, newest) ↦
          inr (r, rest, rw miss found, good, passes, (λ e. cc (e, miss), newest))
    ]
  ]

-- The first row that passes `q` among those that pass `p`, newest first: there is none, or it has what
-- every row of the table has, passes both tests, and no row that does is newer.
pub first-order_desc :
    (sql : Sql) {A : Type 0} (P : A → Type 0) (key : A → ℕ) (p q : A → Bool) (rows : List A)
    → All P rows
    → let found = filter q (sql.order_desc A key (sql.select A p rows)) in
      ((found ≡ []) × All (λ x. p x ≡ true → q x ≡ false) rows)
      ⊎ ((r : A) × (rest : List A) × (found ≡ r ∷ rest)
          × P r
          × (p r ≡ true)
          × (q r ≡ true)
          × All (λ x. p x ≡ true → q x ≡ true → key x ≤ key r) rows)
first-order_desc sql {A} P key p q rows h =
    let chosen = sql.select A p rows in
    let sorted = sql.order_desc A key chosen in
    let picked = sql.select_perm A p rows in
    let moved = sql.order_desc_perm A key chosen in
    let back : (Q : A → Type 0) → All Q sorted → All (λ x. p x ≡ true → Q x) rows =
      λ Q all. All-passing Q p rows ((All-perm Q picked).0 ((All-perm Q moved).0 all)) in
    let Good : A → Type 0 = λ r. P r × (p r ≡ true) in
    let good : All Good sorted =
      (All-perm Good moved).1 ((All-perm Good picked).1 (All-chosen P p rows h)) in
    elim (first_passing Good key q sorted (sql.order_desc_sorted A key chosen) good) [
      | inl nothing ↦ inl (nothing.0, back (λ x. q x ≡ false) nothing.1)
      | inr (r, rest, found, fine, passes, newest) ↦
          inr
            (r, rest, found, fine.0, fine.1, passes, back (λ x. q x ≡ true → key x ≤ key r) newest)
    ]
