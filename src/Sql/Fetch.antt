-- ===== src/Sql/Fetch.antt =====
-- A query for one row, whatever order the engine finds the rows in.
use mathlib.Core.List.{Permᴰ}
use dox.Prelude.{
  ◌&&◌, if◌then◌else◌, ap, ◌≡◌, refl, ◌∙◌, Bool, true, false, List, [], ◌∷◌, Option, none, some,
  inl, inr, arith, All, filter, Eq, ◌==◌, Bool-cases, ap,
}
use dox.Result.{Result, ok, err, multiple_results}
use dox.Sql.{Sql, fetch}
use dox.Sql.Rows.{Distinct, find}

module _ {A : Type 0} where
  -- What `scalar_one_or_none` makes of the rows.
  abbrev pub one_or_none : List A → Result (Option A)
  one_or_none [] = ok none
  one_or_none (x ∷ []) = ok (some x)
  one_or_none (x ∷ y ∷ l) = err multiple_results

  one_or_none-cons :
      {a b : A} {xs ys : List A}
      → a ≡ b
      → Permᴰ xs ys
      → one_or_none xs ≡ one_or_none ys
      → one_or_none (a ∷ xs) ≡ one_or_none (b ∷ ys)
  one_or_none-cons {xs = []} {ys = []} e p h = ap (λ x. ok (some x)) e
  one_or_none-cons {xs = []} {ys = y ∷ []} e p h = cc
  one_or_none-cons {xs = []} {ys = y ∷ y' ∷ ys} e p h = cc
  one_or_none-cons {xs = x ∷ []} {ys = []} e p h = cc
  one_or_none-cons {xs = x ∷ x' ∷ xs} {ys = []} e p h = cc
  one_or_none-cons {xs = x ∷ xs} {ys = y ∷ ys} e p h = refl

  one_or_none-perm : {xs ys : List A} → Permᴰ xs ys → one_or_none xs ≡ one_or_none ys
  one_or_none-perm Permᴰ.nil = refl
  one_or_none-perm (Permᴰ.cons e p) = one_or_none-cons e p (one_or_none-perm p)
  one_or_none-perm (Permᴰ.swap e f) = refl
  one_or_none-perm (Permᴰ.trans p q) = one_or_none-perm p ∙ one_or_none-perm q

  scalar-one_or_none : (sql : Sql) (xs : List A) → sql.scalar_one_or_none A xs ≡ one_or_none xs
  scalar-one_or_none sql [] = sql.scalar_nil A
  scalar-one_or_none sql (x ∷ []) = sql.scalar_one A x
  scalar-one_or_none sql (x ∷ y ∷ l) = sql.scalar_many A x y l

  -- The result depends on the rows that pass alone.
  pub fetch_lem :
      (sql : Sql) (p : A → Bool) (rows : List A) → fetch sql p rows ≡ one_or_none (filter p rows)
  unfolding fetch
  fetch_lem sql p rows =
      scalar-one_or_none sql (sql.select A p rows) ∙ one_or_none-perm (sql.select_perm A p rows)

  none_left :
      {K : Type 0} ⦃e : Eq K⦄ (key : A → K) (x : A) (k : K) (xs : List A)
      → (key x == k) ≡ true
      → All (λ y. (key x == key y) ≡ false) xs
      → filter (λ r. key r == k) xs ≡ []
  none_left key x k [] h a = refl
  none_left ⦃e⦄ key x k (y ∷ xs) h a = ground (
    arith,
    e.same_iff (key x) k,
    e.same_iff (key x) (key y),
    e.same_iff (key y) k,
    none_left key x k xs h a.1,
  )

  filter-find :
      {K : Type 0} ⦃e : Eq K⦄ (key : A → K) (k : K) (rows : List A)
      → Distinct key rows
      → one_or_none (filter (λ r. key r == k) rows) ≡ ok (find key k rows)
  unfolding find
  filter-find key k [] d = refl
  filter-find key k (x ∷ rows) d = elim (Bool-cases (key x == k)) [
    | inl hit ↦ rw (hit, none_left key x k rows hit d.0)
    | inr miss ↦ rw miss (filter-find key k rows d.1)
  ]

  -- With a unique key the query finds the row of the key and never raises.
  pub fetch-find :
      (sql : Sql) {K : Type 0} ⦃e : Eq K⦄ (key : A → K) (k : K) (rows : List A)
      → Distinct key rows
      → fetch sql (λ r. key r == k) rows ≡ ok (find key k rows)
  fetch-find sql key k rows d = fetch_lem sql (λ r. key r == k) rows ∙ filter-find key k rows d

  -- The row, where there is one and it passes a test.
  abbrev pub passing : (A → Bool) → Option A → Option A
  passing q none = none
  passing q (some r) = if q r then some r else none

  filter-and : (p q : A → Bool) (xs : List A) → filter (λ r. p r && q r) xs ≡ filter q (filter p xs)
  filter-and p q [] = refl
  filter-and p q (x ∷ xs) = ground (arith, filter-and p q xs)

  filter-passing :
      {K : Type 0} ⦃e : Eq K⦄ (key : A → K) (q : A → Bool) (k : K) (rows : List A)
      → Distinct key rows
      → one_or_none (filter q (filter (λ r. key r == k) rows)) ≡ ok (passing q (find key k rows))
  unfolding find
  filter-passing key q k [] d = refl
  filter-passing key q k (x ∷ rows) d = elim (Bool-cases (key x == k)) [
    | inl hit ↦ rw (hit, none_left key x k rows hit d.0) (ground arith)
    | inr miss ↦ rw miss (filter-passing key q k rows d.1)
  ]

  -- The same for a query that asks for a key and for a test.
  pub fetch-passing :
      (sql : Sql) {K : Type 0} ⦃e : Eq K⦄ (key : A → K) (q : A → Bool) (k : K) (rows : List A)
      → Distinct key rows
      → fetch sql (λ r. (key r == k) && q r) rows ≡ ok (passing q (find key k rows))
  fetch-passing sql key q k rows d =
      fetch_lem sql (λ r. (key r == k) && q r) rows
      ∙ (ap one_or_none (filter-and (λ r. key r == k) q rows) ∙ filter-passing key q k rows d)
