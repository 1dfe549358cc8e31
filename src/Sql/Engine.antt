-- ===== src/Sql/Engine.antt =====
-- An engine that meets the laws: it scans the table and sorts by insertion.
use mathlib.Core.List.Permᴰ.{refl as perm_refl}
use dox.Prelude.{
  ℕ, ◌≤◌, refl, Bool, List, [], ◌∷◌, All-imp, inl, inr, filter, Bool-cases, arith, leb,
}
use dox.Sorting.{insert_sorted, sort, sort-perm, insert_sorted-All}
use dox.Sql.{Sql, IsAscending, IsDescending}
use dox.Sql.Fetch.{one_or_none}

module _ {A : Type 0} (key : A → ℕ) where
  abbrev pub before : A → A → Bool
  before x y = leb (key x) (key y)

  abbrev pub after : A → A → Bool
  after x y = leb (key y) (key x)

  insert-IsAscending :
      (x : A) (ys : List A) → IsAscending key ys → IsAscending key (insert_sorted before x ys)
  unfolding insert_sorted
  insert-IsAscending x [] h = (tt, tt)
  insert-IsAscending x (y ∷ ys) h = elim (Bool-cases (before x y)) [
    | inl first ↦ rw first (
      (
        ground arith,
        All-imp (λ z. key y ≤ key z) (λ z. key x ≤ key z) ys (λ z p. ground arith) h.0,
      ),
      h,
    )
    | inr later ↦ rw later (
      insert_sorted-All before (λ z. key y ≤ key z) x ys (ground arith) h.0,
      insert-IsAscending x ys h.1,
    )
  ]

  pub sort-IsAscending : (xs : List A) → IsAscending key (sort before xs)
  unfolding sort
  sort-IsAscending [] = tt
  sort-IsAscending (x ∷ xs) = insert-IsAscending x (sort before xs) (sort-IsAscending xs)

  insert-IsDescending :
      (x : A) (ys : List A) → IsDescending key ys → IsDescending key (insert_sorted after x ys)
  unfolding insert_sorted
  insert-IsDescending x [] h = (tt, tt)
  insert-IsDescending x (y ∷ ys) h = elim (Bool-cases (after x y)) [
    | inl first ↦ rw first (
      (
        ground arith,
        All-imp (λ z. key z ≤ key y) (λ z. key z ≤ key x) ys (λ z p. ground arith) h.0,
      ),
      h,
    )
    | inr later ↦ rw later (
      insert_sorted-All after (λ z. key z ≤ key y) x ys (ground arith) h.0,
      insert-IsDescending x ys h.1,
    )
  ]

  pub sort-IsDescending : (xs : List A) → IsDescending key (sort after xs)
  unfolding sort
  sort-IsDescending [] = tt
  sort-IsDescending (x ∷ xs) = insert-IsDescending x (sort after xs) (sort-IsDescending xs)

abbrev pub list_engine : Sql
list_engine = record {
  select = λ A p rows. filter p rows;
  select_perm = λ A p rows. perm_refl (filter p rows);
  order_asc = λ A key rows. sort (before key) rows;
  order_asc_perm = λ A key rows. sort-perm (before key) rows;
  order_asc_sorted = λ A key rows. sort-IsAscending key rows;
  order_desc = λ A key rows. sort (after key) rows;
  order_desc_perm = λ A key rows. sort-perm (after key) rows;
  order_desc_sorted = λ A key rows. sort-IsDescending key rows;
  scalar_one_or_none = λ A rows. one_or_none rows;
  scalar_nil = λ A. refl;
  scalar_one = λ A x. refl;
  scalar_many = λ A x y l. refl;
}
