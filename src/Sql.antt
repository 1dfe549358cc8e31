-- ===== src/Sql.antt =====
-- The database as the services use it through SQLAlchemy. The engine and the session are not code
-- of the repository: they are the parameter `Sql`, with the laws that SQL and SQLAlchemy document.
-- A table is the list of its committed rows. `commit` writes the changed object back to the row
-- of its primary key, and an insert obeys the unique keys that the models declare.
pub mod Rows
pub mod Fetch
pub mod Engine
pub mod Change
pub mod Pages
pub mod Newest
use mathlib.Core.List.{Permᴰ}
use dox.Prelude.{
  ℕ, ◌≤◌, ◌≡◌, Bool, Option, none, some, List, [], ◌∷◌, All, filter, take, drop, any, if◌then◌else◌,
  Eq, ◌==◌, ℕ_eq, map,
}
use dox.Result.{Result, ok, err, multiple_results, integrity_error, not_found, Exec, ◌>>=◌, reads}

-- Each key is at most every later one.
abbrev pub IsAscending {ℓ} : {A : Type ℓ} → (A → ℕ) → List A → Type 0
IsAscending key [] = Unit
IsAscending key (x ∷ xs) = All (λ y. key x ≤ key y) xs × IsAscending key xs

abbrev pub IsDescending {ℓ} : {A : Type ℓ} → (A → ℕ) → List A → Type 0
IsDescending key [] = Unit
IsDescending key (x ∷ xs) = All (λ y. key y ≤ key x) xs × IsDescending key xs

pub record Sql : Type 1 where
  -- `select(A).where(p)`: the rows that pass, in no promised order.
  pub select : (A : Type 0) → (A → Bool) → List A → List A
  pub select_perm :
      (A : Type 0) (p : A → Bool) (rows : List A) → Permᴰ (select A p rows) (filter p rows)
  -- `order_by(key.asc())` and `order_by(key.desc())`: rows of one key come in no promised order.
  pub order_asc : (A : Type 0) → (A → ℕ) → List A → List A
  pub order_asc_perm :
      (A : Type 0) (key : A → ℕ) (rows : List A) → Permᴰ (order_asc A key rows) rows
  pub order_asc_sorted :
      (A : Type 0) (key : A → ℕ) (rows : List A) → IsAscending key (order_asc A key rows)
  pub order_desc : (A : Type 0) → (A → ℕ) → List A → List A
  pub order_desc_perm :
      (A : Type 0) (key : A → ℕ) (rows : List A) → Permᴰ (order_desc A key rows) rows
  pub order_desc_sorted :
      (A : Type 0) (key : A → ℕ) (rows : List A) → IsDescending key (order_desc A key rows)
  -- `result.scalar_one_or_none()`
  pub scalar_one_or_none : (A : Type 0) → List A → Result (Option A)
  pub scalar_nil : (A : Type 0) → scalar_one_or_none A [] ≡ ok none
  pub scalar_one : (A : Type 0) (x : A) → scalar_one_or_none A (x ∷ []) ≡ ok (some x)
  pub scalar_many :
      (A : Type 0) (x y : A) (l : List A) → scalar_one_or_none A (x ∷ y ∷ l) ≡ err multiple_results

-- `.limit(limit).offset(offset)`
abbrev pub page {ℓ} : {A : Type ℓ} → ℕ → ℕ → List A → List A
page limit offset rows = take limit (drop offset rows)

-- `select(A).where(p)` and `scalar_one_or_none()`
unfoldable pub fetch : Sql → {A : Type 0} → (A → Bool) → List A → Result (Option A)
fetch sql {A} p rows = sql.scalar_one_or_none A (sql.select A p rows)

-- `session.add(row)` and `commit()`, where `clash` says which rows hold a unique key of the new one.
unfoldable pub insert : {A : Type 0} → (A → A → Bool) → A → List A → Result (List A)
insert clash row rows = if any (clash row) rows then err integrity_error else ok (row ∷ rows)

-- `commit()` after `row` was changed: an UPDATE of the row with its primary key.
unfoldable pub save : {A : Type 0} → (A → ℕ) → A → List A → List A
save id row = map (λ r. if id r == id row then row else r)

-- The row of a query for one row, or NotFoundError.
abbrev pub or_not_found : {A : Type 0} → Result (Option A) → Result A
or_not_found (ok (some r)) = ok r
or_not_found (ok none) = err not_found
or_not_found (err e) = err e

-- `get`: the row with a primary key, or NotFoundError.
unfoldable pub get : Sql → {A : Type 0} → (A → ℕ) → ℕ → List A → Result A
get sql id k rows = or_not_found (fetch sql (λ r. id r == k) rows)

-- `commit()` after the attributes of a row were set.
unfoldable pub commit : {A : Type 0} → (A → ℕ) → A → Exec (List A) A
unfolding save
commit id row rows = (ok row, save id row rows)

-- `session.add(row)` and `commit()`.
unfoldable pub add : {A : Type 0} → (A → A → Bool) → A → Exec (List A) A
unfolding insert
add clash row rows = elim (insert clash row rows) [
  | ok rows' ↦ (ok row, rows')
  | err e ↦ (err e, rows)
]

-- The methods that get a row, set attributes and commit.
unfoldable pub change : Sql → {A : Type 0} → (A → ℕ) → ℕ → (A → A) → Exec (List A) A
unfolding get commit
change sql id k set = do row ← reads (get sql id k); commit id (set row)
