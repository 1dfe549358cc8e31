-- ===== src/Sql/Change.antt =====
-- The methods that get a row by its primary key and commit a change of it, over a table whose
-- primary keys are unique.
use mathlib.Core.Option
use dox.Prelude.{
  refl, Bool-cases, ℕ, ◌≡◌, ◌∙◌, List, Option, none, some, inl, inr, arith, if◌then◌else◌, ◌==◌,
  ℕ_eq, Eq, Option-cases, nat_eq_iff,
}
use dox.Result.{Result, ok, err, not_found, map_ok, Result-cases}
use dox.Sql.{Sql, get, change, commit, save}
use dox.Sql.Rows.{Distinct, find, find-save, find-key, save-Distinct}
use dox.Sql.Fetch.{fetch-find}

abbrev pub found_or_404 : {A : Type 0} → Option A → Result A
found_or_404 none = err not_found
found_or_404 (some r) = ok r

module _ (sql : Sql) {A : Type 0} (id : A → ℕ) where
  pub get-find :
      (k : ℕ) (rows : List A) → Distinct id rows → get sql id k rows ≡ found_or_404 (find id k rows)
  unfolding get
  get-find k rows d =
      rw (fetch-find sql id k rows d)
        (elim (Option-cases (find id k rows)) [ inl e ↦ rw e | inr (r, e) ↦ rw e ])

  pub change_missing :
      (k : ℕ) (set : A → A) (rows : List A)
      → Distinct id rows
      → find id k rows ≡ none
      → change sql id k set rows ≡ (err not_found, rows)
  unfolding change
  change_missing k set rows d e = rw (get-find k rows d, e)

  pub change_found :
      (k : ℕ) (set : A → A) (rows : List A) (r : A)
      → Distinct id rows
      → find id k rows ≡ some r
      → change sql id k set rows ≡ (ok (set r), save id (set r) rows)
  unfolding change
  change_found k set rows r d e = rw (get-find k rows d, e)

  -- What a change that keeps the primary key does to what every key finds.
  pub find-change :
      (k j : ℕ) (set : A → A) (rows : List A)
      → ((r : A) → id (set r) ≡ id r)
      → Distinct id rows
      → find id j (change sql id k set rows).1
        ≡ (if k == j then Option.map set (find id k rows) else find id j rows)
  find-change k j set rows keep d = elim (Option-cases (find id k rows)) [
    | inl e ↦ rw (change_missing k set rows d e, e) (ground (arith, nat_eq_iff k j))
    | inr (r, e) ↦
        rw (change_found k set rows r d e, e)
          (find-save id id k j r (set r) rows d e (keep r) (keep r ∙ find-key id k r rows e))
  ]

  pub change-Distinct :
      {K : Type 0} ⦃f : Eq K⦄ (key : A → K) (k : ℕ) (set : A → A) (rows : List A)
      → ((r : A) → id (set r) ≡ id r)
      → ((r : A) → key (set r) ≡ key r)
      → Distinct id rows
      → Distinct key rows
      → Distinct key (change sql id k set rows).1
  change-Distinct key k set rows keep same d u = elim (Option-cases (find id k rows)) [
    | inl e ↦ rw (change_missing k set rows d e) u
    | inr (r, e) ↦
        rw (change_found k set rows r d e)
          (save-Distinct id key id k r (set r) rows d u e (keep r) (same r))
  ]

  found-map :
      (set : A → A) (o : Option A) → found_or_404 (Option.map set o) ≡ map_ok set (found_or_404 o)
  found-map set none = refl
  found-map set (some r) = refl

  -- Reading a row after a change of another or of itself.
  pub get-change :
      (k j : ℕ) (set : A → A) (rows : List A)
      → ((r : A) → id (set r) ≡ id r)
      → Distinct id rows
      → get sql id j (change sql id k set rows).1
        ≡ (if k == j then map_ok set (get sql id k rows) else get sql id j rows)
  get-change k j set rows keep d =
      let d' : Distinct id (change sql id k set rows).1 =
        change-Distinct id k set rows keep keep d d in
      rw
        (
          get-find j (change sql id k set rows).1 d',
          find-change k j set rows keep d,
          get-find k rows d,
          get-find j rows d,
          ← found-map set (find id k rows),
        )
        (elim (Bool-cases (k == j)) [ inl hit ↦ rw hit | inr miss ↦ rw miss ])

  -- A change returns the changed row, or raises as the reading does.
  pub change-get :
      (k : ℕ) (set : A → A) (rows : List A)
      → (change sql id k set rows).0 ≡ map_ok set (get sql id k rows)
  unfolding change
  change-get k set rows = elim (Result-cases (get sql id k rows)) [
    | inl (r, e) ↦ rw e
    | inr (x, e) ↦ rw e
  ]

  -- A change writes the one row that it read; where it raises it changes nothing.
  pub change-table :
      (k : ℕ) (set : A → A) (rows : List A)
      → (change sql id k set rows).1
        ≡ elim (get sql id k rows) [ ok r ↦ save id (set r) rows | err e ↦ rows ]
  unfolding change commit
  change-table k set rows = elim (Result-cases (get sql id k rows)) [
    | inl (r, e) ↦ rw e
    | inr (x, e) ↦ rw e
  ]
