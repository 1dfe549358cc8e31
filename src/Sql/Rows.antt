-- ===== src/Sql/Rows.antt =====
-- Rows with a unique key: the row that a key finds, before and after an insert or a save.
use dox.Prelude.{
  any, any_none, All-imp, ◌⊎◌, Bool, ℕ, ◌≡◌, refl, true, false, List, [], ◌∷◌, Option, none, some,
  sym, ◌∙◌, inl, inr, arith, All, if◌then◌else◌, Eq, ◌==◌, ℕ_eq, ==_refl, Bool-cases, ap,
}
use dox.Result.{ok, err, integrity_error}
use dox.Sql.{save, add, insert}

-- No two rows share a key.
abbrev pub Distinct {ℓ} : {A : Type ℓ} {K : Type 0} ⦃e : Eq K⦄ → (A → K) → List A → Type 0
Distinct key [] = Unit
Distinct key (x ∷ xs) = All (λ y. (key x == key y) ≡ false) xs × Distinct key xs

-- The first row with a key.
unfoldable pub find : {A K : Type 0} ⦃e : Eq K⦄ → (A → K) → K → List A → Option A
find key k [] = none
find key k (x ∷ xs) = if key x == k then some x else find key k xs

module _ {A : Type 0} where
  pub find-All :
      {K : Type 0} ⦃e : Eq K⦄ (key : A → K) (P : A → Type 0) (k : K) (r : A) (xs : List A)
      → find key k xs ≡ some r
      → All P xs
      → P r
  unfolding find
  find-All key P k r [] h a = cc
  find-All key P k r (x ∷ xs) h a = elim (Bool-cases (key x == k)) [
    | inl yes_here ↦ let e : x ≡ r = ground arith in rw (← e) a.0
    | inr not_here ↦ find-All key P k r xs (ground arith) a.1
  ]

  pub find-key :
      {K : Type 0} ⦃e : Eq K⦄ (key : A → K) (k : K) (r : A) (xs : List A)
      → find key k xs ≡ some r
      → key r ≡ k
  unfolding find
  find-key key k r [] h = cc
  find-key ⦃e⦄ key k r (x ∷ xs) h =
      ground (arith, e.same_iff (key x) k, λ (p : find key k xs ≡ some r). find-key key k r xs p)

  -- Saving a row changes no row but the one with its primary key.
  save_other :
      (id : A → ℕ) (x q : A) (xs : List A)
      → id x ≡ id q
      → All (λ y. (id x == id y) ≡ false) xs
      → save id q xs ≡ xs
  unfolding save
  save_other id x q [] p h = refl
  save_other id x q (y ∷ xs) p h = ground (arith, save_other id x q xs p h.1)

  -- A changed row that keeps its two keys takes the place of the row that was found.
  pub find-save :
      {K : Type 0} ⦃e : Eq K⦄ (key : A → K) (id : A → ℕ) (k j : K) (r q : A) (xs : List A)
      → Distinct id xs
      → find key k xs ≡ some r
      → id q ≡ id r
      → key q ≡ k
      → find key j (save id q xs) ≡ (if k == j then some q else find key j xs)
  unfolding find save
  find-save key id k j r q [] d h i p = cc
  find-save ⦃e⦄ key id k j r q (x ∷ xs) d h i p = elim (Bool-cases (key x == k)) [
    | inl hit ↦
        let x-r : x ≡ r = ground arith in
        let same : id x ≡ id q = ap id x-r ∙ sym i in
        ground (
          arith,
          p,
          e.same_iff (key x) k,
          e.same_iff k j,
          e.same_iff (key x) j,
          save_other id x q xs same d.0,
        )
    | inr miss ↦
        let found : find key k xs ≡ some r = ground arith in
        let other : (id x == id q) ≡ false =
          rw i (find-All key (λ y. (id x == id y) ≡ false) k r xs found d.0) in
        ground (
          arith,
          e.same_iff (key x) k,
          e.same_iff k j,
          e.same_iff (key x) j,
          find-save key id k j r q xs d.1 found i p,
        )
  ]

  All-save :
      (P : A → Type 0) (id : A → ℕ) (q : A) (xs : List A) → P q → All P xs → All P (save id q xs)
  unfolding save
  All-save P id q [] h a = tt
  All-save P id q (x ∷ xs) h a = elim (Bool-cases (id x == id q)) [
    | inl hit ↦ rw hit (h, All-save P id q xs h a.1)
    | inr miss ↦ rw miss (a.0, All-save P id q xs h a.1)
  ]

  -- What holds of every row holds after a save, if it holds of the new row.
  pub save-All :
      (P : A → Type 0) (id : A → ℕ) (q : A) (xs : List A) → P q → All P xs → All P (save id q xs)
  save-All = All-save

  -- A save that keeps the keys of the row that was found keeps a key unique.
  pub save-Distinct :
      {J K : Type 0} ⦃e : Eq K⦄ ⦃f : Eq J⦄ (find_by : A → J) (key : A → K) (id : A → ℕ) (k : J)
      (r q : A) (xs : List A)
      → Distinct id xs
      → Distinct key xs
      → find find_by k xs ≡ some r
      → id q ≡ id r
      → key q ≡ key r
      → Distinct key (save id q xs)
  unfolding find save
  save-Distinct find_by key id k r q [] u d h i p = tt
  save-Distinct find_by key id k r q (x ∷ xs) u d h i p = elim (Bool-cases (find_by x == k)) [
    | inl hit ↦
        let x-r : x ≡ r = ground arith in
        let same : id x ≡ id q = ap id x-r ∙ sym i in
        let here : (id x == id q) ≡ true = rw same (==_refl (id q)) in
        let kept : key q ≡ key x = p ∙ ap key (sym x-r) in
        rw (here, save_other id x q xs same u.0, kept) d
    | inr miss ↦
        let found : find find_by k xs ≡ some r = ground arith in
        let other : (id x == id q) ≡ false =
          rw i (find-All find_by (λ y. (id x == id y) ≡ false) k r xs found u.0) in
        let apart : (key x == key q) ≡ false =
          rw p (find-All find_by (λ y. (key x == key y) ≡ false) k r xs found d.0) in
        rw other (
          All-save (λ y. (key x == key y) ≡ false) id q xs apart d.0,
          save-Distinct find_by key id k r q xs u.1 d.1 found i p,
        )
  ]

  pub find-none :
      {K : Type 0} ⦃e : Eq K⦄ (key : A → K) (k : K) (xs : List A)
      → find key k xs ≡ none
      → All (λ y. (key y == k) ≡ false) xs
  unfolding find
  find-none key k [] h = tt
  find-none key k (x ∷ xs) h = elim (Bool-cases (key x == k)) [
    | inl hit ↦ ground arith
    | inr miss ↦ (miss, find-none key k xs (ground arith))
  ]

  -- A row that one key finds is found by another that is unique.
  pub find-find :
      {K L : Type 0} ⦃e : Eq K⦄ ⦃f : Eq L⦄ (key : A → K) (id : A → L) (k : K) (r : A) (xs : List A)
      → Distinct id xs
      → find key k xs ≡ some r
      → find id (id r) xs ≡ some r
  unfolding find
  find-find key id k r [] d h = cc
  find-find key id k r (x ∷ xs) d h = elim (Bool-cases (key x == k)) [
    | inl hit ↦ let e : x ≡ r = ground arith in rw (← e, ==_refl (id x)) refl
    | inr miss ↦
        let rest : find key k xs ≡ some r = ground arith in
        let apart : (id x == id r) ≡ false =
          find-All key (λ y. (id x == id y) ≡ false) k r xs rest d.0 in
        rw apart (find-find key id k r xs d.1 rest)
  ]

module _ {A : Type 0} (clash : A → A → Bool) where
  -- An insert finds its keys free and puts the row in front, or raises and writes nothing.
  pub add-cases :
      (row : A) (rows : List A)
      → ((any (clash row) rows ≡ true) × (add clash row rows ≡ (err integrity_error, rows)))
        ⊎ ((any (clash row) rows ≡ false) × (add clash row rows ≡ (ok row, row ∷ rows)))
  unfolding add insert
  add-cases row rows = elim (Bool-cases (any (clash row) rows)) [
    | inl taken ↦ inl (taken, ground arith)
    | inr free ↦ inr (free, ground arith)
  ]

  pub add-All :
      (P : A → Type 0) (row : A) (rows : List A) → P row → All P rows → All P (add clash row rows).1
  add-All P row rows h a = elim (add-cases row rows) [
    | inl bad ↦ rw bad.1 a
    | inr good ↦ rw good.1 (h, a)
  ]

  -- A key that the clash test compares stays unique.
  pub add-Distinct :
      {K : Type 0} ⦃e : Eq K⦄ (key : A → K)
      → ((x y : A) → clash x y ≡ false → (key x == key y) ≡ false)
      → (row : A) (rows : List A) → Distinct key rows
      → Distinct key (add clash row rows).1
  add-Distinct key apart row rows d = elim (add-cases row rows) [
    | inl bad ↦ rw bad.1 d
    | inr good ↦ rw good.1 (
      All-imp (λ y. clash row y ≡ false) (λ y. (key row == key y) ≡ false) rows (apart row)
          (any_none (clash row) rows good.0),
      d,
    )
  ]
