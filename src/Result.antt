-- ===== src/Result.antt =====
-- common/exceptions/__init__.py: what an operation can raise, and methods that run against a
-- committed state. The texts of the exceptions are not modelled.
use dox.Prelude.{arith, ℕ, ◌≡◌, refl, ◌⊎◌, inl, inr}

-- Which of the two counters of a quota ran out.
pub data Window : Type 0 where
  daily monthly : Window

-- The subclasses of `DoxException`, and what the libraries below them raise: a unique key that is
-- taken, several rows where one was asked for, a value that an enumeration or a schema refuses.
pub data Error : Type 0 where
  dox_error configuration_error validation_error not_found : Error
  authentication_error authorization_error : Error
  rate_limit_exceeded : ℕ → Error
  quota_exceeded : Window → Error
  feature_not_available conflict : Error
  integrity_error multiple_results value_error key_error : Error

pub data Result {ℓ} (A : Type ℓ) : Type ℓ where
  ok : A → Result A
  err : Error → Result A

module _ {ℓ κ} {A : Type ℓ} {B : Type κ} where
  abbrev pub map_ok : (A → B) → Result A → Result B
  map_ok f (ok a) = ok (f a)
  map_ok f (err e) = err e

  abbrev pub and_then : Result A → (A → Result B) → Result B
  and_then (ok a) f = f a
  and_then (err e) f = err e

-- A method takes the committed state; what was committed before a raise stays committed.
abbrev pub Exec {ℓ} : Type ℓ → Type ℓ → Type ℓ
Exec S A = S → Result A × S

module _ {ℓ} {S A B : Type ℓ} where
  abbrev pub resume : Result A → (A → Exec S B) → Exec S B
  resume (ok a) f s = f a s
  resume (err e) f s = (err e, s)

  infixl 5 ◌>>=◌ ◌>>◌
  abbrev pub ◌>>=◌ : Exec S A → (A → Exec S B) → Exec S B
  ◌>>=◌ m f s = let (r, s') = m s in resume r f s'

  abbrev pub ◌>>◌ : Exec S A → Exec S B → Exec S B
  m >> k = m >>= λ _. k

module _ {ℓ} {S A : Type ℓ} where
  abbrev pub pure : A → Exec S A
  pure a s = (ok a, s)

  abbrev pub raise : Error → Exec S A
  raise e s = (err e, s)

  -- A computation that reads the committed state and may raise.
  abbrev pub reads : (S → Result A) → Exec S A
  reads f s = (f s, s)

pub ok-injective {ℓ} : {A : Type ℓ} {a b : A} → ok a ≡ ok b → a ≡ b
ok-injective h = cc

pub Result-cases {ℓ} :
    {A : Type ℓ} (r : Result A) → ((a : A) × (r ≡ ok a)) ⊎ ((e : Error) × (r ≡ err e))
Result-cases (ok a) = inl (a, refl)
Result-cases (err e) = inr (e, refl)

module _ {ℓ} {S A B : Type ℓ} where
  -- A chain that returned: so did its first step.
  pub >>=-eq-ok :
      (m : Exec S A) (f : A → Exec S B) (s : S) {b : B} {s' : S}
      → (m >>= f) s ≡ (ok b, s')
      → (a : A) × (t : S) × (m s ≡ (ok a, t)) × (f a t ≡ (ok b, s'))
  >>=-eq-ok m f s h = elim (Result-cases (m s).0) [
    | inl (a, e) ↦ (a, (m s).1, ground arith, ground arith)
    | inr (x, e) ↦ absurd (ground arith)
  ]

  -- A chain whose first step raises stops there.
  pub >>=-err :
      (m : Exec S A) (f : A → Exec S B) (s : S) {e : Error} {t : S}
      → m s ≡ (err e, t)
      → (m >>= f) s ≡ (err e, t)
  >>=-err m f s h = rw h

  pub >>=-ok :
      (m : Exec S A) (f : A → Exec S B) (s : S) {a : A} {t : S}
      → m s ≡ (ok a, t)
      → (m >>= f) s ≡ f a t
  >>=-ok m f s h = rw h
