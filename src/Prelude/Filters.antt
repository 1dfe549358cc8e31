-- ===== src/Prelude/Filters.antt =====
-- Filtered lists: what passes two tests, the order, and what holds of what passes.
use Prim.Native.Nat.{◌+◌}
use mathlib.Core.Path.{◌∙◌, ◌≡◌, refl, ap, sym}
use mathlib.Core.Logic.{inl, inr}
use mathlib.Core.Bool.{Bool, true, false, not, ◌&&◌}
use mathlib.Core.List.{List, [], ◌∷◌, Permᴰ}
use mathlib.Core.List.Permᴰ
use native.Mathlib.Omega.{arith}
use dox.Prelude.Tests.{Bool-cases}
use dox.Prelude.Lists.{All, filter, count, length}

pub All-given :
    {A : Type 0} (P : A → Type 0) (p : A → Bool) (xs : List A)
    → All (λ x. p x ≡ true → P x) xs
    → All P (filter p xs)
All-given P p [] h = tt
All-given P p (x ∷ xs) h = elim (Bool-cases (p x)) [
  | inl e ↦ rw e (h.0 e, All-given P p xs h.1)
  | inr e ↦ rw e (All-given P p xs h.1)
]

pub filter-filter :
    {A : Type 0} (p q : A → Bool) (xs : List A)
    → filter q (filter p xs) ≡ filter (λ x. p x && q x) xs
filter-filter p q [] = refl
filter-filter p q (x ∷ xs) = ground (arith, filter-filter p q xs)

pub filter-perm :
    {A : Type 0} (p : A → Bool) {xs ys : List A} → Permᴰ xs ys → Permᴰ (filter p xs) (filter p ys)
filter-perm p Permᴰ.nil = Permᴰ.nil
filter-perm p (Permᴰ.cons {a = a} {b = b} e h) = elim (Bool-cases (p a)) [
  | inl on ↦ let k : p b ≡ true = ap p (sym e) ∙ on in rw (on, k) (Permᴰ.cons e (filter-perm p h))
  | inr off ↦ let k : p b ≡ false = ap p (sym e) ∙ off in rw (off, k) (filter-perm p h)
]
filter-perm p (Permᴰ.swap {a = a} {b = b} {a' = a'} {b' = b'} {l = l} e f) =
    elim (Bool-cases (p a)) [
      | inl a_on ↦
          let b'_on : p b' ≡ true = ap p (sym e) ∙ a_on in
          elim (Bool-cases (p b)) [
            | inl b_on ↦
                let a'_on : p a' ≡ true = ap p (sym f) ∙ b_on in
                rw (a_on, b_on, a'_on, b'_on) (Permᴰ.swap e f)
            | inr b_off ↦
                let a'_off : p a' ≡ false = ap p (sym f) ∙ b_off in
                rw (a_on, b_off, a'_off, b'_on) (Permᴰ.cons e (Permᴰ.refl (filter p l)))
          ]
      | inr a_off ↦
          let b'_off : p b' ≡ false = ap p (sym e) ∙ a_off in
          elim (Bool-cases (p b)) [
            | inl b_on ↦
                let a'_on : p a' ≡ true = ap p (sym f) ∙ b_on in
                rw (a_off, b_on, a'_on, b'_off) (Permᴰ.cons f (Permᴰ.refl (filter p l)))
            | inr b_off ↦
                let a'_off : p a' ≡ false = ap p (sym f) ∙ b_off in
                rw (a_off, b_off, a'_off, b'_off) (Permᴰ.refl (filter p l))
          ]
    ]
filter-perm p (Permᴰ.trans h k) = Permᴰ.trans (filter-perm p h) (filter-perm p k)

pub count-not :
    {A : Type 0} (p : A → Bool) (xs : List A) → count p xs + count (λ x. not (p x)) xs ≡ length xs
count-not p [] = refl
count-not p (x ∷ xs) = ground (arith, count-not p xs)
