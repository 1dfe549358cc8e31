-- ===== src/Schema/Patterns.antt =====
-- common/schemas/validators.py: which texts the pattern of a hash accepts.
use Prim.Native.Char.{Char, code}
use mathlib.Core.Path.{subst}
use dox.Prelude.{
  sym, ℕ, zero, suc, ◌≡◌, refl, ap, true, ◌↔◌, ◌⊎◌, inl, inr, String, some, List, [], ◌∷◌, ◌++◌,
  length, All, Bool-cases, Bool, nat_eq_iff, ℕ_eq, if◌then◌else◌, false,
}
use dox.Result.{ok, err, value_error}
use dox.Schema.{is_hex, at_end, hex_run, is_sha256, validate_sha256_hash}

-- The characters of a text.
abbrev pub chars : String → List Char
chars String.[] = []
chars (String.◌∷◌ c s) = c ∷ chars s

-- So many hexadecimal digits, and then characters with a property.
abbrev pub HexRun : ℕ → (List Char → Type 0) → List Char → Type 0
HexRun n P cs =
    (t : List Char) × (v : List Char) × (cs ≡ t ++ v)
    × (length t ≡ n)
    × All (λ c. is_hex c ≡ true) t
    × P v

-- What `$` stands for: nothing, or one line feed.
abbrev pub IsEnd : List Char → Type 0
IsEnd v = (v ≡ []) ⊎ ((c : Char) × (v ≡ c ∷ []) × (code c ≡ 10))

module _ (rest : String → Bool) (P : List Char → Type 0) where
  hex_run-HexRun :
      ((u : String) → rest u ≡ true → P (chars u))
      → (n : ℕ) (s : String) → hex_run n rest s ≡ true
      → HexRun n P (chars s)
  unfolding hex_run
  hex_run-HexRun f zero s h = ([], chars s, refl, refl, tt, f s h)
  hex_run-HexRun f (suc n) String.[] h = cc
  hex_run-HexRun f (suc n) (String.◌∷◌ c s) h = elim (Bool-cases (is_hex c)) [
    | inl hex ↦
        let (t, v, e, len, digits, good) = hex_run-HexRun f n s (rw hex at h) in
        (c ∷ t, v, ap (λ l. c ∷ l) e, ap suc len, (hex, digits), good)
    | inr other ↦ absurd (cc (rw other at h))
  ]

  HexRun-hex_run :
      ((u : String) → P (chars u) → rest u ≡ true)
      → (n : ℕ) (s : String) (t v : List Char) → chars s ≡ t ++ v
      → length t ≡ n
      → All (λ c. is_hex c ≡ true) t
      → P v
      → hex_run n rest s ≡ true
  unfolding hex_run
  HexRun-hex_run f zero s [] v e len digits good = f s (subst P (sym e) good)
  HexRun-hex_run f zero s (c ∷ t) v e len digits good = cc
  HexRun-hex_run f (suc n) s [] v e len digits good = cc
  HexRun-hex_run f (suc n) String.[] (c ∷ t) v e len digits good = cc
  HexRun-hex_run f (suc n) (String.◌∷◌ d s) (c ∷ t) v e len digits good =
      let more = HexRun-hex_run f n s t v (cc e) (cc len) digits.1 good in
      let same : d ≡ c = cc e in rw (same, digits.0) more

at_end-IsEnd : (u : String) → at_end u ≡ true → IsEnd (chars u)
unfolding at_end
at_end-IsEnd String.[] h = inl refl
at_end-IsEnd (String.◌∷◌ c String.[]) h = inr (c, refl, (nat_eq_iff (code c) 10).0 h)
at_end-IsEnd (String.◌∷◌ c (String.◌∷◌ d s)) h = cc

IsEnd-at_end : (u : String) → IsEnd (chars u) → at_end u ≡ true
unfolding at_end
IsEnd-at_end String.[] h = refl
IsEnd-at_end (String.◌∷◌ c String.[]) (inl e) = cc
IsEnd-at_end (String.◌∷◌ c String.[]) (inr (d, e, feed)) =
    let same : c ≡ d = cc e in (nat_eq_iff (code c) 10).1 (rw same feed)
IsEnd-at_end (String.◌∷◌ c (String.◌∷◌ d s)) (inl e) = cc
IsEnd-at_end (String.◌∷◌ c (String.◌∷◌ d s)) (inr (x, e, feed)) = cc

pub accepted :
    {A : Type 0} (b : Bool) (a : A) → (if b then ok a else err value_error) ≡ ok a → b ≡ true
accepted true a h = refl
accepted false a h = cc

-- `validate_sha256_hash` accepts a text exactly when it is 64 hexadecimal digits in lower case, or
-- these and one line feed, and it returns what it accepts.
pub validate_sha256_hash-HexRun :
    (s : String) → ((validate_sha256_hash (some s) ≡ ok (some s)) ↔ HexRun 64 IsEnd (chars s))
unfolding validate_sha256_hash is_sha256
validate_sha256_hash-HexRun s = (
  λ h. hex_run-HexRun at_end IsEnd at_end-IsEnd 64 s (accepted (hex_run 64 at_end s) (some s) h),
  λ (t, v, e, len, digits, good).
      rw (HexRun-hex_run at_end IsEnd IsEnd-at_end 64 s t v e len digits good) refl,
)
