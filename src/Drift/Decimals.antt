-- ===== src/Drift/Decimals.antt =====
-- An arithmetic for the tests of services/drift/service.py: numbers with four decimals, cut off.
use dox.Prelude.{ℕ, ◌+◌, ◌-◌, ◌*◌, ◌/◌, ◌≤◌, ◌≡◌, true, leb, ltb, arith}
use dox.Json.{num}
use dox.Drift.{Float}

abbrev pub ratio : ℕ → ℕ → ℕ
ratio a b = (10000 * a) / b

pub leb_trans : (x y z : ℕ) → leb x y ≡ true → leb y z ≡ true → leb x z ≡ true
leb_trans x y z h k = ground arith

pub tenths : (a b : ℕ) → a ≤ 10 → b ≤ 10 → leb (ratio a 10) (ratio b 10) ≡ leb a b
tenths a b h k = ground arith

abbrev pub decimals : Float
decimals = record {
  Value = ℕ;
  ratio = ratio;
  plus = λ x y. x + y;
  apart = λ x y. x - y + (y - x);
  half = λ x. x / 2;
  round4 = λ x. x;
  at_most = leb;
  below = ltb;
  to_json = num;
  to_text = λ x. "score";
  at_most_trans = leb_trans;
  tenths = tenths;
}
