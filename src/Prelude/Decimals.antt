-- ===== src/Prelude/Decimals.antt =====
-- Decimal numbers with four places, an instance of the interface of floats at which the theorems
-- are applied to concrete inputs.
use Prim.Native.Nat.{◌^◌}
use boi.Prelude.Int.{pos}
use boi.Prelude.Floats.{Floats, IsOrdered}
use mathlib.Core.Path.{◌≡◌, refl}
use mathlib.Core.Bool.{false}
use native.Mathlib.Omega.{arith}
use native.Mathlib.Nat.{div-lt_iff_lt-mul}
use Prim.Native.Nat.{ℕ, ◌+◌, ◌-◌, ◌*◌, ◌/◌, ◌≤◌, ◌<◌}
use mathlib.Core.List.{List, [], ◌∷◌}
use boi.Prelude.Tests.{ltb}

abbrev pub sum : List ℕ → ℕ
sum [] = 0
sum (x ∷ xs) = x + sum xs

-- Ten-thousandths.
abbrev pub decimal : Floats
decimal = record {
  Float = ℕ;
  literal = λ m k. m * 10000 / 10 ^ k;
  of_nat = λ n. n * 10000;
  add = λ a b. a + b;
  sub = λ a b. a - b;
  mul = λ a b. a * b / 10000;
  div = λ a b. a * 10000 / b;
  total = sum;
  less = ltb;
  round = λ a. pos ((a + 5000) / 10000);
  round_to = λ k a. a;
}

not_ltb : (a b : ℕ) → a ≤ b → ltb b a ≡ false
not_ltb a b h = ground arith

of_not_ltb : (a b : ℕ) → ltb a b ≡ false → b ≤ a
of_not_ltb a b h = ground arith

mul_div_mono : (a b c : ℕ) → a ≤ b → c * a / 10000 ≤ c * b / 10000
mul_div_mono a b c h = let k : c * a ≤ c * b = grind arith in omega (arith, k)

share_le : (m n : ℕ) → 1 ≤ n → m ≤ n → m * 10000 * 10000 / (n * 10000) < 10001
share_le m n positive h =
    (div-lt_iff_lt-mul (omega (arith, positive))).1 (omega (arith, h, positive))

pub decimal-IsOrdered : IsOrdered decimal
decimal-IsOrdered = record {
  at_most_refl = λ a. ground arith;
  at_most_trans = λ a b c h k. ground arith;
  less_at_most = λ a b h. ground arith;
  at_most_less = λ a b c h k. ground arith;
  add_mono = λ a b c d h k. ground arith;
  add_grows = λ a b h. ground arith;
  mul_mono = λ m k a b h. not_ltb _ _ (mul_div_mono a b (m * 10000 / 10 ^ k) (of_not_ltb b a h));
  share_at_most = λ m n positive h. not_ltb _ _ (omega (arith, share_le m n positive h));
  zero_at_most_one = refl;
  product_positive = λ m k. ground arith;
}
