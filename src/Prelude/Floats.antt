-- ===== src/Prelude/Floats.antt =====
-- Python's floating-point numbers, as an interface: the model computes with them as the code does,
-- operation by operation, and assumes of them only what a theorem names.
use boi.Prelude.Int.{ℤ}
use Prim.Native.Nat.{ℕ, ◌≤◌}
use mathlib.Core.Path.{◌≡◌}
use mathlib.Core.Bool.{Bool, true, false}
use mathlib.Core.List.{List}
use boi.Prelude.Tests.{if◌then◌else◌}

pub record Floats : Type 1 where
  pub Float : Type 0
  -- the literal m * 10^-k, and `float(n)`
  pub literal : ℕ → ℕ → Float
  pub of_nat : ℕ → Float
  pub add : Float → Float → Float
  pub sub : Float → Float → Float
  pub mul : Float → Float → Float
  pub div : Float → Float → Float
  -- `sum(xs)`, which rounds in its own way
  pub total : List Float → Float
  pub less : Float → Float → Bool
  -- `round(x)` and `round(x, k)`
  pub round : Float → ℤ
  pub round_to : ℕ → Float → Float

module _ (fs : Floats) where
  open fs use {Float, less}

  -- `a >= b`, which is `b <= a`: numbers that are no NaN.
  unfoldable pub at_or_above : Float → Float → Bool
  at_or_above a b = if less a b then false else true

  -- `min(a, b)` and `max(a, b)` keep the first of two equals.
  unfoldable pub minimum : Float → Float → Float
  minimum a b = if less b a then b else a

  unfoldable pub maximum : Float → Float → Float
  maximum a b = if less a b then b else a

  -- `b < a` does not hold.
  abbrev pub IsAtMost : Float → Float → Type 0
  IsAtMost a b = less b a ≡ false

  open fs use {literal, of_nat, add, mul, div}

  -- What rounded arithmetic keeps of the order of the numbers, NaN set aside.
  pub record IsOrdered : Type 0 where
    pub at_most_refl : (a : Float) → IsAtMost a a
    pub at_most_trans : (a b c : Float) → IsAtMost a b → IsAtMost b c → IsAtMost a c
    pub less_at_most : (a b : Float) → less a b ≡ true → IsAtMost a b
    pub at_most_less : (a b c : Float) → IsAtMost a b → less b c ≡ true → less a c ≡ true
    pub add_mono : (a b c d : Float) → IsAtMost a b → IsAtMost c d → IsAtMost (add a c) (add b d)
    pub add_grows : (a b : Float) → IsAtMost (literal 0 0) b → IsAtMost a (add a b)
    pub mul_mono :
        (m k : ℕ) (a b : Float)
        → IsAtMost a b
        → IsAtMost (mul (literal m k) a) (mul (literal m k) b)
    -- a quotient of numbers that are at most 1 and no negative number
    pub share_at_most :
        (m n : ℕ) → 1 ≤ n → m ≤ n → IsAtMost (div (of_nat m) (of_nat n)) (literal 1 0)
    pub zero_at_most_one : IsAtMost (literal 0 0) (literal 1 0)
    pub product_positive : (m k : ℕ) → IsAtMost (literal 0 0) (mul (literal m k) (literal 1 0))
