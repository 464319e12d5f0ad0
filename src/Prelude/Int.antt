-- ===== src/Prelude/Int.antt =====
-- Signed numbers, as Python's `int` reads them from a caller, and their clamp to a range.
use Prim.Native.Nat.{ℕ, suc, ◌+◌, ◌≤◌, min, max}
use native.Mathlib.Omega.{arith}

-- `negsuc n` is -(n + 1).
pub data ℤ : Type 0 where
  pos : ℕ → ℤ
  negsuc : ℕ → ℤ

-- `max(lo, min(hi, x))`, for a range of numbers that are not negative.
abbrev pub clamp : ℕ → ℕ → ℤ → ℕ
clamp lo hi (pos n) = max lo (min hi n)
clamp lo hi (negsuc n) = lo

-- `max(lo, x)`, for a bound that is not negative.
abbrev pub at_least : ℕ → ℤ → ℕ
at_least lo (pos n) = max lo n
at_least lo (negsuc n) = lo

abbrev pub pos_part : ℤ → ℕ
pos_part (pos n) = n
pos_part (negsuc n) = 0

abbrev pub neg_part : ℤ → ℕ
neg_part (pos n) = 0
neg_part (negsuc n) = suc n

infix 50 ◌≤ℤ◌
abbrev pub ◌≤ℤ◌ : ℤ → ℤ → Type 0
a ≤ℤ b = pos_part a + neg_part b ≤ pos_part b + neg_part a

pub clamp_mono : (lo hi : ℕ) (x y : ℤ) → lo ≤ hi → x ≤ℤ y → clamp lo hi x ≤ clamp lo hi y
clamp_mono lo hi (pos m) (pos n) r h = omega arith
clamp_mono lo hi (pos m) (negsuc n) r h = omega arith
clamp_mono lo hi (negsuc m) (pos n) r h = omega arith
clamp_mono lo hi (negsuc m) (negsuc n) r h = omega arith

pub clamp_bounds : (lo hi : ℕ) (x : ℤ) → lo ≤ hi → (lo ≤ clamp lo hi x) × (clamp lo hi x ≤ hi)
clamp_bounds lo hi (pos n) h = omega arith
clamp_bounds lo hi (negsuc n) h = omega arith
