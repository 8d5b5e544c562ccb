-- ===== src/Prelude/Bits.antt =====
-- Bounds of the bitwise "and" on the native numbers.
use Prim.Native.Nat.{ℕ, zero, suc, ◌/◌, ◌≤◌, min, bit_and, digits, bit_and-bitwise}
use native.Mathlib.Omega.{arith}

digits_le : (n a b : ℕ) → digits (λ b. zero) min n a b ≤ b
digits_le zero zero b = omega arith
digits_le zero (suc a) b = omega arith
digits_le (suc n) zero b = omega arith
digits_le (suc n) (suc a) b = omega (arith, digits_le n (suc a / 2) (b / 2))

-- `a & b` is at most `b`.
pub bit_and-le_right : (a b : ℕ) → bit_and a b ≤ b
bit_and-le_right a b = omega (arith, bit_and-bitwise a b, digits_le a a b)
