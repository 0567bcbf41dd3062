-- ===== src/Base/Bits.antt =====
-- What is left of a number under a mask.
use Prim.Native.Nat.{
  ℕ, zero, suc, ◌/◌, ◌+◌, ◌^◌, ◌-◌, ◌≤◌, ◌<◌, min, bit_and, digits, bit_and-bitwise,
}
use mathlib.Core.Path.{◌≡◌}
use native.Mathlib.Omega.{arith}

digits_le : (n a b : ℕ) → digits (λ b. zero) min n a b ≤ a
digits_le zero a b = omega arith
digits_le (suc n) zero b = omega arith
digits_le (suc n) (suc a) b = omega (arith, digits_le n (suc a / 2) (b / 2))

-- A mask only takes bits away.
pub bit_and_le : (a b : ℕ) → bit_and a b ≤ a
bit_and_le a b = omega (arith, bit_and-bitwise a b, digits_le a a b)

-- A mask and its complement take at most everything away.
digits-complement :
    (n k a b m : ℕ) → a ≤ n → a < 2 ^ k → b + m + 1 ≡ 2 ^ k → a ≤ digits (λ b. zero) min n a b + m
digits-complement zero k a b m le lt e = omega arith
digits-complement (suc n) k zero b m le lt e = omega arith
digits-complement (suc n) zero (suc a) b m le lt e = absurd (omega arith)
digits-complement (suc n) (suc k) (suc a) b m le lt e =
    let ih =
      digits-complement n k (suc a / 2) (b / 2) (m / 2) (omega arith) (omega arith) (omega arith) in
    ground arith

-- Less than a mask of `k` digits is taken away by its complement.
pub bit_and-complement : (k a m : ℕ) → a < 2 ^ k → m < 2 ^ k → a ≤ bit_and a (2 ^ k - 1 - m) + m
bit_and-complement k a m lt mt = omega (
  arith,
  bit_and-bitwise a (2 ^ k - 1 - m),
  digits-complement a k a (2 ^ k - 1 - m) m (omega arith) lt (omega arith),
)
