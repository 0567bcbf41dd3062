-- ===== src/Base/Int.antt =====
-- Pointer differences (`ptrdiff_t`): signed integers over the native numbers.
use libtealet.Base.{ℕ, suc, ◌+◌, ◌-◌, ◌^◌, ◌≤◌, ◌≡◌, Bool, true, arith, leb, if◌then◌else◌}

-- `negsuc n` is -(n + 1).
pub data ℤ : Type 0 where
  pos : ℕ → ℤ
  negsuc : ℕ → ℤ

-- a - b, as an integer.
abbrev pub sub_ℕ : ℕ → ℕ → ℤ
sub_ℕ a b = if leb b a then pos (a - b) else negsuc (b - a - 1)

-- x <= n, for a size n that is no longer than a ptrdiff_t can say.
abbrev pub leb_ℤ : ℤ → ℕ → Bool
leb_ℤ (pos m) n = leb m n
leb_ℤ (negsuc m) n = true

-- The cast of a ptrdiff_t to a size_t of 64 bits.
abbrev pub to_size : ℤ → ℕ
to_size (pos n) = n
to_size (negsuc n) = 2 ^ 64 - suc n

pub leb_ℤ-sub_ℕ : (a b n : ℕ) → leb_ℤ (sub_ℕ a b) n ≡ leb a (b + n)
leb_ℤ-sub_ℕ a b n = ground arith

pub to_size-sub_ℕ : (a b : ℕ) → b ≤ a → to_size (sub_ℕ a b) ≡ a - b
to_size-sub_ℕ a b h = ground arith

-- `size < 0 ? 0 : size`
abbrev pub clamp_size : ℤ → ℕ
clamp_size (pos n) = n
clamp_size (negsuc n) = 0

pub clamp_size-sub_ℕ : (a b : ℕ) → clamp_size (sub_ℕ a b) ≡ a - b
clamp_size-sub_ℕ a b = ground arith
