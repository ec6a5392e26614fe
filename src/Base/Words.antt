-- ===== src/Base/Words.antt =====
-- C integers: `size_t` on a 64-bit machine as a number with its wrap-around written out, `int`
-- results of callbacks, and the bound of a mask.
use Prim.Native.Nat.{
  ℕ, zero, suc, ◌+◌, ◌-◌, ◌/◌, ◌%◌, ◌^◌, ◌≤◌, min, bit_and, digits, bit_and-bitwise,
}
use mathlib.Core.Path.{◌≡◌}
use mathlib.Core.Bool.{Bool, true, false}
use native.Mathlib.Omega.{arith}

-- 2 to the number of bits of a `size_t`
abbrev pub size_mod : ℕ
size_mod = 2 ^ 64

abbrev pub wrap : ℕ → ℕ
wrap n = n % size_mod

-- `n - 1` on a `size_t`
abbrev pub dec : ℕ → ℕ
dec n = (n + size_mod - 1) % size_mod

-- `a - b` on a `size_t`
abbrev pub sub : ℕ → ℕ → ℕ
sub a b = (a + size_mod - b) % size_mod

-- `negsuc n` is -(n + 1).
pub data ℤ : Type 0 where
  pos : ℕ → ℤ
  negsuc : ℕ → ℤ

-- the test `r == 0` on an `int`
abbrev pub is_zero : ℤ → Bool
is_zero (pos zero) = true
is_zero (pos (suc n)) = false
is_zero (negsuc n) = false

-- the digits of a mask that are kept, whatever the number of digits looked at
digits_le : (n a b : ℕ) → digits (λ b. zero) min n a b ≤ b
digits_le zero a b = omega arith
digits_le (suc n) zero b = omega arith
digits_le (suc n) (suc a) b = omega (arith, digits_le n (suc a / 2) (b / 2))

-- a masked value is at most the mask
pub bit_and-le : (a b : ℕ) → bit_and a b ≤ b
bit_and-le a b = rw (bit_and-bitwise a b) (digits_le a a b)

pub zero-bit_and : (b : ℕ) → bit_and 0 b ≡ 0
zero-bit_and b = bit_and-bitwise 0 b
