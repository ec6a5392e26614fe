-- ===== src/Matmul/Types.antt =====
-- pthreads/matrixmul/matrixmul.c: matrices in memory, and the widths that the program depends on.
use experimentation.Base.{
  ℕ, ◌*◌, ◌/◌, ◌%◌, ◌^◌, Bool, ◌&&◌, ◌==◌, ltb, if◌then◌else◌, Option, none, some, ℤ,
}

-- whether `size_t` and pointers have the 4 bytes of an `int`, or 8
pub data Abi : Type 0 where
  ilp32 : Abi
  lp64 : Abi

-- 2 to the number of bits of a `size_t`
abbrev pub modulus : Abi → ℕ
modulus ilp32 = 2 ^ 32
modulus lp64 = 2 ^ 64

-- the bytes of a `size_t` or a pointer
abbrev pub word : Abi → ℕ
word ilp32 = 4
word lp64 = 8

-- the elements of `size` bytes in what `malloc(n * size)` gives
abbrev pub room : Abi → ℕ → ℕ → ℕ
room abi n size = n * size % modulus abi / size

-- `length` pointers in `data`, `width` integers behind each; a cell is `none` until it is written
pub record Matrix : Type 0 where
  pub rows : ℕ
  pub cols : ℕ
  pub length : ℕ
  pub width : ℕ
  pub cells : ℕ → ℕ → Option ℤ

pub data Mmret : Type 0 where
  ok : Mmret
  enomem : Mmret
  eio : Mmret

abbrev pub is_cell : Matrix → ℕ → ℕ → Bool
is_cell m i j = ltb i m.length && ltb j m.width

-- `data[i][j]`; `none` is a read out of bounds or of a cell that was not written
unfoldable pub get : Matrix → ℕ → ℕ → Option ℤ
get m i j = if is_cell m i j then m.cells i j else none

-- what the cells are after one was written
abbrev pub written : Matrix → ℕ → ℕ → Option ℤ → Matrix
written m i j x = record m { cells = λ a b. if a == i && b == j then x else m.cells a b }

-- `data[i][j] = x`, where `x` is `none` if it is itself not determined
unfoldable pub put : Matrix → ℕ → ℕ → Option ℤ → Option Matrix
put m i j x = if is_cell m i j then some (written m i j x) else none
