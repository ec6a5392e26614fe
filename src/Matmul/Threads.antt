-- ===== src/Matmul/Threads.antt =====
-- pthreads/matrixmul/matrixmul.c: the loops of `main` that create and join the threads, and
-- `mulvect`, one access to shared memory at a time. The thread for a cell is named by its row and
-- its column. A state in which a thread or `main` has no step, but is not at its end, is undefined
-- behaviour, or `main` waiting for a thread.
use experimentation.Matmul.Setup.{numthreads}
use experimentation.Matmul.Types.{get, put, word, modulus, room, Matrix, Abi}
use experimentation.Base.{
  ◌-◌, ◌&&◌, ◌==◌, ltb, ◌+ℤ◌, if◌then◌else◌, ◌*ℤ◌, to_int, ℤ, pos, ◌≤◌, suc, some, ◌<◌, ◌/◌, ◌*◌,
  none, ◌≡◌, ◌^◌, ◌%◌, Option, ℕ, ◌+◌,
}

-- where the thread of a cell stands, with its local variables
pub data Pc : Type 0 where
  idle : Pc  -- not created
  started : (k : ℕ) → Pc  -- with &v[k] for its argument
  zeroing : (row col : ℕ) → Pc  -- before its cell is set to 0
  summing : (row col i : ℕ) → Pc  -- at the head of the loop
  exited : Pc

-- where `main` stands
pub data MainPc : Type 0 where
  create : (i j : ℕ) → MainPc  -- at the head of the inner loop
  join : (i : ℕ) → MainPc
  print : MainPc

pub record System : Type 0 where
  pub v : ℕ → Option (ℕ × ℕ)
  pub tid : ℕ → Option (ℕ × ℕ)
  pub mat3 : Matrix
  pub pc : ℕ → ℕ → Pc
  pub main : MainPc

-- an `int` that is converted to `size_t`
abbrev pub of_int : Abi → ℕ → ℕ
of_int abi n = if ltb n (2 ^ 31) then n else n + modulus abi - 2 ^ 32

-- the first two integers at an element of `v`, whose members are of type `size_t` (little-endian)
abbrev pub arg_ints : Abi → ℕ × ℕ → ℕ × ℕ
arg_ints Abi.ilp32 (row, col) = (of_int Abi.ilp32 row, of_int Abi.ilp32 col)
arg_ints Abi.lp64 (row, col) = (of_int Abi.lp64 (row % 2 ^ 32), of_int Abi.lp64 (row / 2 ^ 32))

abbrev pub update {ℓ} : {A : Type ℓ} → (ℕ → A) → ℕ → A → ℕ → A
update f k x n = if n == k then x else f n

abbrev pub update2 {ℓ} : {A : Type ℓ} → (ℕ → ℕ → A) → ℕ → ℕ → A → ℕ → ℕ → A
update2 f i j x a b = if a == i && b == j then x else f a b

module _ (abi : Abi) (mat1 mat2 : Matrix) where
  -- `k = i*mat1->rows + j`
  unfoldable pub slot : ℕ → ℕ → ℕ
  slot i j = (i * mat1.rows + j) % modulus abi

  -- the elements of `v` and of `tid`
  unfoldable pub v_room : ℕ
  v_room = room abi (numthreads abi mat1 mat2) (2 * word abi)

  unfoldable pub tid_room : ℕ
  tid_room = room abi (numthreads abi mat1 mat2) (word abi)

  pub data Step (s : System) : System → Type 0 where
    create_thread :
        {i j : ℕ}
        → s.main ≡ create i j
        → i < mat1.rows
        → j < mat2.cols
        → slot i j < v_room
        → slot i j < tid_room
        → Step s (record s {
          v = update s.v (slot i j) (some (i, j));
          tid = update s.tid (slot i j) (some (i, j));
          pc = update2 s.pc i j (started (slot i j));
          main = create i (suc j);
        })
    end_row :
        {i j : ℕ}
        → s.main ≡ create i j
        → i < mat1.rows
        → mat2.cols ≤ j
        → Step s (record s { main = create (suc i) 0 })
    end_create :
        {i j : ℕ} → s.main ≡ create i j → mat1.rows ≤ i → Step s (record s { main = join 0 })
    join_thread :
        {k i j : ℕ}
        → s.main ≡ join k
        → k < numthreads abi mat1 mat2
        → s.tid k ≡ some (i, j)
        → s.pc i j ≡ exited
        → Step s (record s { main = join (suc k) })
    end_join :
        {k : ℕ}
        → s.main ≡ join k
        → numthreads abi mat1 mat2 ≤ k
        → Step s (record s { main = print })
    read_arg :
        (i j : ℕ) {k : ℕ} {arg : ℕ × ℕ}
        → s.pc i j ≡ started k
        → s.v k ≡ some arg
        → Step s
            (record s { pc = update2 s.pc i j (zeroing (arg_ints abi arg).0 (arg_ints abi arg).1) })
    zero_cell :
        (i j : ℕ) {row col : ℕ} {m : Matrix}
        → s.pc i j ≡ zeroing row col
        → put s.mat3 row col (some (pos 0)) ≡ some m
        → Step s (record s { mat3 = m; pc = update2 s.pc i j (summing row col 0) })
    add_product :
        (i j : ℕ) {row col n : ℕ} {m : Matrix} {a b c x y : ℤ}
        → s.pc i j ≡ summing row col n
        → n < mat1.cols
        → get s.mat3 row col ≡ some c
        → get mat1 row n ≡ some a
        → get mat2 n col ≡ some b
        → to_int (a *ℤ b) ≡ some x
        → to_int (c +ℤ x) ≡ some y
        → put s.mat3 row col (some y) ≡ some m
        → Step s (record s { mat3 = m; pc = update2 s.pc i j (summing row col (suc n)) })
    exit_thread :
        (i j : ℕ) {row col n : ℕ}
        → s.pc i j ≡ summing row col n
        → mat1.cols ≤ n
        → Step s (record s { pc = update2 s.pc i j exited })

  -- `main` at its first thread, with nothing in `v` and `tid`
  abbrev pub init : Matrix → System
  init mat3 = record {
    v = λ k. none;
    tid = λ k. none;
    mat3 = mat3;
    pc = λ i j. idle;
    main = create 0 0;
  }

  pub data Reach (mat3 : Matrix) : System → Type 0 where
    start : Reach mat3 (init mat3)
    later : {s t : System} → Reach mat3 s → Step s t → Reach mat3 t
