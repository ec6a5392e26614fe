-- ===== src/Tests/Matrices.antt =====
-- pthreads/matrixmul: runs of the program and its theorems.
use experimentation.Matmul.Live.{Defined}
use experimentation.Matmul.Undefined.{Reach-undefined}
use experimentation.Matmul.Correct.{Correct, Reach-product}
use experimentation.Matmul.Cleanup.{prepare-Even, Ready}
use experimentation.Matmul.Balance.{Even}
use experimentation.Matmul.Columns.{Reach-column}
use experimentation.Matmul.Types.{put, Abi, get, Matrix}
use experimentation.Matmul.Product.{entry, product}
use experimentation.Base.{
  fits, ◌<◌, zero, suc, ◌*ℤ◌, ◌+ℤ◌, ◌≢◌, ◌>>=◌, ◌≡◌, ◌==◌, ◌+◌, ℤ, ℕ, none, some, true, [], ◌∷◌,
  refl, inl, Option, if◌then◌else◌, arith, pos, negsuc,
}
use experimentation.Matmul.Threads.{
  tid_room, v_room, slot, MainPc, Reach, System, create_thread, end_row, end_create, join_thread,
  end_join, read_arg, zero_cell, add_product, exit_thread, start, later,
}
use experimentation.Matmul.Memory.{
  matrix_print, print_rows, print_row, matrix_read, fill, read_rows, read_row, scan_element,
  matrix_free, matrix_alloc, finish_alloc, alloc_rows, unwind, Answers, rows_from, MatrixFile, row,
  header, pointers,
}
use experimentation.Matmul.Setup.{
  prepare_second, prepare_result, prepare_threads, numthreads, cleanup, prepare, Prepared, World,
  in_mat1,
}

program : Unit {0}
unfolding rows_from unwind alloc_rows finish_alloc matrix_alloc matrix_free scan_element read_row
    read_rows fill matrix_read print_row print_rows matrix_print numthreads prepare_threads
    prepare_result prepare_second prepare cleanup get put slot v_room tid_room ◌+ℤ◌ ◌*ℤ◌
program = tt

-- a file with a row of two numbers, and one with a column of two
abbrev wide_file : MatrixFile
wide_file = record { opens = true; rows = 1; cols = 2; element = λ i j. some (pos (j + 3)) }

abbrev high_file : MatrixFile
high_file = record { opens = true; rows = 2; cols = 1; element = λ i j. some (negsuc i) }

abbrev all_got : Answers
all_got = record { header_got = true; pointers_got = true; row_got = λ i. true }

-- the second row of the second matrix is not allocated
abbrev second_row_fails : Answers
second_row_fails = record { header_got = true; pointers_got = true; row_got = λ i. i == 0 }

abbrev world : World
world = record {
  file1 = wide_file;
  file2 = high_file;
  answers1 = all_got;
  answers2 = second_row_fails;
  answers3 = all_got;
  v_got = true;
  tid_got = true;
}

prepare_runs :
    (prepare Abi.lp64 world >>= λ p. some (cleanup p))
    ≡ some (in_mat1 (row 0) ∷ in_mat1 pointers ∷ in_mat1 header ∷ [])
unfolding program
prepare_runs = refl

prepare-Even_example :
    (p : Prepared) × (prepare Abi.lp64 world ≡ some p) × Even p × (p.threads ≡ true → Ready world p)
prepare-Even_example =
    prepare-Even Abi.lp64 world (record { few_rows = omega arith; few_cols = omega arith })
      (record { few_rows = omega arith; few_cols = omega arith })
      (record { few_rows = omega arith; few_cols = omega arith })

abbrev matrix : ℕ → ℕ → (ℕ → ℕ → Option ℤ) → Matrix
matrix r c f = record { rows = r; cols = c; length = r; width = c; cells = f }

-- 3 times a row of 5 and -7
abbrev one : Matrix
one = matrix 1 1 (λ i j. some (pos 3))

abbrev two : Matrix
two = matrix 1 2 (λ i j. some (if j == 0 then pos 5 else negsuc 6))

abbrev blank : Matrix
blank = matrix 1 2 (λ i j. none)

-- two threads that run at the same time
printed : (s : System) × Reach Abi.ilp32 one two blank s × (s.main ≡ MainPc.print)
unfolding program
printed =
    let s1 =
      later start (create_thread refl (omega arith) (omega arith) (omega arith) (omega arith)) in
    let s2 =
      later s1 (create_thread refl (omega arith) (omega arith) (omega arith) (omega arith)) in
    let s3 = later s2 (read_arg 0 1 refl refl) in
    let s4 = later s3 (zero_cell 0 1 refl refl) in
    let s5 = later s4 (read_arg 0 0 refl refl) in
    let s6 = later s5 (zero_cell 0 0 refl refl) in
    let s7 = later s6 (add_product 0 1 refl (omega arith) refl refl refl refl refl refl) in
    let s8 = later s7 (end_row refl (omega arith) (omega arith)) in
    let s9 = later s8 (end_create refl (omega arith)) in
    let t1 = later s9 (add_product 0 0 refl (omega arith) refl refl refl refl refl refl) in
    let t2 = later t1 (exit_thread 0 0 refl (omega arith)) in
    let t3 = later t2 (exit_thread 0 1 refl (omega arith)) in
    let t4 = later t3 (join_thread refl (omega arith) refl refl) in
    let t5 = later t4 (join_thread refl (omega arith) refl refl) in
    (_, later t5 (end_join refl (omega arith)), refl)

small :
    (i j n : ℕ)
    → i < 1
    → j < 2
    → n < 1
    → (fits (entry one i n *ℤ entry two n j) ≡ true) × (fits (product one two i j (suc n)) ≡ true)
unfolding program product
small zero zero zero li lj ln = (refl, refl)
small zero (suc zero) zero li lj ln = (refl, refl)
small zero (suc (suc j)) zero li lj ln = absurd (omega arith)
small (suc i) j n li lj ln = absurd (omega arith)
small zero j (suc n) li lj ln = absurd (omega arith)

known : Defined one two
unfolding program product
known = record {
  left = λ i n li ln. (pos 3, ground arith);
  right = λ n j ln lj. (if j == 0 then pos 5 else negsuc 6, ground arith);
  fitting = small;
}

Reach-product_example : Correct one two blank printed.0 printed.1
Reach-product_example =
    Reach-product one two blank (omega arith) (omega arith) (inl refl) (omega arith) (refl, refl)
      known printed.0 printed.1

product_runs : product one two 0 1 1 ≡ negsuc 20
unfolding product program
product_runs = refl

-- the second thread has set a cell to 0, but that of the first column
column : (s : System) × Reach Abi.lp64 one two blank s
unfolding program
column =
    let s1 =
      later start (create_thread refl (omega arith) (omega arith) (omega arith) (omega arith)) in
    let s2 =
      later s1 (create_thread refl (omega arith) (omega arith) (omega arith) (omega arith)) in
    let s3 = later s2 (read_arg 0 1 refl refl) in (_, later s3 (zero_cell 0 1 refl refl))

Reach-column_example : get column.0.mat3 0 1 ≡ get blank 0 1
Reach-column_example = Reach-column one two blank (omega arith) column.1 0 1 (omega arith)

abbrev high : Matrix
high = matrix 2 1 (λ i j. some (pos 1))

-- main at its second thread, which has no place in `v`
stopped : (s : System) × Reach Abi.lp64 high one (matrix 2 1 (λ i j. none)) s
unfolding program
stopped =
    let s1 =
      later start (create_thread refl (omega arith) (omega arith) (omega arith) (omega arith)) in
    (_, later s1 (end_row refl (omega arith) (omega arith)))

Reach-undefined_example : stopped.0.main ≢ MainPc.print
Reach-undefined_example =
    Reach-undefined Abi.lp64 high one (matrix 2 1 (λ i j. none)) (omega arith) (omega arith)
      (omega arith) (omega arith) (omega arith) stopped.0 stopped.1
