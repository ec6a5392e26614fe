-- ===== src/Matmul/Read.antt =====
-- pthreads/matrixmul/matrixmul.c: the elements that `matrix_read` stores.
use experimentation.Base.{
  ℕ, zero, suc, ◌+◌, ◌≤◌, ◌<◌, ◌==◌, Bool, Bool-cases, true, false, ltb, leb, if◌then◌else◌, Option,
  some, ◌>>=◌, or_else, or_else-none, [], ◌≡◌, refl, ◌∙◌, inl, inr, arith, ap, ℤ, ◌&&◌,
}
use experimentation.Matmul.Types.{Abi, Matrix, Mmret, get, put, is_cell}
use experimentation.Matmul.Memory.{
  Answers, AllocOutcome, MatrixFile, fresh_matrix, matrix_alloc, fill, read_row, read_rows,
  scan_element, matrix_read, matrix_free,
}
use experimentation.Matmul.Setup.{is_ok}
use experimentation.Matmul.Alloc.{Sized, Balanced, Allocated, matrix_alloc-Allocated, tally-nil}

-- what a cell holds once an element was scanned into it
abbrev scanned : MatrixFile → Matrix → ℕ → ℕ → Option ℤ
scanned file m a b = or_else (file.element a b) (m.cells a b)

-- `m'` is `m` with the elements of the cells that pass the test
record Filled (file : MatrixFile) (test : ℕ → ℕ → Bool) (m m' : Matrix) : Type 0 where
  rows_same : m'.rows ≡ m.rows
  cols_same : m'.cols ≡ m.cols
  length_same : m'.length ≡ m.length
  width_same : m'.width ≡ m.width
  stored : (a b : ℕ) → m'.cells a b ≡ (if test a b then scanned file m a b else m.cells a b)

scan_element-Filled :
    (file : MatrixFile) (m : Matrix) (i j : ℕ)
    → is_cell m i j ≡ true
    → (m' : Matrix) × (scan_element file m i j ≡ some m')
      × Filled file (λ a b. a == i && b == j) m m'
unfolding scan_element put
scan_element-Filled file m i j inside = (
  record m { cells = λ a b. if a == i && b == j then scanned file m i j else m.cells a b },
  ground (arith, inside),
  record {
    rows_same = refl;
    cols_same = refl;
    length_same = refl;
    width_same = refl;
    stored = λ a b. ground arith;
  },
)

abbrev in_row : ℕ → ℕ → ℕ → ℕ → ℕ → Bool
in_row i j rounds a b = a == i && (leb j b && ltb b (j + rounds))

read_row-Filled :
    (file : MatrixFile) (i j rounds : ℕ) (m : Matrix)
    → i < m.length
    → j + rounds ≤ m.width
    → (m' : Matrix) × (read_row file i j rounds m ≡ some m') × Filled file (in_row i j rounds) m m'
unfolding read_row
read_row-Filled file i j zero m low fit = (
  m,
  refl,
  record {
    rows_same = refl;
    cols_same = refl;
    length_same = refl;
    width_same = refl;
    stored = λ a b. ground arith;
  },
)
read_row-Filled file i j (suc rounds) m low fit =
    let (m1, run, one) = scan_element-Filled file m i j (ground arith) in
    let (m2, runs, rest) =
      read_row-Filled file i (suc j) rounds m1 (omega (arith, one.length_same))
        (omega (arith, one.width_same)) in
    (
      m2,
      rw (run, ◌>>=◌) runs,
      record {
        rows_same = omega (arith, rest.rows_same, one.rows_same);
        cols_same = omega (arith, rest.cols_same, one.cols_same);
        length_same = omega (arith, rest.length_same, one.length_same);
        width_same = omega (arith, rest.width_same, one.width_same);
        stored = λ a b. ground (arith, one.stored a b, rest.stored a b);
      },
    )

abbrev in_rows : ℕ → ℕ → ℕ → ℕ → ℕ → Bool
in_rows i rounds cols a b = (leb i a && ltb a (i + rounds)) && ltb b cols

read_rows-Filled :
    (file : MatrixFile) (i rounds : ℕ) (m : Matrix)
    → i + rounds ≤ m.length
    → m.cols ≤ m.width
    → (m' : Matrix) × (read_rows file i rounds m ≡ some m')
      × Filled file (in_rows i rounds m.cols) m m'
unfolding read_rows
read_rows-Filled file i zero m low fit = (
  m,
  refl,
  record {
    rows_same = refl;
    cols_same = refl;
    length_same = refl;
    width_same = refl;
    stored = λ a b. ground arith;
  },
)
read_rows-Filled file i (suc rounds) m low fit =
    let (m1, run, one) = read_row-Filled file i 0 m.cols m (omega arith) (omega arith) in
    let (m2, runs, rest) =
      read_rows-Filled file (suc i) rounds m1 (omega (arith, one.length_same))
        (omega (arith, one.width_same, one.cols_same)) in
    (
      m2,
      rw (run, ◌>>=◌) runs,
      record {
        rows_same = omega (arith, rest.rows_same, one.rows_same);
        cols_same = omega (arith, rest.cols_same, one.cols_same);
        length_same = omega (arith, rest.length_same, one.length_same);
        width_same = omega (arith, rest.width_same, one.width_same);
        stored = λ a b. ground (arith, one.cols_same, one.stored a b, rest.stored a b);
      },
    )

-- what a caller of matrix_read gets
pub record WasRead (abi : Abi) (answers : Answers) (file : MatrixFile) (o : AllocOutcome)
    : Type 0 where
  pub balanced : Balanced file.rows file.cols o
  pub unopened : file.opens ≡ false → o.ret ≡ Mmret.eio
  pub elements :
      is_ok o.ret ≡ true
      → (i j : ℕ) → i < file.rows
      → j < file.cols
      → get o.mat i j ≡ file.element i j

fill-WasRead :
    (abi : Abi) (answers : Answers) (file : MatrixFile) (o : AllocOutcome)
    → file.opens ≡ true
    → Allocated file.rows file.cols o
    → (o' : AllocOutcome) × (fill file o ≡ some o') × WasRead abi answers file o'
unfolding fill
fill-WasRead abi answers file o on was = elim was.answer [
  | inr e ↦ (
    o,
    rw e refl,
    record {
      balanced = was.balanced;
      unopened = λ off. absurd (cc (on, off));
      elements = λ got. absurd (cc (e, got));
    },
  )
  | inl e ↦
      let got : is_ok o.ret ≡ true = ap is_ok e in
      let (rows, cols) = was.balanced.shaped got in
      let (length, width) = was.balanced.full got in
      let (m, run, f) =
        read_rows-Filled file 0 o.mat.rows o.mat (omega (arith, rows, length))
          (omega (arith, cols, width)) in
      (
        record o { mat = m },
        ground (arith, e, run),
        record {
          balanced = record {
            even = λ q. unfold matrix_free in rw f.rows_same (was.balanced.even q);
            shaped = λ _. (f.rows_same ∙ rows, f.cols_same ∙ cols);
            full = λ _. (f.length_same ∙ length, f.width_same ∙ width);
          };
          unopened = λ off. absurd (cc (on, off));
          elements = λ _ i j li lj.
              unfold get in
              ground (arith, f.stored i j, was.blank i j, or_else-none (file.element i j));
        },
      )
]

matrix_read-opened :
    (abi : Abi) (answers : Answers) (file : MatrixFile)
    → file.opens ≡ true
    → matrix_read abi answers file
      ≡ (matrix_alloc abi answers file.rows file.cols >>= (λ o. fill file o))
unfolding matrix_read
matrix_read-opened abi answers file on = ground arith

pub matrix_read-WasRead :
    (abi : Abi) (answers : Answers) (file : MatrixFile)
    → Sized abi file.rows file.cols
    → (o : AllocOutcome) × (matrix_read abi answers file ≡ some o) × WasRead abi answers file o
matrix_read-WasRead abi answers file fit = elim (Bool-cases file.opens) [
  | inr off ↦ (
    record { ret = Mmret.eio; mat = fresh_matrix abi 0 0; allocated = []; freed = [] },
    unfold matrix_read in ground arith,
    record {
      balanced = record {
        even = λ q. omega (arith, tally-nil q);
        shaped = λ e. absurd (cc e);
        full = λ e. absurd (cc e);
      };
      unopened = λ _. refl;
      elements = λ e. absurd (cc e);
    },
  )
  | inl on ↦
      let (o, made, was) = matrix_alloc-Allocated abi answers file.rows file.cols fit in
      let (o', filled, read) = fill-WasRead abi answers file o on was in
      (o', matrix_read-opened abi answers file on ∙ rw (made, ◌>>=◌) filled, read)
]
