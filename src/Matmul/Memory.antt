-- ===== src/Matmul/Memory.antt =====
-- pthreads/matrixmul/matrixmul.c: `matrix_alloc`, `matrix_free`, `matrix_read`, `matrix_print`.
-- `none` is an access outside the allocated memory.
use experimentation.Base.{
  ℕ, zero, suc, ◌==◌, Bool, ltb, leb, if◌then◌else◌, Option, none, some, ◌>>=◌, List, [], ◌∷◌, ◌++◌,
  ℤ,
}
use experimentation.Matmul.Types.{Abi, word, room, Matrix, Mmret, get, put}

-- the blocks of one matrix
pub data Block : Type 0 where
  header : Block
  pointers : Block
  row : ℕ → Block

-- what the calls of malloc answer: for the matrix, its pointers, and each of its rows
pub record Answers : Type 0 where
  pub header_got : Bool
  pub pointers_got : Bool
  pub row_got : ℕ → Bool

-- the rows before `n`, from `j` on
unfoldable pub rows_from : ℕ → ℕ → List Block
rows_from j zero = []
rows_from j (suc n) = row j ∷ rows_from (suc j) n

-- the switch of `matrix_alloc` at its end, with what it gives to free
unfoldable pub unwind : ℕ → ℕ → List Block
unwind mdepth i =
    let case1 = if leb 1 mdepth then header ∷ [] else [] in
    let case2 = if leb 2 mdepth then pointers ∷ case1 else case1 in
    if leb 3 mdepth then rows_from 0 i ++ case2 else case2

pub data RowsOutcome : Type 0 where
  complete : RowsOutcome
  failed_at : ℕ → RowsOutcome

-- the loop of `matrix_alloc` from row `i` on; `length` pointers can be written
unfoldable pub alloc_rows : (ℕ → Bool) → ℕ → ℕ → ℕ → Option RowsOutcome
alloc_rows got length i zero = some complete
alloc_rows got length i (suc rounds) =
    let rest = alloc_rows got length (suc i) rounds in
    if ltb i length then (if got i then rest else some (failed_at i)) else none

pub record AllocOutcome : Type 0 where
  pub ret : Mmret
  pub mat : Matrix
  pub allocated : List Block
  pub freed : List Block

abbrev pub fresh_matrix : Abi → ℕ → ℕ → Matrix
fresh_matrix abi rows cols = record {
  rows = rows;
  cols = cols;
  length = room abi rows (word abi);
  width = room abi cols 4;
  cells = λ i j. none;
}

-- what follows the loop; only a row other than the first adds to the depth
unfoldable pub finish_alloc : Matrix → RowsOutcome → AllocOutcome
finish_alloc m complete = record {
  ret = Mmret.ok;
  mat = m;
  allocated = header ∷ pointers ∷ rows_from 0 m.rows;
  freed = [];
}
finish_alloc m (failed_at i) = record {
  ret = Mmret.enomem;
  mat = m;
  allocated = header ∷ pointers ∷ rows_from 0 i;
  freed = unwind (if i == 0 then 2 else 3) i;
}

unfoldable pub matrix_alloc : Abi → Answers → ℕ → ℕ → Option AllocOutcome
matrix_alloc abi answers rows cols =
    let m = fresh_matrix abi rows cols in
    if answers.header_got
    then if answers.pointers_got
      then alloc_rows answers.row_got m.length 0 rows >>= (λ o. some (finish_alloc m o))
      else some
          (record { ret = Mmret.enomem; mat = m; allocated = header ∷ []; freed = unwind 1 0 })
    else some (record { ret = Mmret.enomem; mat = m; allocated = []; freed = unwind 0 0 })

unfoldable pub matrix_free : Matrix → List Block
matrix_free m = rows_from 0 m.rows ++ pointers ∷ header ∷ []

-- A file as fscanf reads it: whether it opens, what the variables of the dimensions hold after the
-- first call, and what each later call stores, `none` where it stores nothing.
pub record MatrixFile : Type 0 where
  pub opens : Bool
  pub rows : ℕ
  pub cols : ℕ
  pub element : ℕ → ℕ → Option ℤ

-- `fscanf(fp, "%d", &data[i][j])`: a cell that gets no value stays as it is
unfoldable pub scan_element : MatrixFile → Matrix → ℕ → ℕ → Option Matrix
scan_element file m i j = elim (file.element i j) [
  | none ↦ put m i j (m.cells i j)
  | some x ↦ put m i j (some x)
]

unfoldable pub read_row : MatrixFile → ℕ → ℕ → ℕ → Matrix → Option Matrix
read_row file i j zero m = some m
read_row file i j (suc rounds) m =
    scan_element file m i j >>= λ m'. read_row file i (suc j) rounds m'

unfoldable pub read_rows : MatrixFile → ℕ → ℕ → Matrix → Option Matrix
read_rows file i zero m = some m
read_rows file i (suc rounds) m =
    read_row file i 0 m.cols m >>= λ m'. read_rows file (suc i) rounds m'

unfoldable pub fill : MatrixFile → AllocOutcome → Option AllocOutcome
fill file o = elim o.ret [
  | Mmret.enomem ↦ some o
  | _ ↦ read_rows file 0 o.mat.rows o.mat >>= λ m. some (record o { mat = m })
]

unfoldable pub matrix_read : Abi → Answers → MatrixFile → Option AllocOutcome
matrix_read abi answers file =
    if file.opens
    then matrix_alloc abi answers file.rows file.cols >>= (λ o. fill file o)
    else some (record { ret = Mmret.eio; mat = fresh_matrix abi 0 0; allocated = []; freed = [] })

unfoldable pub print_row : Matrix → ℕ → ℕ → ℕ → Option (List ℤ)
print_row m i j zero = some []
print_row m i j (suc rounds) =
    get m i j >>= λ x. print_row m i (suc j) rounds >>= λ rest. some (x ∷ rest)

unfoldable pub print_rows : Matrix → ℕ → ℕ → Option (List (List ℤ))
print_rows m i zero = some []
print_rows m i (suc rounds) =
    print_row m i 0 m.cols >>= λ line. print_rows m (suc i) rounds >>= λ rest. some (line ∷ rest)

unfoldable pub matrix_print : Matrix → Option (List (List ℤ))
matrix_print m = print_rows m 0 m.rows
