-- ===== src/Matmul/Setup.antt =====
-- pthreads/matrixmul/matrixmul.c, `main` up to its threads, and the switch at its end.
use experimentation.Base.{
  ℕ, ◌*◌, ◌%◌, ◌==◌, Bool, true, false, leb, if◌then◌else◌, Option, some, ◌>>=◌, List, [], ◌∷◌,
  ◌++◌, map,
}
use experimentation.Matmul.Types.{Abi, modulus, Matrix, Mmret}
use experimentation.Matmul.Memory.{
  Block, Answers, MatrixFile, fresh_matrix, matrix_alloc, matrix_free, matrix_read,
}

pub data MainBlock : Type 0 where
  in_mat1 : Block → MainBlock
  in_mat2 : Block → MainBlock
  in_mat3 : Block → MainBlock
  v : MainBlock
  tid : MainBlock

-- what the program gets from outside: its two files and the answers of malloc
pub record World : Type 0 where
  pub file1 : MatrixFile
  pub file2 : MatrixFile
  pub answers1 : Answers
  pub answers2 : Answers
  pub answers3 : Answers
  pub v_got : Bool
  pub tid_got : Bool

abbrev pub is_ok : Mmret → Bool
is_ok Mmret.ok = true
is_ok _ = false

-- Where `main` goes on: to its threads, or to the switch. `freed` are the blocks that the calls
-- before have given to free themselves.
pub record Prepared : Type 0 where
  pub threads : Bool
  pub mdepth : ℕ
  pub mat1 : Matrix
  pub mat2 : Matrix
  pub mat3 : Matrix
  pub allocated : List MainBlock
  pub freed : List MainBlock

unfoldable pub numthreads : Abi → Matrix → Matrix → ℕ
numthreads abi m1 m2 = m1.rows * m2.cols % modulus abi

-- from the allocation of `v` on
unfoldable pub prepare_threads : World → Prepared → Prepared
prepare_threads w p =
    if w.v_got
    then if w.tid_got
      then record p { threads = true; mdepth = 5; allocated = p.allocated ++ v ∷ tid ∷ [] }
      else record p { mdepth = 4; allocated = p.allocated ++ v ∷ [] }
    else p

-- from the test of the dimensions on
unfoldable pub prepare_result : Abi → World → Prepared → Option Prepared
prepare_result abi w p =
    if p.mat1.cols == p.mat2.rows
    then matrix_alloc abi w.answers3 p.mat1.rows p.mat2.cols >>= (λ o.
      let p' : Prepared = record p {
        mat3 = o.mat;
        allocated = p.allocated ++ map in_mat3 o.allocated;
        freed = p.freed ++ map in_mat3 o.freed;
      } in
      some (if is_ok o.ret then prepare_threads w (record p' { mdepth = 3 }) else p'))
    else some p

unfoldable pub prepare_second : Abi → World → Prepared → Option Prepared
prepare_second abi w p = matrix_read abi w.answers2 w.file2 >>= λ o.
    let p' : Prepared = record p {
      mat2 = o.mat;
      allocated = p.allocated ++ map in_mat2 o.allocated;
      freed = p.freed ++ map in_mat2 o.freed;
    } in
    if is_ok o.ret then prepare_result abi w (record p' { mdepth = 2 }) else some p'

-- `main` up to the loops that create the threads
unfoldable pub prepare : Abi → World → Option Prepared
prepare abi w = matrix_read abi w.answers1 w.file1 >>= λ o.
    let no_matrix = fresh_matrix abi 0 0 in
    let p : Prepared = record {
      threads = false;
      mdepth = 0;
      mat1 = o.mat;
      mat2 = no_matrix;
      mat3 = no_matrix;
      allocated = map in_mat1 o.allocated;
      freed = map in_mat1 o.freed;
    } in
    if is_ok o.ret then prepare_second abi w (record p { mdepth = 1 }) else some p

-- the switch under CLEANUP_AND_EXIT
unfoldable pub cleanup : Prepared → List MainBlock
cleanup p =
    let case1 = if leb 1 p.mdepth then map in_mat1 (matrix_free p.mat1) else [] in
    let case2 = if leb 2 p.mdepth then map in_mat2 (matrix_free p.mat2) ++ case1 else case1 in
    let case3 = if leb 3 p.mdepth then map in_mat3 (matrix_free p.mat3) ++ case2 else case2 in
    let case4 = if leb 4 p.mdepth then v ∷ case3 else case3 in
    if leb 5 p.mdepth then tid ∷ case4 else case4
