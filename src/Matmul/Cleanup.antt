-- ===== src/Matmul/Cleanup.antt =====
-- pthreads/matrixmul/matrixmul.c, `main`: wherever it stops, its switch frees what is held.
use experimentation.Matmul.Read.{matrix_read-WasRead}
use experimentation.Base.{
  sym, append-nil, ◌<◌, ◌>>=◌, Bool, Bool-cases, [], ap, arith, false, inl, inr, map, refl, some,
  true, ℕ, ◌++◌, ◌==◌, ◌∙◌, ◌≡◌,
}
use experimentation.Matmul.Alloc.{Sized, matrix_alloc-Allocated, tally-nil}
use experimentation.Matmul.Memory.{fresh_matrix, AllocOutcome, Block, matrix_free}
use experimentation.Matmul.Setup.{
  in_mat1, prepare, in_mat2, prepare_second, in_mat3, MainBlock, Prepared, World, cleanup, is_ok,
  prepare_result, prepare_threads,
}
use experimentation.Matmul.Types.{get, Abi}
use experimentation.Matmul.Balance.{Even, at_depth, prepare_threads-Even, call_balance}

-- what the threads find: the result has its size, and the operands are those of `p`
pub record Result (p p' : Prepared) : Type 0 where
  pub agree : p'.mat1.cols ≡ p'.mat2.rows
  pub same1 : p'.mat1 ≡ p.mat1
  pub same2 : p'.mat2 ≡ p.mat2
  pub mat3_length : p'.mat3.length ≡ p'.mat1.rows
  pub mat3_width : p'.mat3.width ≡ p'.mat2.cols

-- the matrices are left alone by the allocations that follow them
prepare_threads-mats :
    (w : World) (p : Prepared)
    → ((prepare_threads w p).mat1 ≡ p.mat1)
      × ((prepare_threads w p).mat2 ≡ p.mat2)
      × ((prepare_threads w p).mat3 ≡ p.mat3)
unfolding prepare_threads
prepare_threads-mats w p = (ground arith, ground arith, ground arith)

-- the state after a call that allocates a matrix
abbrev after : (Block → MainBlock) → AllocOutcome → Prepared → Prepared
after f o p = record p {
  allocated = p.allocated ++ map f o.allocated;
  freed = p.freed ++ map f o.freed;
}

-- what the threads find of the second file
record Second (w : World) (p p' : Prepared) : Type 0 where
  agree : p'.mat1.cols ≡ p'.mat2.rows
  same1 : p'.mat1 ≡ p.mat1
  mat2_elements :
      (i j : ℕ) → i < w.file2.rows → j < w.file2.cols → get p'.mat2 i j ≡ w.file2.element i j
  mat2_cols : p'.mat2.cols ≡ w.file2.cols
  mat2_rows : p'.mat2.rows ≡ w.file2.rows
  mat3_length : p'.mat3.length ≡ p'.mat1.rows
  mat3_width : p'.mat3.width ≡ p'.mat2.cols

module _ (abi : Abi) (w : World) (p : Prepared) where
  prepare_result-Even :
      Sized abi p.mat1.rows p.mat2.cols
      → Even (at_depth 2 p)
      → (p' : Prepared) × (prepare_result abi w (at_depth 2 p) ≡ some p')
        × Even p'
        × (p'.threads ≡ true → Result p p')
  unfolding prepare_result cleanup
  prepare_result-Even fit even = elim (Bool-cases (p.mat1.cols == p.mat2.rows)) [
    | inr e ↦ (at_depth 2 p, rw e refl, even, λ on. absurd (cc on))
    | inl agree ↦
        let equal : p.mat1.cols ≡ p.mat2.rows = ground arith in
        let (o, made, was) = matrix_alloc-Allocated abi w.answers3 p.mat1.rows p.mat2.cols fit in
        let p1 = record (after in_mat3 o p) { mat3 = o.mat } in
        let count = λ (q : MainBlock → Bool).
          call_balance q in_mat3 o was.balanced p.allocated p.freed (cleanup (at_depth 2 p))
            (even q) in
        elim (Bool-cases (is_ok o.ret)) [
          | inr e ↦ (
            at_depth 2 p1,
            rw (agree, made, ◌>>=◌, e) refl,
            λ q. count q ∙ rw e refl,
            λ on. absurd (cc on),
          )
          | inl e ↦
              let (same1, same2, same3) = prepare_threads-mats w (at_depth 3 p1) in
              let (length, width) = was.balanced.full e in
              (
                prepare_threads w (at_depth 3 p1),
                rw (agree, made, ◌>>=◌, e) refl,
                prepare_threads-Even w p1 (λ q. count q ∙ rw e refl),
                λ on. record {
                  agree = rw (same1, same2) equal;
                  same1 = same1;
                  same2 = same2;
                  mat3_length = rw (same1, same3) length;
                  mat3_width = rw (same2, same3) width;
                },
              )
        ]
  ]

module _ (abi : Abi) (w : World) (p : Prepared) where
  prepare_second-Even :
      Sized abi w.file2.rows w.file2.cols
      → Sized abi p.mat1.rows w.file2.cols
      → Even (at_depth 1 p)
      → (p' : Prepared) × (prepare_second abi w (at_depth 1 p) ≡ some p')
        × Even p'
        × (p'.threads ≡ true → Second w p p')
  unfolding prepare_second cleanup
  prepare_second-Even fit fit' even =
      let (o, read, was) = matrix_read-WasRead abi w.answers2 w.file2 fit in
      let p1 = record (after in_mat2 o p) { mat2 = o.mat } in
      let count = λ (q : MainBlock → Bool).
        call_balance q in_mat2 o was.balanced p.allocated p.freed (cleanup (at_depth 1 p))
          (even q) in
      elim (Bool-cases (is_ok o.ret)) [
        | inr e ↦ (
          at_depth 1 p1,
          rw (read, ◌>>=◌, e) refl,
          λ q. count q ∙ rw e refl,
          λ on. absurd (cc on),
        )
        | inl e ↦
            let (rows, cols) = was.balanced.shaped e in
            let fit3 : Sized abi p.mat1.rows o.mat.cols = rw cols fit' in
            let (p', run, even', started) =
              prepare_result-Even abi w p1 fit3 (λ q. count q ∙ rw e refl) in
            (
              p',
              rw (read, ◌>>=◌, e) run,
              even',
              λ on.
                  let r = started on in
                  record {
                    agree = r.agree;
                    same1 = r.same1;
                    mat2_elements = λ i j li lj. rw r.same2 (was.elements e i j li lj);
                    mat2_cols = ap (λ m. m.cols) r.same2 ∙ cols;
                    mat2_rows = ap (λ m. m.rows) r.same2 ∙ rows;
                    mat3_length = r.mat3_length;
                    mat3_width = r.mat3_width;
                  },
            )
      ]

-- `main` before its threads
pub record Ready (w : World) (p : Prepared) : Type 0 where
  pub mat1_elements :
      (i j : ℕ) → i < w.file1.rows → j < w.file1.cols → get p.mat1 i j ≡ w.file1.element i j
  pub mat2_elements :
      (i j : ℕ) → i < w.file2.rows → j < w.file2.cols → get p.mat2 i j ≡ w.file2.element i j
  pub agree : w.file1.cols ≡ w.file2.rows
  pub mat3_length : p.mat3.length ≡ w.file1.rows
  pub mat3_width : p.mat3.width ≡ w.file2.cols

-- With dimensions in both files whose sizes fit in a size_t, main comes to its threads or to its
-- cleanup without an access outside a matrix, whatever calls of malloc and fopen fail. Each block
-- that was allocated is freed as often, by the call that failed or by the cleanup. Where the
-- threads start, the operands hold what the files say, their dimensions agree, and the result has
-- its size.
pub prepare-Even :
    (abi : Abi) (w : World)
    → Sized abi w.file1.rows w.file1.cols
    → Sized abi w.file2.rows w.file2.cols
    → Sized abi w.file1.rows w.file2.cols
    → (p : Prepared) × (prepare abi w ≡ some p) × Even p × (p.threads ≡ true → Ready w p)
unfolding prepare cleanup
prepare-Even abi w fit1 fit2 fit3 =
    let (o, read, was) = matrix_read-WasRead abi w.answers1 w.file1 fit1 in
    let none_yet = fresh_matrix abi 0 0 in
    let p1 : Prepared = record {
      threads = false;
      mdepth = 0;
      mat1 = o.mat;
      mat2 = none_yet;
      mat3 = none_yet;
      allocated = map in_mat1 o.allocated;
      freed = map in_mat1 o.freed;
    } in
    let count = λ (q : MainBlock → Bool).
      call_balance q in_mat1 o was.balanced [] [] [] (omega (arith, tally-nil q)) in
    elim (Bool-cases (is_ok o.ret)) [
      | inr e ↦ (p1, rw (read, ◌>>=◌, e) refl, λ q. count q ∙ rw e refl, λ on. absurd (cc on))
      | inl e ↦
          let (rows, cols) = was.balanced.shaped e in
          let fit : Sized abi o.mat.rows w.file2.cols = rw rows fit3 in
          let (p', run, even', started) =
            prepare_second-Even abi w p1 fit2 fit
              (λ q. count q ∙ rw (e, append-nil (map in_mat1 (matrix_free o.mat))) refl) in
          (
            p',
            rw (read, ◌>>=◌, e) run,
            even',
            λ on.
                let r = started on in
                record {
                  mat1_elements = λ i j li lj. rw r.same1 (was.elements e i j li lj);
                  mat2_elements = r.mat2_elements;
                  agree = sym cols ∙ ap (λ m. m.cols) (sym r.same1) ∙ r.agree ∙ r.mat2_rows;
                  mat3_length = r.mat3_length ∙ ap (λ m. m.rows) r.same1 ∙ rows;
                  mat3_width = r.mat3_width ∙ r.mat2_cols;
                },
          )
    ]
