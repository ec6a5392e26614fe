-- ===== src/Matmul/Columns.antt =====
-- pthreads/matrixmul/matrixmul.c: what the threads reach where `size_t` has 8 bytes.
use experimentation.Matmul.Product.{get-put}
use experimentation.Matmul.Types.{put, get, Abi, Matrix}
use experimentation.Base.{
  ◌/◌, ◌&&◌, ◌==◌, Bool-cases, ◌<◌, ◌≡◌, ℤ, ◌^◌, ◌≤◌, ℕ, suc, some, refl, inl, inr, Option, arith,
  pos,
}
use mathlib.Core.Path.{subst}
use experimentation.Matmul.Threads.{
  update2, Step, Reach, Pc, System, create_thread, end_row, end_create, join_thread, end_join,
  read_arg, zero_cell, add_product, exit_thread, start, later,
}

-- a thread works on the first column
abbrev Column : Pc → Type 0
Column (Pc.zeroing a b) = b ≡ 0
Column (Pc.summing a b n) = b ≡ 0
Column _ = Unit {0}

column-update2 :
    (pc : ℕ → ℕ → Pc) (i j : ℕ) (p : Pc)
    → Column p
    → ((a b : ℕ) → Column (pc a b))
    → (a b : ℕ) → Column (update2 pc i j p a b)
column-update2 pc i j p own others a b = elim (Bool-cases (a == i && b == j)) [
  | inr off ↦ rw off (others a b)
  | inl on ↦ rw on own
]

module _ (mat1 mat2 mat0 : Matrix) (few : mat1.rows ≤ 2 ^ 31) where
  record Narrow (s : System) : Type 0 where
    args : (k : ℕ) (arg : ℕ × ℕ) → s.v k ≡ some arg → arg.0 < 2 ^ 31
    column : (i j : ℕ) → Column (s.pc i j)
    kept : (i j : ℕ) → 0 < j → get s.mat3 i j ≡ get mat0 i j

  kept-put :
      (m m' : Matrix) (row : ℕ) (x : Option ℤ)
      → ((i j : ℕ) → 0 < j → get m i j ≡ get mat0 i j)
      → put m row 0 x ≡ some m'
      → (i j : ℕ) → 0 < j
      → get m' i j ≡ get mat0 i j
  kept-put m m' row x same wrote i j lj = ground (arith, get-put m row 0 i j x wrote, same i j)

  Step-Narrow : {s t : System} → Step Abi.lp64 mat1 mat2 s t → Narrow s → Narrow t
  Step-Narrow {s} (create_thread {i} {j} e li lj lv lt) n = record {
    args = λ k arg h. ground (arith, n.args k arg);
    column = column-update2 s.pc i j _ tt n.column;
    kept = n.kept;
  }
  Step-Narrow (end_row e li lj) n = record { args = n.args; column = n.column; kept = n.kept }
  Step-Narrow (end_create e li) n = record { args = n.args; column = n.column; kept = n.kept }
  Step-Narrow (join_thread e lk held out) n = record {
    args = n.args;
    column = n.column;
    kept = n.kept;
  }
  Step-Narrow (end_join e lk) n = record { args = n.args; column = n.column; kept = n.kept }
  Step-Narrow {s} (read_arg i j {k} {arg} e held) n = record {
    args = n.args;
    column =
        column-update2 s.pc i j _
          (let high : arg.0 / 2 ^ 32 ≡ 0 = omega (arith, n.args k arg held) in rw high refl)
          n.column;
    kept = n.kept;
  }
  Step-Narrow {s} (zero_cell i j {row} {col} {m} e wrote) n =
      let first : col ≡ 0 = subst (λ p. Column p) e (n.column i j) in
      record {
        args = n.args;
        column = column-update2 s.pc i j (Pc.summing row col 0) first n.column;
        kept =
            kept-put s.mat3 m row (some (pos 0)) n.kept
              (subst (λ c. put s.mat3 row c (some (pos 0)) ≡ some m) first wrote);
      }
  Step-Narrow {s} (add_product i j {row} {col} {n = h} {m} {y} e lh gc ga gb ep eq wrote) n =
      let first : col ≡ 0 = subst (λ p. Column p) e (n.column i j) in
      record {
        args = n.args;
        column = column-update2 s.pc i j (Pc.summing row col (suc h)) first n.column;
        kept =
            kept-put s.mat3 m row (some y) n.kept
              (subst (λ c. put s.mat3 row c (some y) ≡ some m) first wrote);
      }
  Step-Narrow {s} (exit_thread i j e lh) n = record {
    args = n.args;
    column = column-update2 s.pc i j Pc.exited tt n.column;
    kept = n.kept;
  }

  -- Where size_t has 8 bytes and the first matrix at most 2 ^ 31 rows, no thread ever changes a
  -- cell outside the first column of the result.
  pub Reach-column :
      {s : System}
      → Reach Abi.lp64 mat1 mat2 mat0 s
      → (i j : ℕ) → 0 < j
      → get s.mat3 i j ≡ get mat0 i j
  Reach-column r = (narrow r).kept
    where
      narrow : {s : System} → Reach Abi.lp64 mat1 mat2 mat0 s → Narrow s
      narrow start = record { args = λ k arg h. cc; column = λ i j. tt; kept = λ i j lj. refl }
      narrow (later r st) = Step-Narrow st (narrow r)
