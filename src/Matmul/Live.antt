-- ===== src/Matmul/Live.antt =====
-- pthreads/matrixmul/matrixmul.c: which threads are there, and that each of them can move.
use experimentation.Matmul.Product.{product, entry}
use experimentation.Matmul.Invariant.{created}
use experimentation.Matmul.Types.{get, put, Abi, Matrix}
use experimentation.Base.{
  ◌*ℤ◌, sym, ◌∙◌, ◌&&◌, ◌==◌, fits, Bool-cases, ◌≢◌, ℤ, ◌≡◌, ◌<◌, ℕ, suc, some, true, false, refl,
  inl, inr, Option, arith,
}
use mathlib.Core.Path.{subst}
use experimentation.Matmul.Threads.{
  update2, Reach, Step, MainPc, Pc, System, create_thread, end_row, end_create, join_thread,
  end_join, read_arg, zero_cell, add_product, exit_thread, start, later,
}

-- the operands are known as far as they are used, and no sum overflows
pub record Defined (mat1 mat2 : Matrix) : Type 0 where
  pub left : (i n : ℕ) → i < mat1.rows → n < mat1.cols → (x : ℤ) × (get mat1 i n ≡ some x)
  pub right : (n j : ℕ) → n < mat1.cols → j < mat2.cols → (x : ℤ) × (get mat2 n j ≡ some x)
  pub fitting :
      (i j n : ℕ)
      → i < mat1.rows
      → j < mat2.cols
      → n < mat1.cols
      → (fits (entry mat1 i n *ℤ entry mat2 n j) ≡ true)
        × (fits (product mat1 mat2 i j (suc n)) ≡ true)

put-shape :
    (m m' : Matrix) (i j : ℕ) (x : Option ℤ)
    → put m i j x ≡ some m'
    → (m'.width ≡ m.width) × (m'.length ≡ m.length)
unfolding put
put-shape m m' i j x h = (ground arith, ground arith)

module _ (mat1 mat2 : Matrix) where
  pub record Live (s : System) : Type 0 where
    pub wide : s.mat3.width ≡ mat2.cols
    pub long : s.mat3.length ≡ mat1.rows
    pub begun :
        (i j : ℕ) → i < mat1.rows → j < mat2.cols → created s.main i j ≡ true → s.pc i j ≢ Pc.idle
    pub idle_yet : (i j : ℕ) → created s.main i j ≡ false → s.pc i j ≡ Pc.idle

  main-Live :
      (s : System) (next : MainPc)
      → Live s
      → ((i j : ℕ)
          → i < mat1.rows
          → j < mat2.cols
          → created next i j ≡ true
          → created s.main i j ≡ true)
      → ((i j : ℕ) → created next i j ≡ false → created s.main i j ≡ false)
      → Live (record s { main = next })
  main-Live s next n sooner later_on = record {
    wide = n.wide;
    long = n.long;
    begun = λ i j li lj h. n.begun i j li lj (sooner i j li lj h);
    idle_yet = λ i j h. n.idle_yet i j (later_on i j h);
  }

  thread-Live :
      (s : System) (m : Matrix) (i j : ℕ) (p q : Pc)
      → Live s
      → s.pc i j ≡ q
      → q ≢ Pc.idle
      → p ≢ Pc.idle
      → (m.width ≡ s.mat3.width) × (m.length ≡ s.mat3.length)
      → Live (record s { mat3 = m; pc = update2 s.pc i j p })
  thread-Live s m i j p q n e nq np same = record {
    wide = same.0 ∙ n.wide;
    long = same.1 ∙ n.long;
    begun = λ a b la lb h. elim (Bool-cases (a == i && b == j)) [
      | inl on ↦ rw on np
      | inr off ↦ rw off (n.begun a b la lb h)
    ];
    idle_yet = λ a b h. elim (Bool-cases (a == i && b == j)) [
      | inl on ↦
          let row : a ≡ i = ground arith in
          let col : b ≡ j = ground arith in
          absurd (
            nq (
              sym e
              ∙ subst (λ x. s.pc x j ≡ Pc.idle) row
                  (subst (λ y. s.pc a y ≡ Pc.idle) col (n.idle_yet a b h))))
      | inr off ↦ rw off (n.idle_yet a b h)
    ];
  }

  Step-Live : {abi : Abi} {s t : System} → Step abi mat1 mat2 s t → Live s → Live t
  Step-Live {abi} {s} (create_thread {i} {j} e li lj _ _) n = record {
    wide = n.wide;
    long = n.long;
    begun = λ a b la lb h. elim (Bool-cases (a == i && b == j)) [
      | inl on ↦ rw on (λ h. cc h)
      | inr off ↦ rw off (n.begun a b la lb (rw e (ground arith)))
    ];
    idle_yet = λ a b h.
        let off : a == i && b == j ≡ false = ground arith in
        rw off (n.idle_yet a b (rw e (ground arith)));
  }
  Step-Live {abi} {s} (end_row {i} {j} e li lj) n =
      main-Live s (MainPc.create (suc i) 0) n (λ a b la lb h. rw e (ground arith))
        (λ a b h. rw e (ground arith))
  Step-Live {abi} {s} (end_create {i} {j} e li) n =
      main-Live s (MainPc.join 0) n (λ a b la lb h. rw e (ground arith)) (λ a b h. absurd (cc h))
  Step-Live {abi} {s} (join_thread {k} e lk held out) n =
      main-Live s (MainPc.join (suc k)) n (λ a b la lb h. rw e refl) (λ a b h. absurd (cc h))
  Step-Live {abi} {s} (end_join e lk) n =
      main-Live s MainPc.print n (λ a b la lb h. rw e refl) (λ a b h. absurd (cc h))
  Step-Live {abi} {s} (read_arg i j {k} {arg} e held) n =
      thread-Live s s.mat3 i j _ (Pc.started k) n e (λ h. cc h) (λ h. cc h) (refl, refl)
  Step-Live {abi} {s} (zero_cell i j {row} {col} {m} e wrote) n =
      thread-Live s m i j _ (Pc.zeroing row col) n e (λ h. cc h) (λ h. cc h)
        (put-shape s.mat3 m row col _ wrote)
  Step-Live {abi} {s} (add_product i j {row} {col} {n = h} {m} e lh gc ga gb ep eq wrote) n =
      thread-Live s m i j _ (Pc.summing row col h) n e (λ h. cc h) (λ h. cc h)
        (put-shape s.mat3 m row col _ wrote)
  Step-Live {abi} {s} (exit_thread i j {row} {col} {n = h} e lh) n =
      thread-Live s s.mat3 i j _ (Pc.summing row col h) n e (λ h. cc h) (λ h. cc h) (refl, refl)

  pub Reach-Live :
      {abi : Abi} {mat0 : Matrix} {s : System}
      → (mat0.width ≡ mat2.cols) × (mat0.length ≡ mat1.rows)
      → Reach abi mat1 mat2 mat0 s
      → Live s
  Reach-Live shape start = record {
    wide = shape.0;
    long = shape.1;
    begun = λ i j li lj h. absurd (ground arith);
    idle_yet = λ i j h. refl;
  }
  Reach-Live shape (later r st) = Step-Live st (Reach-Live shape r)
