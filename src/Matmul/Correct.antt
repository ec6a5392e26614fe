-- ===== src/Matmul/Correct.antt =====
-- pthreads/matrixmul/matrixmul.c: what `main` prints where `size_t` has the width of an `int`.
use experimentation.Matmul.Progress.{main_moves}
use experimentation.Matmul.Live.{Live, Reach-Live, Defined}
use experimentation.Matmul.Cost.{ranks-update2, rank_main, cost}
use experimentation.Matmul.Invariant.{created, Step-Inv, joined, init-Inv, Good, Inv}
use experimentation.Matmul.Product.{shape-Layout, product, Layout}
use experimentation.Matmul.Types.{get, Abi, Matrix}
use experimentation.Base.{
  ap, ◌≤◌, ◌+◌, suc, false, inl, inr, sym, ◌^◌, ◌<◌, ◌*◌, ◌⊎◌, ◌≡◌, ℕ, some, true, refl, arith,
}
use mathlib.Core.Path.{subst}
use experimentation.Matmul.Threads.{
  Step, init, create_thread, end_row, end_create, join_thread, end_join, read_arg, zero_cell,
  add_product, exit_thread, start, later, slot, MainPc, Pc, Reach, System,
}

module _ {mat1 mat2 : Matrix} (l : Layout Abi.ilp32 mat1 mat2) where
  Reach-Inv : {mat0 : Matrix} {s : System} → Reach Abi.ilp32 mat1 mat2 mat0 s → Inv l s
  Reach-Inv {mat0} start = init-Inv l mat0
  Reach-Inv (later r st) = Step-Inv l st (Reach-Inv r)

  exited_cell :
      (s : System) (i j : ℕ)
      → Inv l s
      → s.pc i j ≡ Pc.exited
      → get s.mat3 i j ≡ some (product mat1 mat2 i j mat1.cols)
  exited_cell s i j inv e = (subst (λ p. Good l s.v s.mat3 i j p) e (inv.good i j)).1

  -- every step leaves less to do
  Step-cost :
      (s t : System)
      → Inv l s
      → Live mat1 mat2 s
      → Step Abi.ilp32 mat1 mat2 s t
      → cost Abi.ilp32 mat1 mat2 t < cost Abi.ilp32 mat1 mat2 s
  unfolding cost
  Step-cost s t inv live (create_thread {i} {j} e li lj lv lt) =
      let not_yet : s.pc i j ≡ Pc.idle =
        live.idle_yet i j (subst (λ p. created p i j ≡ false) (sym e) (ground arith)) in
      omega (
        arith,
        ap (rank_main Abi.ilp32 mat1 mat2) e,
        ranks-update2 Abi.ilp32 mat1 mat2 s.pc i j _ Pc.idle li lj not_yet,
      )
  Step-cost s t inv live (end_row e li lj) = omega (arith, ap (rank_main Abi.ilp32 mat1 mat2) e)
  Step-cost s t inv live (end_create e li) = omega (arith, ap (rank_main Abi.ilp32 mat1 mat2) e)
  Step-cost s t inv live (join_thread e lk held out) =
      omega (arith, ap (rank_main Abi.ilp32 mat1 mat2) e)
  Step-cost s t inv live (end_join e lk) = omega (arith, ap (rank_main Abi.ilp32 mat1 mat2) e)
  Step-cost s t inv live (read_arg i j {k} {arg} e held) =
      let (r, same, own) = subst (λ p. Good l s.v s.mat3 i j p) e (inv.good i j) in
      omega (arith, ranks-update2 Abi.ilp32 mat1 mat2 s.pc i j _ (Pc.started k) r.0 r.1 e)
  Step-cost s t inv live (zero_cell i j {row} {col} {m} e wrote) =
      let (r, e1, e2) = subst (λ p. Good l s.v s.mat3 i j p) e (inv.good i j) in
      omega (arith, ranks-update2 Abi.ilp32 mat1 mat2 s.pc i j _ (Pc.zeroing row col) r.0 r.1 e)
  Step-cost s t inv live (add_product i j {row} {col} {n} e ln gc ga gb ep eq wrote) =
      let (r, e1, e2, le, sum) = subst (λ p. Good l s.v s.mat3 i j p) e (inv.good i j) in
      omega (arith, ranks-update2 Abi.ilp32 mat1 mat2 s.pc i j _ (Pc.summing row col n) r.0 r.1 e)
  Step-cost s t inv live (exit_thread i j {row} {col} {n} e ln) =
      let (r, e1, e2, le, sum) = subst (λ p. Good l s.v s.mat3 i j p) e (inv.good i j) in
      omega (arith, ranks-update2 Abi.ilp32 mat1 mat2 s.pc i j _ (Pc.summing row col n) r.0 r.1 e)

abbrev pub steps : {mat1 mat2 mat0 : Matrix} {s : System} → Reach Abi.ilp32 mat1 mat2 mat0 s → ℕ
steps start = 0
steps (later r st) = suc (steps r)

-- a run so far: what is left is bounded, somebody moves, and the end is the product
pub record Correct (mat1 mat2 mat0 : Matrix) (s : System) (r : Reach Abi.ilp32 mat1 mat2 mat0 s)
    : Type 0 where
  pub bounded :
      steps r + cost Abi.ilp32 mat1 mat2 s
      ≤ cost Abi.ilp32 mat1 mat2 (init Abi.ilp32 mat1 mat2 mat0)
  pub onward : (s.main ≡ MainPc.print) ⊎ ((t : System) × Step Abi.ilp32 mat1 mat2 s t)
  pub cells :
      s.main ≡ MainPc.print
      → (i j : ℕ) → i < mat1.rows
      → j < mat2.cols
      → get s.mat3 i j ≡ some (product mat1 mat2 i j mat1.cols)

module _ (mat1 mat2 mat0 : Matrix) (several : 0 < mat1.rows) (some_col : 0 < mat2.cols)
    (shape : (mat1.rows ≡ 1) ⊎ (mat1.rows ≡ mat2.cols)) (fit : mat1.rows * mat2.cols * 8 < 2 ^ 32)
    (size : (mat0.width ≡ mat2.cols) × (mat0.length ≡ mat1.rows)) where
  layout : Layout Abi.ilp32 mat1 mat2
  layout = shape-Layout mat1 mat2 shape fit several some_col

  printed_cell :
      (s : System)
      → Inv layout s
      → s.main ≡ MainPc.print
      → (i j : ℕ) → i < mat1.rows
      → j < mat2.cols
      → get s.mat3 i j ≡ some (product mat1 mat2 i j mat1.cols)
  printed_cell s inv e i j li lj =
      let k = slot Abi.ilp32 mat1 mat2 i j in
      let (a, b, held, out) =
        inv.done k
          (subst (λ p. k < joined Abi.ilp32 mat1 mat2 p) (sym e) (layout.inside i j li lj)) in
      let mine = inv.tids i j (li, lj) (subst (λ p. created p i j ≡ true) (sym e) refl) in
      let same : (a ≡ i) × (b ≡ j) = ground arith in
      exited_cell layout s i j inv
        (subst (λ x. s.pc x j ≡ Pc.exited) same.0 (subst (λ y. s.pc a y ≡ Pc.exited) same.1 out))

  Reach-steps :
      (s : System) (r : Reach Abi.ilp32 mat1 mat2 mat0 s)
      → steps r + cost Abi.ilp32 mat1 mat2 s
        ≤ cost Abi.ilp32 mat1 mat2 (init Abi.ilp32 mat1 mat2 mat0)
  Reach-steps s start = omega arith
  Reach-steps s (later {s = u} r st) = omega (
    arith,
    Reach-steps u r,
    Step-cost layout u s (Reach-Inv layout r) (Reach-Live mat1 mat2 size r) st,
  )

  -- Where size_t has the width of an int, the first matrix has one row or as many rows as the
  -- second has columns, neither is empty, there are fewer than 2 ^ 32 bytes of indices, and the
  -- entries are known and no product or sum overflows an int: a run of main and its threads,
  -- however they are interleaved, has a bounded number of steps; in every state that it reaches
  -- somebody can move or main prints; and when main prints, each cell of the result is the sum of
  -- the products of its row and its column.
  pub Reach-product :
      Defined mat1 mat2
      → (s : System) (r : Reach Abi.ilp32 mat1 mat2 mat0 s) → Correct mat1 mat2 mat0 s r
  Reach-product known s r =
      let inv = Reach-Inv layout r in
      record {
        bounded = Reach-steps s r;
        onward =
            elim (main_moves mat1 mat2 layout known s inv (Reach-Live mat1 mat2 size r) shape fit
              s.main refl) [ inl e ↦ inl e | inr moves ↦ inr moves ];
        cells = printed_cell s inv;
      }
