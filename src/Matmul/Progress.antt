-- ===== src/Matmul/Progress.antt =====
-- pthreads/matrixmul/matrixmul.c: in a state that can be reached somebody moves, until `main` prints.
use experimentation.Matmul.Setup.{numthreads}
use experimentation.Matmul.Invariant.{created, Good, Inv}
use experimentation.Matmul.Live.{Live, Defined}
use experimentation.Matmul.Product.{entry-eq, slot-onto, rooms, product, entry, Layout}
use experimentation.Matmul.Types.{is_cell, written, Abi, get, Matrix, put}
use experimentation.Base.{
  ◌+ℤ◌, ◌*ℤ◌, ◌^◌, ◌*◌, ◌≢◌, ◌⊎◌, sym, ap, ◌∙◌, to_int, ◌≡◌, fits, ◌<◌, ℤ, ℕ, suc, some, true, refl,
  inl, inr, Option, arith, pos,
}
use mathlib.Core.Path.{subst}
use native.Mathlib.Decide.{dec_lt}
use experimentation.Matmul.Threads.{
  MainPc, Step, Pc, System, create_thread, end_row, end_create, join_thread, end_join, read_arg,
  zero_cell, add_product, exit_thread,
}

put-inside :
    (m : Matrix) (i j : ℕ) (x : Option ℤ)
    → i < m.length
    → j < m.width
    → put m i j x ≡ some (written m i j x)
unfolding put
put-inside m i j x li lj = let on : is_cell m i j ≡ true = ground arith in rw on refl

to_int-fits : (x : ℤ) → fits x ≡ true → to_int x ≡ some x
to_int-fits x h = rw h refl

entry-known :
    (m : Matrix) (i j : ℕ) → (x : ℤ) × (get m i j ≡ some x) → get m i j ≡ some (entry m i j)
entry-known m i j (x, e) = e ∙ ap some (sym (entry-eq m i j e))

next_fits :
    (a b : Matrix) (i j n : ℕ)
    → fits (product a b i j (suc n)) ≡ true
    → to_int (product a b i j n +ℤ entry a i n *ℤ entry b n j)
      ≡ some (product a b i j n +ℤ entry a i n *ℤ entry b n j)
unfolding product
next_fits a b i j n h = to_int-fits (product a b i j n +ℤ entry a i n *ℤ entry b n j) h

module _ (mat1 mat2 : Matrix) (l : Layout Abi.ilp32 mat1 mat2) (d : Defined mat1 mat2) (s : System)
    (inv : Inv l s) (live : Live mat1 mat2 s) where
  abbrev pub Moves : Type 0
  Moves = (t : System) × Step Abi.ilp32 mat1 mat2 s t

  pub thread_moves :
      (i j : ℕ)
      → i < mat1.rows
      → j < mat2.cols
      → (p : Pc) → s.pc i j ≡ p
      → p ≢ Pc.idle
      → (p ≡ Pc.exited) ⊎ Moves
  thread_moves i j li lj Pc.idle e busy = absurd (busy refl)
  thread_moves i j li lj (Pc.started k) e busy =
      let (r, same, own) = subst (λ p. Good l s.v s.mat3 i j p) e (inv.good i j) in
      inr (_, read_arg i j e own)
  thread_moves i j li lj (Pc.zeroing a b) e busy =
      let (r, row, col) = subst (λ p. Good l s.v s.mat3 i j p) e (inv.good i j) in
      inr (
        _,
        zero_cell i j e (
            put-inside s.mat3 a b (some (pos 0)) (omega (arith, live.long))
              (omega (arith, live.wide))),
      )
  thread_moves i j li lj (Pc.summing a b n) e busy =
      let (r, row, col, le, sum) = subst (λ p. Good l s.v s.mat3 i j p) e (inv.good i j) in
      elim (dec_lt n mat1.cols) [
        | no done ↦ inr (_, exit_thread i j e (omega arith))
        | yes ln ↦
            let (small, small') = d.fitting i j n li lj ln in
            inr (
              _,
              add_product i j e ln
                  (subst (λ x. get s.mat3 x b ≡ some (product mat1 mat2 i j n)) (sym row)
                    (subst (λ y. get s.mat3 i y ≡ some (product mat1 mat2 i j n)) (sym col) sum))
                  (subst (λ x. get mat1 x n ≡ some (entry mat1 i n)) (sym row)
                    (entry-known mat1 i n (d.left i n li ln)))
                  (subst (λ y. get mat2 n y ≡ some (entry mat2 n j)) (sym col)
                    (entry-known mat2 n j (d.right n j ln lj)))
                  (to_int-fits (entry mat1 i n *ℤ entry mat2 n j) small)
                  (next_fits mat1 mat2 i j n small')
                  (put-inside s.mat3 a b _ (omega (arith, live.long)) (omega (arith, live.wide))),
            )
      ]
  thread_moves i j li lj Pc.exited e busy = inl refl

  pub main_moves :
      (mat1.rows ≡ 1) ⊎ (mat1.rows ≡ mat2.cols)
      → mat1.rows * mat2.cols * 8 < 2 ^ 32
      → (p : MainPc) → s.main ≡ p
      → (p ≡ MainPc.print) ⊎ Moves
  main_moves shape fit (MainPc.create i j) e = elim (dec_lt i mat1.rows) [
    | no done ↦ inr (_, end_create e (omega arith))
    | yes li ↦ elim (dec_lt j mat2.cols) [
      | no end ↦ inr (_, end_row e li (omega arith))
      | yes lj ↦
          let (in_v, in_tid) = rooms mat1 mat2 shape fit in
          let inside = l.inside i j li lj in
          inr (_, create_thread e li lj (omega arith) (omega arith))
    ]
  ]
  main_moves shape fit (MainPc.join k) e = elim (dec_lt k (numthreads Abi.ilp32 mat1 mat2)) [
    | no done ↦ inr (_, end_join e (omega arith))
    | yes lk ↦
        let (i, j, li, lj, place) = slot-onto mat1 mat2 shape fit k lk in
        let all : created s.main i j ≡ true = subst (λ p. created p i j ≡ true) (sym e) refl in
        let held : s.tid k ≡ some (i, j) =
          subst (λ n. s.tid n ≡ some (i, j)) place (inv.tids i j (li, lj) all) in
        elim (thread_moves i j li lj (s.pc i j) refl (live.begun i j li lj all)) [
          | inl out ↦ inr (_, join_thread e lk held out)
          | inr moves ↦ inr moves
        ]
  ]
  main_moves shape fit MainPc.print e = inl refl
