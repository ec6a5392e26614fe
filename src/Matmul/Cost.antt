-- ===== src/Matmul/Cost.antt =====
-- pthreads/matrixmul/matrixmul.c: what the threads and `main` have still to do, as a number.
use experimentation.Matmul.Setup.{numthreads}
use experimentation.Matmul.Threads.{System, MainPc, update2, Pc}
use experimentation.Matmul.Types.{Matrix, Abi}
use native.Mathlib.Decide.{ℕ_discrete}
use experimentation.Base.{
  ap, ◌&&◌, ◌==◌, ◌-◌, ◌≡◌, ◌≢◌, ◌<◌, ◌+◌, ℕ, zero, suc, true, false, refl, arith,
}

abbrev sum_below : ℕ → (ℕ → ℕ) → ℕ
sum_below zero g = 0
sum_below (suc n) g = g n + sum_below n g

sum-same : (n : ℕ) (g h : ℕ → ℕ) → ((k : ℕ) → k < n → h k ≡ g k) → sum_below n h ≡ sum_below n g
sum-same zero g h same = refl
sum-same (suc n) g h same =
    omega (arith, same n (omega arith), sum-same n g h (λ k l. same k (omega arith)))

-- one term changes
sum-change :
    (n i : ℕ) (g h : ℕ → ℕ)
    → i < n
    → ((k : ℕ) → k ≢ i → h k ≡ g k)
    → sum_below n h + g i ≡ sum_below n g + h i
sum-change zero i g h l same = absurd (omega arith)
sum-change (suc n) i g h l same = elim (ℕ_discrete n i) [
  | yes last ↦
      let rest : sum_below n h ≡ sum_below n g =
        sum-same n g h (λ k lk. same k (λ e. omega arith)) in
      rw (← last) (omega (arith, rest))
  | no other ↦ omega (arith, same n other, sum-change n i g h (omega arith) same)
]

-- the steps of a thread, and those of `main`
abbrev pub rank : ℕ → Pc → ℕ
rank m Pc.idle = m + 4
rank m (Pc.started k) = m + 3
rank m (Pc.zeroing a b) = m + 2
rank m (Pc.summing a b n) = m - n + 1
rank m Pc.exited = 0

module _ (abi : Abi) (mat1 mat2 : Matrix) where
  abbrev pub rank_main : MainPc → ℕ
  rank_main (MainPc.create i j) = mat1.rows - i + numthreads abi mat1 mat2 + 2
  rank_main (MainPc.join k) = numthreads abi mat1 mat2 - k + 1
  rank_main MainPc.print = 0

  pub ranks : (ℕ → ℕ → Pc) → ℕ
  ranks pc = sum_below mat1.rows (λ i. sum_below mat2.cols (λ j. rank mat1.cols (pc i j)))

  unfoldable pub cost : System → ℕ
  cost s = ranks s.pc + rank_main s.main

  -- a thread moves
  pub ranks-update2 :
      (pc : ℕ → ℕ → Pc) (i j : ℕ) (p q : Pc)
      → i < mat1.rows
      → j < mat2.cols
      → pc i j ≡ q
      → ranks (update2 pc i j p) + rank mat1.cols q ≡ ranks pc + rank mat1.cols p
  unfolding ranks
  ranks-update2 pc i j p q li lj e =
      let m = mat1.cols in
      let old = λ (a b : ℕ). rank m (pc a b) in
      let new = λ (a b : ℕ). rank m (update2 pc i j p a b) in
      let rows : (a : ℕ) → a ≢ i → sum_below mat2.cols (new a) ≡ sum_below mat2.cols (old a) =
        λ a other. sum-same mat2.cols (old a) (new a) (λ b lb.
          let off : a == i && b == j ≡ false = ground arith in ap (rank m) (rw off refl)) in
      let cells : (b : ℕ) → b ≢ j → new i b ≡ old i b =
        λ b other. let off : i == i && b == j ≡ false = ground arith in ap (rank m) (rw off refl) in
      let outer =
        sum-change mat1.rows i (λ a. sum_below mat2.cols (old a)) (λ a. sum_below mat2.cols (new a))
          li rows in
      let inner = sum-change mat2.cols j (old i) (new i) lj cells in
      let here : new i j ≡ rank m p =
        let on : i == i && j == j ≡ true = ground arith in ap (rank m) (rw on refl) in
      omega (arith, outer, inner, ap (rank m) e, here)
