-- ===== src/Matmul/Invariant.antt =====
-- pthreads/matrixmul/matrixmul.c: what holds whenever a thread or `main` is about to move, where
-- `size_t` has the width of an `int`.
use native.Mathlib.Decide.{dec_lt}
use mathlib.Core.Path.{subst}
use experimentation.Matmul.Setup.{numthreads}
use experimentation.Matmul.Threads.{
  create_thread, end_row, end_create, join_thread, end_join, read_arg, zero_cell, add_product,
  exit_thread, Step, init, System, MainPc, update2, update, Pc, slot,
}
use experimentation.Matmul.Product.{
  product-round, product-zero, get-put_self, get-put, product, Layout,
}
use experimentation.Matmul.Types.{get, put, Abi, Matrix}
use experimentation.Base.{
  sym, ap, ◌||◌, ◌≢◌, ltb, Bool-cases, ◌∙◌, ◌≤◌, ◌&&◌, ◌≡◌, ◌==◌, ◌<◌, ℤ, ℕ, suc, some, true, false,
  refl, inl, inr, Bool, Option, arith, pos,
}

-- whether `main` has created the thread of a cell
abbrev pub created : MainPc → ℕ → ℕ → Bool
created (MainPc.create a b) i j = ltb i a || (i == a && ltb j b)
created _ i j = true

-- how many threads `main` has joined
abbrev pub joined : Abi → Matrix → Matrix → MainPc → ℕ
joined abi mat1 mat2 (MainPc.create a b) = 0
joined abi mat1 mat2 (MainPc.join k) = k
joined abi mat1 mat2 MainPc.print = numthreads abi mat1 mat2

module _ {mat1 mat2 : Matrix} (l : Layout Abi.ilp32 mat1 mat2) where
  abbrev place : ℕ → ℕ → ℕ
  place i j = slot Abi.ilp32 mat1 mat2 i j

  abbrev sum_to : ℕ → ℕ → ℕ → ℤ
  sum_to i j n = product mat1 mat2 i j n

  abbrev pub InRange : ℕ → ℕ → Type 0
  InRange i j = (i < mat1.rows) × (j < mat2.cols)

  -- the thread of a cell has its own argument, and then works on its own cell
  abbrev pub Good : (ℕ → Option (ℕ × ℕ)) → Matrix → ℕ → ℕ → Pc → Type 0
  Good v m i j Pc.idle = Unit {0}
  Good v m i j (Pc.started k) = InRange i j × (k ≡ place i j) × (v k ≡ some (i, j))
  Good v m i j (Pc.zeroing a b) = InRange i j × (a ≡ i) × (b ≡ j)
  Good v m i j (Pc.summing a b n) =
      InRange i j × (a ≡ i) × (b ≡ j) × (n ≤ mat1.cols) × (get m i j ≡ some (sum_to i j n))
  Good v m i j Pc.exited = InRange i j × (get m i j ≡ some (sum_to i j mat1.cols))

  Good-update :
      (v : ℕ → Option (ℕ × ℕ)) (m : Matrix) (i j a b : ℕ) (p : Pc)
      → InRange i j
      → a == i && b == j ≡ false
      → Good v m a b p
      → Good (update v (place i j) (some (i, j))) m a b p
  Good-update v m i j a b Pc.idle r off g = tt
  Good-update v m i j a b (Pc.started k) r off g =
      let (r', same, own) = g in (r', same, ground (arith, l.apart i j a b))
  Good-update v m i j a b (Pc.zeroing c d) r off g = g
  Good-update v m i j a b (Pc.summing c d n) r off g = g
  Good-update v m i j a b Pc.exited r off g = g

  Good-put :
      (v : ℕ → Option (ℕ × ℕ)) (m m' : Matrix) (i j a b : ℕ) (x : Option ℤ) (p : Pc)
      → put m i j x ≡ some m'
      → a == i && b == j ≡ false
      → Good v m a b p
      → Good v m' a b p
  Good-put v m m' i j a b x Pc.idle wrote off g = g
  Good-put v m m' i j a b x (Pc.started k) wrote off g = g
  Good-put v m m' i j a b x (Pc.zeroing c d) wrote off g = g
  Good-put v m m' i j a b x (Pc.summing c d n) wrote off g =
      let (r, row, col, le, value) = g in
      (r, row, col, le, get-put m i j a b x wrote ∙ rw off value)
  Good-put v m m' i j a b x Pc.exited wrote off g =
      let (r, value) = g in (r, get-put m i j a b x wrote ∙ rw off value)

  -- one thread moves
  Good-update2 :
      (v : ℕ → Option (ℕ × ℕ)) (m : Matrix) (pc : ℕ → ℕ → Pc) (i j : ℕ) (p : Pc)
      → Good v m i j p
      → ((a b : ℕ) → a == i && b == j ≡ false → Good v m a b (pc a b))
      → (a b : ℕ) → Good v m a b (update2 pc i j p a b)
  Good-update2 v m pc i j p own others a b = elim (Bool-cases (a == i && b == j)) [
    | inr off ↦ rw off (others a b off)
    | inl on ↦ let e : a ≡ i = ground arith in let f : b ≡ j = ground arith in rw (on, e, f) own
  ]

  pub record Inv (s : System) : Type 0 where
    pub good : (i j : ℕ) → Good s.v s.mat3 i j (s.pc i j)
    pub tids : (i j : ℕ) → InRange i j → created s.main i j ≡ true → s.tid (place i j) ≡ some (i, j)
    pub done :
        (k : ℕ)
        → k < joined Abi.ilp32 mat1 mat2 s.main
        → (i : ℕ) × (j : ℕ) × (s.tid k ≡ some (i, j)) × (s.pc i j ≡ Pc.exited)

  pub init-Inv : (m : Matrix) → Inv (init Abi.ilp32 mat1 mat2 m)
  init-Inv m = record {
    good = λ i j. tt;
    tids = λ i j r h. absurd (ground arith);
    done = λ k h. absurd (omega arith);
  }

  -- `main` moves on
  main-Inv :
      (s : System) (next : MainPc)
      → Inv s
      → ((i j : ℕ) → InRange i j → created next i j ≡ true → created s.main i j ≡ true)
      → ((k : ℕ)
          → k < joined Abi.ilp32 mat1 mat2 next
          → (i : ℕ) × (j : ℕ) × (s.tid k ≡ some (i, j)) × (s.pc i j ≡ Pc.exited))
      → Inv (record s { main = next })
  main-Inv s next inv same all = record {
    good = inv.good;
    tids = λ i j r h. inv.tids i j r (same i j r h);
    done = all;
  }

  -- a thread moves that has not exited
  thread-Inv :
      (s : System) (m : Matrix) (i j : ℕ) (p : Pc)
      → Inv s
      → s.pc i j ≢ Pc.exited
      → Good s.v m i j p
      → ((a b : ℕ) → a == i && b == j ≡ false → Good s.v m a b (s.pc a b))
      → Inv (record s { mat3 = m; pc = update2 s.pc i j p })
  thread-Inv s m i j p inv busy own others = record {
    good = Good-update2 s.v m s.pc i j p own others;
    tids = inv.tids;
    done = λ k h.
        let (a, b, held, out) = inv.done k h in
        let other : a == i && b == j ≡ false = ground (arith, busy) in (a, b, held, rw other out);
  }

  -- one more thread is joined
  last_joined :
      (s : System) {k i j : ℕ}
      → Inv s
      → s.main ≡ MainPc.join k
      → s.tid k ≡ some (i, j)
      → s.pc i j ≡ Pc.exited
      → (n : ℕ) → n < suc k
      → (a : ℕ) × (b : ℕ) × (s.tid n ≡ some (a, b)) × (s.pc a b ≡ Pc.exited)
  last_joined s {k} {i} {j} inv e held out n h = elim (dec_lt n k) [
    | yes lt ↦ inv.done n (rw e lt)
    | no ge ↦ let last : n ≡ k = omega arith in (i, j, rw last held, out)
  ]

  pub Step-Inv : {s t : System} → Step Abi.ilp32 mat1 mat2 s t → Inv s → Inv t
  Step-Inv {s} (create_thread {i} {j} e li lj _ _) inv = record {
    good =
        Good-update2 (update s.v (place i j) (some (i, j))) s.mat3 s.pc i j (Pc.started (place i j))
          ((li, lj), refl, ground arith)
          (λ a b off. Good-update s.v s.mat3 i j a b (s.pc a b) (li, lj) off (inv.good a b));
    tids = λ a b r h.
        let before : created s.main a b ≡ created (MainPc.create i j) a b =
          ap (λ p. created p a b) e in
        ground (arith, before, l.apart a b i j, inv.tids a b r);
    done = λ k h. absurd (omega arith);
  }
  Step-Inv {s} (end_row {i} {j} e li lj) inv =
      main-Inv s (MainPc.create (suc i) 0) inv (λ a b r h. rw e (ground arith))
        (λ k h. absurd (omega arith))
  Step-Inv {s} (end_create {i} {j} e li) inv =
      main-Inv s (MainPc.join 0) inv (λ a b r h. rw e (ground arith)) (λ k h. absurd (omega arith))
  Step-Inv {s} (join_thread {k} {i} {j} e lk held out) inv =
      main-Inv s (MainPc.join (suc k)) inv (λ a b r h. rw e refl)
        (λ n h. last_joined s inv e held out n (omega arith))
  Step-Inv {s} (end_join {k} e lk) inv =
      main-Inv s MainPc.print inv (λ a b r h. rw e refl) (λ n h. inv.done n (rw e (omega arith)))
  Step-Inv {s} (read_arg i j {k} {arg} e held) inv =
      let (r, same, own) = subst (λ p. Good s.v s.mat3 i j p) e (inv.good i j) in
      let mine : arg ≡ (i, j) = cc in
      thread-Inv s s.mat3 i j _ inv (λ out. cc)
        (r, rw mine (ground (arith, l.small)), rw mine (ground (arith, l.small)))
        (λ a b off. inv.good a b)
  Step-Inv {s} (zero_cell i j {row} {col} {m} e wrote) inv =
      let (r, e1, e2) = subst (λ p. Good s.v s.mat3 i j p) e (inv.good i j) in
      let wrote' : put s.mat3 i j (some (pos 0)) ≡ some m = cc in
      thread-Inv s m i j (Pc.summing row col 0) inv (λ out. cc)
        (
          r,
          e1,
          e2,
          omega arith,
          get-put_self s.mat3 i j (some (pos 0)) wrote'
              ∙ ap some (sym (product-zero mat1 mat2 i j)),
        )
        (λ a b off.
          Good-put s.v s.mat3 m i j a b (some (pos 0)) (s.pc a b) wrote' off (inv.good a b))
  Step-Inv {s} (add_product i j {row} {col} {n} {m} {a} {b} {c} {x} {y} e ln gc ga gb ep eq wrote)
        inv =
      let (r, e1, e2, le, sum) = subst (λ p. Good s.v s.mat3 i j p) e (inv.good i j) in
      let wrote' : put s.mat3 i j (some y) ≡ some m = cc in
      let before : some c ≡ some (sum_to i j n) = cc in
      let same : c ≡ sum_to i j n = ground arith in
      let round : y ≡ sum_to i j (suc n) =
        product-round mat1 mat2 i j n a b x c (rw (← e1) ga) (rw (← e2) gb) ep eq same in
      thread-Inv s m i j (Pc.summing row col (suc n)) inv (λ out. cc)
        (r, e1, e2, omega arith, get-put_self s.mat3 i j (some y) wrote' ∙ ap some round)
        (λ a b off. Good-put s.v s.mat3 m i j a b (some y) (s.pc a b) wrote' off (inv.good a b))
  Step-Inv {s} (exit_thread i j {row} {col} {n} e ln) inv =
      let (r, e1, e2, le, sum) = subst (λ p. Good s.v s.mat3 i j p) e (inv.good i j) in
      let last : n ≡ mat1.cols = omega arith in
      thread-Inv s s.mat3 i j Pc.exited inv (λ out. cc)
        (r, sum ∙ ap (λ k. some (sum_to i j k)) last) (λ a b off. inv.good a b)
