-- ===== src/Matmul/Undefined.antt =====
-- pthreads/matrixmul/matrixmul.c: the shapes for which the program has no defined behaviour.
use experimentation.Matmul.Setup.{numthreads}
use experimentation.Matmul.Invariant.{joined, created}
use experimentation.Matmul.Types.{room, modulus, word, Matrix, Abi}
use experimentation.Base.{
  ◌%◌, ◌≢◌, ◌-◌, ◌+◌, ◌*◌, ◌≤◌, zero, suc, sym, ◌∙◌, ◌&&◌, ◌==◌, Bool-cases, ap, ◌≡◌, ◌<◌, ℕ, some,
  true, refl, inl, inr, arith,
}
use mathlib.Core.Path.{subst}
use native.Mathlib.Decide.{dec_lt}
use experimentation.Matmul.Threads.{
  v_room, slot, MainPc, Reach, Step, System, create_thread, end_row, end_create, join_thread,
  end_join, read_arg, zero_cell, add_product, exit_thread, start, later,
}

module _ (abi : Abi) (mat1 mat2 mat0 : Matrix) where
  -- what a run has shown of the places in `v` and `tid`
  record Placed (s : System) : Type 0 where
    made :
        (i j : ℕ)
        → i < mat1.rows
        → j < mat2.cols
        → created s.main i j ≡ true
        → slot abi mat1 mat2 i j < v_room abi mat1 mat2
    set :
        (k : ℕ) (p : ℕ × ℕ)
        → s.tid k ≡ some p
        → (i : ℕ) × (j : ℕ) × (i < mat1.rows) × (j < mat2.cols) × (k ≡ slot abi mat1 mat2 i j)
    met : (k : ℕ) → k < joined abi mat1 mat2 s.main → (p : ℕ × ℕ) × (s.tid k ≡ some p)

  Step-Placed : {s t : System} → Step abi mat1 mat2 s t → Placed s → Placed t
  Step-Placed {s} (create_thread {i} {j} e li lj lv lt) n = record {
    made = λ a b la lb h.
        let before : created s.main a b ≡ created (MainPc.create i j) a b =
          ap (λ p. created p a b) e in
        elim (Bool-cases (a == i && b == j)) [
          | inl on ↦
              let row : a ≡ i = ground arith in let col : b ≡ j = ground arith in rw (row, col) lv
          | inr off ↦ n.made a b la lb (before ∙ ground arith)
        ];
    set = λ k p h. elim (Bool-cases (k == slot abi mat1 mat2 i j)) [
      | inl on ↦ (i, j, li, lj, ground arith)
      | inr off ↦ n.set k p (sym (rw off refl) ∙ h)
    ];
    met = λ k h. absurd (omega arith);
  }
  Step-Placed {s} (end_row e li lj) n = record {
    made = λ a b la lb h. n.made a b la lb (rw e (ground arith));
    set = n.set;
    met = λ k h. absurd (omega arith);
  }
  Step-Placed {s} (end_create e li) n = record {
    made = λ a b la lb h. n.made a b la lb (rw e (ground arith));
    set = n.set;
    met = λ k h. absurd (omega arith);
  }
  Step-Placed {s} (join_thread {k} {i} {j} e lk held out) n = record {
    made = λ a b la lb h. n.made a b la lb (rw e refl);
    set = n.set;
    met = λ m h. elim (dec_lt m k) [
      | yes lt ↦ n.met m (subst (λ p. m < joined abi mat1 mat2 p) (sym e) lt)
      | no ge ↦ let last : m ≡ k = omega arith in ((i, j), rw last held)
    ];
  }
  Step-Placed {s} (end_join {k} e lk) n = record {
    made = λ a b la lb h. n.made a b la lb (rw e refl);
    set = n.set;
    met = λ m h. n.met m (subst (λ p. m < joined abi mat1 mat2 p) (sym e) (omega arith));
  }
  Step-Placed (read_arg i j e held) n = record { made = n.made; set = n.set; met = n.met }
  Step-Placed (zero_cell i j e wrote) n = record { made = n.made; set = n.set; met = n.met }
  Step-Placed (add_product i j e lh gc ga gb ep eq wrote) n = record {
    made = n.made;
    set = n.set;
    met = n.met;
  }
  Step-Placed (exit_thread i j e lh) n = record { made = n.made; set = n.set; met = n.met }

  Reach-Placed : {s : System} → Reach abi mat1 mat2 mat0 s → Placed s
  Reach-Placed start = record {
    made = λ i j li lj h. absurd (ground arith);
    set = λ k p h. absurd (cc h);
    met = λ k h. absurd (omega arith);
  }
  Reach-Placed (later r st) = Step-Placed st (Reach-Placed r)

-- more rows than columns: the place of the last cell is past the last element
last_place : (p c : ℕ) → 0 < p → 0 < c → c ≤ p → suc p * c ≤ p * suc p + (c - 1)
last_place p c lp lc le = grind arith

pred_mul : (p : ℕ) → suc p * suc p ≡ p * suc p + suc p
pred_mul p = grind arith

row_le : (p i : ℕ) → i ≤ p → i * suc p ≤ p * suc p
row_le p i le = grind arith

mul_mono : (p a b : ℕ) → a ≤ b → p * a ≤ p * b
mul_mono zero a b le = omega arith
mul_mono (suc p) a b le =
    let e : suc p * a ≡ p * a + a = grind arith in
    let f : suc p * b ≡ p * b + b = grind arith in omega (arith, mul_mono p a b le)

stretch : (p c : ℕ) → 0 < p → suc p < c → p * suc p < p * c
stretch p c lp lt =
    let more : p * suc (suc p) ≡ p * suc p + p = grind arith in
    let le : p * suc (suc p) ≤ p * c = mul_mono p (suc (suc p)) c lt in omega arith

-- fewer rows than columns: no cell has the last place
no_last_place : (p c i j : ℕ) → 0 < p → suc p < c → i ≤ p → j < c → i * suc p + j < suc p * c - 1
no_last_place p c i j lp lt li lj =
    let whole : suc p * c ≡ p * c + c = grind arith in
    omega (arith, row_le p i li, stretch p c lp lt)

modulus-eq : (abi : Abi) (n : ℕ) → n < modulus abi → n % modulus abi ≡ n
modulus-eq Abi.ilp32 n l = omega arith
modulus-eq Abi.lp64 n l = omega arith

word-le : (abi : Abi) (n : ℕ) → n * (2 * word abi) < modulus abi → n < modulus abi
word-le Abi.ilp32 n l = omega arith
word-le Abi.lp64 n l = omega arith

room-pair : (abi : Abi) (n : ℕ) → n * (2 * word abi) < modulus abi → room abi n (2 * word abi) ≡ n
room-pair Abi.ilp32 n l = omega arith
room-pair Abi.lp64 n l = omega arith

module _ (abi : Abi) (mat1 mat2 mat0 : Matrix) (several : 1 < mat1.rows) (some_col : 0 < mat2.cols)
    (fit : mat1.rows * mat2.cols * (2 * word abi) < modulus abi)
    (fit' : mat1.rows * mat1.rows + mat2.cols < modulus abi) where
  numthreads-eq : numthreads abi mat1 mat2 ≡ mat1.rows * mat2.cols
  unfolding numthreads
  numthreads-eq = modulus-eq abi (mat1.rows * mat2.cols) (word-le abi (mat1.rows * mat2.cols) fit)

  slot-eq : (i j : ℕ) → i < mat1.rows → j < mat2.cols → slot abi mat1 mat2 i j ≡ i * mat1.rows + j
  unfolding slot
  slot-eq i j li lj =
      let p = mat1.rows - 1 in
      let whole : suc p ≡ mat1.rows = omega arith in
      let le : i * suc p ≤ p * suc p = row_le p i (omega arith) in
      let le' : i * mat1.rows ≤ p * mat1.rows = subst (λ r. i * r ≤ p * r) whole le in
      let square : mat1.rows * mat1.rows ≡ p * mat1.rows + mat1.rows =
        subst (λ r. r * r ≡ p * r + r) whole (pred_mul p) in
      modulus-eq abi (i * mat1.rows + j) (omega arith)

  v_room-eq : v_room abi mat1 mat2 ≡ mat1.rows * mat2.cols
  unfolding v_room
  v_room-eq = rw numthreads-eq (room-pair abi (mat1.rows * mat2.cols) fit)

  -- with more rows than columns the last cell has no place in `v`
  tall_place :
      mat2.cols < mat1.rows
      → v_room abi mat1 mat2 ≤ slot abi mat1 mat2 (mat1.rows - 1) (mat2.cols - 1)
  tall_place tall =
      let p = mat1.rows - 1 in
      let whole : suc p ≡ mat1.rows = omega arith in
      rw (v_room-eq, slot-eq p (mat2.cols - 1) (omega arith) (omega arith))
        (subst (λ r. r * mat2.cols ≤ p * r + (mat2.cols - 1)) whole
          (last_place p mat2.cols (omega arith) some_col (omega arith)))

  -- with fewer rows than columns no cell has the last place in `tid`
  wide_place :
      mat1.rows < mat2.cols
      → (i j : ℕ) → i < mat1.rows
      → j < mat2.cols
      → slot abi mat1 mat2 i j < mat1.rows * mat2.cols - 1
  wide_place wide i j li lj =
      let p = mat1.rows - 1 in
      let whole : suc p ≡ mat1.rows = omega arith in
      rw (slot-eq i j li lj) (
        subst (λ r. i * r + j < r * mat2.cols - 1) whole
          (no_last_place p mat2.cols i j (omega arith) (omega arith) (omega arith) lj))

  -- Where the first matrix has several rows, the second a column, and not as many columns as the
  -- first has rows, with sizes that fit in a size_t, main has no defined run to its last line: a
  -- thread has no place in v, or a place of tid is never set.
  pub Reach-undefined :
      mat1.rows ≢ mat2.cols → (s : System) → Reach abi mat1 mat2 mat0 s → s.main ≢ MainPc.print
  Reach-undefined oblong s r e =
      let n = Reach-Placed abi mat1 mat2 mat0 r in
      elim (dec_lt mat2.cols mat1.rows) [
        | yes tall ↦
            let made =
              n.made (mat1.rows - 1) (mat2.cols - 1) (omega arith) (omega arith)
                (subst (λ p. created p (mat1.rows - 1) (mat2.cols - 1) ≡ true) (sym e) refl) in
            absurd (omega (arith, made, tall_place tall))
        | no low ↦
            let wide : mat1.rows < mat2.cols = omega arith in
            let last = mat1.rows * mat2.cols - 1 in
            let room : last < numthreads abi mat1 mat2 =
              omega (arith, numthreads-eq, wide_place wide 0 0 (omega arith) some_col) in
            let (p, held) = n.met last (subst (λ q. last < joined abi mat1 mat2 q) (sym e) room) in
            let (i, j, li, lj, place) = n.set last p held in
            absurd (omega (arith, place, wide_place wide i j li lj))
      ]
