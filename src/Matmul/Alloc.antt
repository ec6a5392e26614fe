-- ===== src/Matmul/Alloc.antt =====
-- pthreads/matrixmul/matrixmul.c: what `matrix_alloc` and `matrix_read` hold and give back.
use experimentation.Base.{
  none, ◌⊎◌, false, ◌==◌, ℕ, zero, suc, ◌+◌, ◌*◌, ◌≤◌, ◌<◌, Bool, Bool-cases, true, ltb,
  if◌then◌else◌, some, ◌>>=◌, List, [], ◌∷◌, ◌++◌, map, ◌≡◌, refl, inl, inr, arith, ap,
}
use experimentation.Htable.Chains.{to_nat}
use experimentation.Matmul.Types.{Mmret, Matrix, Abi, modulus, word, room}
use experimentation.Matmul.Memory.{
  Block, header, pointers, Answers, RowsOutcome, complete, failed_at, AllocOutcome, rows_from,
  unwind, alloc_rows, fresh_matrix, finish_alloc, matrix_alloc, matrix_free,
}
use experimentation.Matmul.Setup.{is_ok}

-- how many elements of a list pass a test
pub tally {ℓ} : {A : Type ℓ} → (A → Bool) → List A → ℕ
tally q [] = 0
tally q (x ∷ xs) = to_nat (q x) + tally q xs

module _ {ℓ} {A : Type ℓ} (q : A → Bool) where
  pub tally-append : (xs ys : List A) → tally q (xs ++ ys) ≡ tally q xs + tally q ys
  unfolding tally
  tally-append [] ys = omega arith
  tally-append (x ∷ xs) ys = omega (arith, tally-append xs ys)

  pub tally-nil : tally q [] ≡ 0
  unfolding tally
  tally-nil = refl

  pub tally-cons : (x : A) (xs : List A) → tally q (x ∷ xs) ≡ to_nat (q x) + tally q xs
  unfolding tally
  tally-cons x xs = refl

pub tally-map {ℓ κ} :
    {A : Type ℓ} {B : Type κ} (q : B → Bool) (f : A → B) (xs : List A)
    → tally q (map f xs) ≡ tally (λ a. q (f a)) xs
unfolding tally
tally-map q f [] = refl
tally-map q f (x ∷ xs) = ap (λ n. to_nat (q (f x)) + n) (tally-map q f xs)

-- the sizes that matrix_alloc computes do not wrap around
pub record Sized (abi : Abi) (rows cols : ℕ) : Type 0 where
  pub few_rows : rows * word abi < modulus abi
  pub few_cols : cols * 4 < modulus abi

pub room-word : (abi : Abi) (n : ℕ) → n * word abi < modulus abi → room abi n (word abi) ≡ n
room-word Abi.ilp32 n l = omega arith
room-word Abi.lp64 n l = omega arith

pub room-int : (abi : Abi) (n : ℕ) → n * 4 < modulus abi → room abi n 4 ≡ n
room-int Abi.ilp32 n l = omega arith
room-int Abi.lp64 n l = omega arith

-- the blocks that the caller holds after a call
abbrev pub held : AllocOutcome → List Block
held o = if is_ok o.ret then matrix_free o.mat else []

pub record Balanced (rows cols : ℕ) (o : AllocOutcome) : Type 0 where
  pub even : (q : Block → Bool) → tally q o.allocated ≡ tally q o.freed + tally q (held o)
  pub shaped : is_ok o.ret ≡ true → (o.mat.rows ≡ rows) × (o.mat.cols ≡ cols)
  pub full : is_ok o.ret ≡ true → (o.mat.length ≡ rows) × (o.mat.width ≡ cols)

-- what matrix_alloc answers: all cells of the matrix are still to be written
pub record Allocated (rows cols : ℕ) (o : AllocOutcome) : Type 0 where
  pub balanced : Balanced rows cols o
  pub answer : (o.ret ≡ Mmret.ok) ⊎ (o.ret ≡ Mmret.enomem)
  pub blank : (i j : ℕ) → o.mat.cells i j ≡ none

-- the loop either comes to its end or stops at a row that it was to allocate
alloc_rows-Outcome :
    (got : ℕ → Bool) (length i rounds : ℕ)
    → i + rounds ≤ length
    → (o : RowsOutcome) × (alloc_rows got length i rounds ≡ some o)
unfolding alloc_rows
alloc_rows-Outcome got length i zero l = (complete, refl)
alloc_rows-Outcome got length i (suc rounds) l =
    let inside : ltb i length ≡ true = ground arith in
    elim (Bool-cases (got i)) [
      | inl e ↦ rw (inside, e) (alloc_rows-Outcome got length (suc i) rounds (omega arith))
      | inr e ↦ (failed_at i, rw (inside, e) refl)
    ]

-- the order in which the blocks are allocated and freed
pub tally-rows :
    (q : Block → Bool) (rows : List Block)
    → tally q (header ∷ pointers ∷ rows) ≡ tally q (rows ++ pointers ∷ header ∷ [])
unfolding tally
tally-rows q rows = omega (arith, tally-append q rows (pointers ∷ header ∷ []))

-- after a failure all is given back
failed-Balanced :
    (rows cols : ℕ) (m : Matrix) (blocks freed : List Block)
    → ((q : Block → Bool) → tally q blocks ≡ tally q freed)
    → Balanced rows cols (record { ret = Mmret.enomem; mat = m; allocated = blocks; freed = freed })
failed-Balanced rows cols m blocks freed same = record {
  even = λ q. omega (arith, same q, tally-nil q);
  shaped = λ e. absurd (cc e);
  full = λ e. absurd (cc e);
}

finish_alloc-Balanced :
    (abi : Abi) (rows cols : ℕ)
    → Sized abi rows cols
    → (o : RowsOutcome) → Balanced rows cols (finish_alloc (fresh_matrix abi rows cols) o)
unfolding finish_alloc unwind
finish_alloc-Balanced abi rows cols fit complete = record {
  even = λ q. unfold matrix_free in omega (arith, tally-nil q, tally-rows q (rows_from 0 rows));
  shaped = λ e. (refl, refl);
  full = λ e. (room-word abi rows fit.few_rows, room-int abi cols fit.few_cols);
}
finish_alloc-Balanced abi rows cols fit (failed_at zero) =
    failed-Balanced rows cols _ _ _ (λ q. unfold rows_from in tally-rows q [])
finish_alloc-Balanced abi rows cols fit (failed_at (suc i)) =
    let later : suc i == 0 ≡ false = ground arith in
    failed-Balanced rows cols _ _ _ (λ q. rw later (tally-rows q (rows_from 0 (suc i))))

finish_alloc-Allocated :
    (abi : Abi) (rows cols : ℕ)
    → Sized abi rows cols
    → (o : RowsOutcome) → Allocated rows cols (finish_alloc (fresh_matrix abi rows cols) o)
unfolding finish_alloc
finish_alloc-Allocated abi rows cols fit complete = record {
  balanced = finish_alloc-Balanced abi rows cols fit complete;
  answer = inl refl;
  blank = λ i j. refl;
}
finish_alloc-Allocated abi rows cols fit (failed_at i) = record {
  balanced = finish_alloc-Balanced abi rows cols fit (failed_at i);
  answer = inr refl;
  blank = λ i j. refl;
}

-- matrix_alloc
pub matrix_alloc-Allocated :
    (abi : Abi) (answers : Answers) (rows cols : ℕ)
    → Sized abi rows cols
    → (o : AllocOutcome) × (matrix_alloc abi answers rows cols ≡ some o) × Allocated rows cols o
unfolding matrix_alloc
matrix_alloc-Allocated abi answers rows cols fit =
    let m = fresh_matrix abi rows cols in
    elim (Bool-cases answers.header_got) [
      | inr e ↦ (
        _,
        rw e refl,
        record {
          balanced = failed-Balanced rows cols m [] (unwind 0 0) (λ q. unfold unwind in refl);
          answer = inr refl;
          blank = λ i j. refl;
        },
      )
      | inl h ↦ elim (Bool-cases answers.pointers_got) [
        | inr e ↦ (
          _,
          rw (h, e) refl,
          record {
            balanced =
                failed-Balanced rows cols m (header ∷ []) (unwind 1 0) (λ q. unfold unwind in refl);
            answer = inr refl;
            blank = λ i j. refl;
          },
        )
        | inl p ↦
            let (o, run) =
              alloc_rows-Outcome answers.row_got m.length 0 rows
                (omega (arith, room-word abi rows fit.few_rows)) in
            (
              finish_alloc m o,
              rw (h, p, run, ◌>>=◌) refl,
              finish_alloc-Allocated abi rows cols fit o,
            )
      ]
    ]
