-- ===== src/Matmul/Balance.antt =====
-- pthreads/matrixmul/matrixmul.c, `main`: what is allocated and what is freed, at each depth.
use experimentation.Base.{
  Bool, Bool-cases, List, [], ap, arith, false, if◌then◌else◌, inl, inr, map, refl, ℕ, ◌++◌, ◌+◌,
  ◌∙◌, ◌∷◌, ◌≡◌,
}
use experimentation.Matmul.Alloc.{Balanced, tally, tally-append, tally-cons, tally-map, tally-nil}
use experimentation.Matmul.Memory.{AllocOutcome, Block, matrix_free}
use experimentation.Matmul.Setup.{
  MainBlock, Prepared, World, cleanup, is_ok, prepare_threads, tid, v,
}

-- every block that was allocated is freed as often, by a call that failed or by the switch
abbrev pub Even : Prepared → Type 0
Even p = (q : MainBlock → Bool) → tally q p.allocated ≡ tally q p.freed + tally q (cleanup p)

-- `main` with its depth, before any thread
abbrev pub at_depth : ℕ → Prepared → Prepared
at_depth d p = record p { threads = false; mdepth = d }

pub prepare_threads-Even :
    (w : World) (p : Prepared) → Even (at_depth 3 p) → Even (prepare_threads w (at_depth 3 p))
unfolding prepare_threads cleanup
prepare_threads-Even w p even q = elim (Bool-cases w.v_got) [
  | inr e ↦ rw e (even q)
  | inl got ↦ elim (Bool-cases w.tid_got) [
    | inr e ↦
        rw (got, e)
          (omega (
            arith,
            even q,
            tally-nil q,
            tally-append q p.allocated (v ∷ []),
            tally-cons q v [],
            tally-cons q v (cleanup (at_depth 3 p)),
          ))
    | inl e ↦
        rw (got, e)
          (omega (
            arith,
            even q,
            tally-nil q,
            tally-append q p.allocated (v ∷ tid ∷ []),
            tally-cons q v (tid ∷ []),
            tally-cons q tid [],
            tally-cons q v (cleanup (at_depth 3 p)),
            tally-cons q tid (cleanup (at_depth 4 p)),
          ))
  ]
]

-- a call that allocates a matrix, where `A` was allocated, `F` freed, and `C` is what the switch frees
pub call_balance :
    (q : MainBlock → Bool) (f : Block → MainBlock) {rows cols : ℕ} (o : AllocOutcome)
    → Balanced rows cols o
    → (A F C : List MainBlock) → tally q A ≡ tally q F + tally q C
    → tally q (A ++ map f o.allocated)
      ≡ tally q (F ++ map f o.freed)
        + tally q (if is_ok o.ret then map f (matrix_free o.mat) ++ C else C)
call_balance q f o b A F C even =
    let whole = b.even (λ a. q (f a)) in
    elim (Bool-cases (is_ok o.ret)) [
      | inl e ↦
          let whole' : tally (λ a. q (f a)) o.allocated
              ≡ tally (λ a. q (f a)) o.freed + tally (λ a. q (f a)) (matrix_free o.mat) =
            whole ∙ rw e refl in
          rw e (
            omega (
              arith,
              whole',
              even,
              tally-append q A (map f o.allocated),
              tally-append q F (map f o.freed),
              tally-append q (map f (matrix_free o.mat)) C,
              tally-map q f o.allocated,
              tally-map q f o.freed,
              tally-map q f (matrix_free o.mat),
            ))
      | inr e ↦
          let whole' : tally (λ a. q (f a)) o.allocated ≡ tally (λ a. q (f a)) o.freed + 0 =
            whole ∙ rw e (ap (λ n. tally (λ a. q (f a)) o.freed + n) (tally-nil (λ a. q (f a)))) in
          rw e (
            omega (
              arith,
              whole',
              even,
              tally-append q A (map f o.allocated),
              tally-append q F (map f o.freed),
              tally-map q f o.allocated,
              tally-map q f o.freed,
            ))
    ]
