-- ===== src/Buddy/Init.antt =====
-- buddy/mpool.c, `mpool_init`: what is answered and what is set up.
use experimentation.Base.{
  Bool, Bool-cases, List, Option, [], ap, arith, false, get_or-replicate, inl, inr, leb,
  length-replicate, ltb, max, none, refl, replicate, set, some, suc, true, zero, ℕ, ◌&&◌, ◌+◌, ◌-◌,
  ◌<◌, ◌>>=◌, ◌^◌, ◌∷◌, ◌≡◌, ◌≤◌, ◌⊎◌,
}
use experimentation.Buddy.Bits.{aligned-zero, bit-zero}
use experimentation.Buddy.Levels.{Levels}
use experimentation.Buddy.Pool.{create, mpool_init}
use experimentation.Buddy.Sums.{insert_head-set, row_sum, total}
use experimentation.Buddy.Types.{Blknode, Mpool, Mpret, node_size}
use experimentation.Buddy.Valid.{
  IsPool, covers, misaligned, misplaced, misplaced_parent, misplaced_right, shift-lt, size_of, uses,
}

-- the pool of one available block
abbrev pub whole : ℕ → ℕ → Mpool
whole max min = record {
  nblocks = max - min + 1;
  maxlogsize = max;
  minlogsize = min;
  nsplits = 0;
  nmerges = 0;
  blktable = set (replicate (max - min + 1) []) 0 (
      record {
        addr = 0;
        avail = true;
        right = false;
        parent = true;
        logsize = max;
        ptr = node_size;
      }
      ∷ []);
}

total-replicate : (w : Blknode → ℕ) (n : ℕ) → total w (replicate n []) ≡ 0
unfolding total row_sum
total-replicate w zero = refl
total-replicate w (suc n) = omega (arith, total-replicate w n)

Levels-replicate : (max i n : ℕ) → Levels max i (replicate n [])
Levels-replicate max i zero = tt
Levels-replicate max i (suc n) = (tt, Levels-replicate max (suc i) n)

-- a least size that a header fits below is not 1
positive_min : (min : ℕ) → node_size < 2 ^ min → 0 < min
positive_min zero large = absurd (omega arith)
positive_min (suc min) large = omega arith

pub whole-IsPool :
    (max min : ℕ) → max < 31 → min ≤ max → node_size < 2 ^ min → IsPool (whole max min)
unfolding total row_sum
whole-IsPool max min small ordered large =
    let n = max - min in
    let table : replicate (max - min + 1) (let e : List Blknode = [] in e) ≡ [] ∷ replicate n [] =
      (let rows : max - min + 1 ≡ suc (max - min) = omega arith in ap (λ k. replicate k []) rows) in
    record {
      small = small;
      positive = positive_min min large;
      ordered = ordered;
      width = rw table (omega (arith, length-replicate n (let e : List Blknode = [] in e)));
      levels = rw table ((omega arith, tt), Levels-replicate max 1 n);
      covered = λ x. rw table (omega (arith, total-replicate (covers x) n));
      sized = rw table (omega (arith, total-replicate size_of n));
      pointers = rw table (omega (arith, total-replicate misplaced n));
      alignment = rw (table, aligned-zero max) (omega (arith, total-replicate misaligned n));
      rights = rw (table, bit-zero max) (omega (arith, total-replicate misplaced_right n));
      parents =
          let top : max - max ≡ 0 = omega arith in
          rw (table, top) (omega (arith, total-replicate (misplaced_parent max) n));
    }

-- the outcome of `mpool_init`
pub record Created (got_pool got_mem got_table : Bool) (max min : ℕ) (r : Mpret × Option Mpool)
    : Type 0 where
  pub rejected : (max < min) ⊎ (2 ^ min ≤ node_size) → r ≡ (Mpret.ebadval, none)
  pub exhausted :
      min ≤ max
      → node_size < 2 ^ min
      → (got_pool && got_mem && got_table) ≡ false
      → r ≡ (Mpret.enomem, none)
  pub created :
      min ≤ max
      → node_size < 2 ^ min
      → (got_pool && got_mem && got_table) ≡ true
      → (m : Mpool) × (r ≡ (Mpret.ok, some m))
        × IsPool m
        × ((x : ℕ) → total (uses x) m.blktable ≡ 0)
        × (m.maxlogsize ≡ max)
        × (m.minlogsize ≡ min)

uses-whole : (max min : ℕ) → min ≤ max → (x : ℕ) → total (uses x) (whole max min).blktable ≡ 0
unfolding total row_sum
uses-whole max min ordered x =
    let table : replicate (max - min + 1) (let e : List Blknode = [] in e)
        ≡ [] ∷ replicate (max - min) [] =
      (let rows : max - min + 1 ≡ suc (max - min) = omega arith in ap (λ k. replicate k []) rows) in
    rw table (omega (arith, total-replicate (uses x) (max - min)))

-- mpool_init of a pool of less than 2 ^ 31 bytes always answers. Sizes out of order, or a least
-- size that leaves no room behind a header, give MPOOL_EBADVAL, and no memory MPOOL_ENOMEM; else
-- the pool is valid, of the sizes asked for, with no byte in use.
pub mpool_init-Created :
    (got_pool got_mem got_table : Bool) (max min : ℕ)
    → max < 31
    → (r : Mpret × Option Mpool) × (mpool_init got_pool got_mem got_table max min ≡ some r)
      × Created got_pool got_mem got_table max min r
unfolding mpool_init create
mpool_init-Created got_pool got_mem got_table max min small =
    let in_range : ltb 64 max ≡ false = ground arith in
    elim (Bool-cases (ltb max min)) [
      | inl e ↦ (
        (Mpret.ebadval, none),
        rw (in_range, e) refl,
        record {
          rejected = λ _. refl;
          exhausted = λ l. absurd (ground arith);
          created = λ l. absurd (ground arith);
        },
      )
      | inr e ↦
          let shifted = shift-lt min (ground arith) in
          elim (Bool-cases (leb (2 ^ min) node_size)) [
            | inl tiny ↦ (
              (Mpret.ebadval, none),
              rw (in_range, e, shifted, ◌>>=◌, tiny) refl,
              record {
                rejected = λ _. refl;
                exhausted = λ _ l. absurd (ground arith);
                created = λ _ l. absurd (ground arith);
              },
            )
            | inr large ↦
                let ordered : min ≤ max = ground arith in
                let large' : node_size < 2 ^ min = ground arith in
                let not_rejected : ¬ ((max < min) ⊎ (2 ^ min ≤ node_size)) =
                  λ o. elim o [ inl a ↦ absurd (omega arith) | inr a ↦ absurd (omega arith) ] in
                elim (Bool-cases (got_pool && got_mem && got_table)) [
                  | inr off ↦ (
                    (Mpret.enomem, none),
                    rw (in_range, e, shifted, ◌>>=◌, large) (ground (arith, shift-lt max small)),
                    record {
                      rejected = λ o. absurd (not_rejected o);
                      exhausted = λ _ _ _. refl;
                      created = λ _ _ on. absurd (cc (on, off));
                    },
                  )
                  | inl on ↦
                      let a : got_pool ≡ true = ground arith in
                      let b : got_mem ≡ true = ground arith in
                      let c : got_table ≡ true = ground arith in
                      (
                        (Mpret.ok, some (whole max min)),
                        rw (in_range, e, shifted, ◌>>=◌, large)
                            (rw (a, b, c)
                              (rw
                                (
                                  shift-lt max small,
                                  insert_head-set 0
                                      (record {
                                        addr = 0;
                                        avail = true;
                                        right = false;
                                        parent = true;
                                        logsize = max;
                                        ptr = node_size;
                                      })
                                      (replicate (max - min + 1) [])
                                      (omega (
                                        arith,
                                        length-replicate (max - min + 1)
                                            (let e : List Blknode = [] in e),
                                      )),
                                  get_or-replicate,
                                )
                                refl)),
                        record {
                          rejected = λ o. absurd (not_rejected o);
                          exhausted = λ _ _ off. absurd (cc (on, off));
                          created = λ _ _ _. (
                            whole max min,
                            refl,
                            whole-IsPool max min small ordered large',
                            uses-whole max min ordered,
                            refl,
                            refl,
                          );
                        },
                      )
                ]
          ]
    ]
