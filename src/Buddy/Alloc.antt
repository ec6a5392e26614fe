-- ===== src/Buddy/Alloc.antt =====
-- buddy/mpool.c, `mpool_alloc`: what is handed out, and what becomes of the pool.
use experimentation.Base.{
  Bool, Bool-cases, Option, ap, arith, dec, false, inl, inr, ltb, none, refl, size_mod, some, suc,
  true, wrap, zero, ℕ, ◌+◌, ◌-◌, ◌<◌, ◌==◌, ◌>>=◌, ◌^◌, ◌∙◌, ◌≡◌, ◌≤◌, ◌⊎◌,
}
use experimentation.Buddy.Blocks.{mark}
use experimentation.Buddy.Levels.{Levels-mark, remove_node-Taken}
use experimentation.Buddy.Pool.{again, mpool_alloc, no_split}
use experimentation.Buddy.Scan.{Chosen, fitting, scan-Scanned}
use experimentation.Buddy.Split.{Listed, split-Halved}
use experimentation.Buddy.Sums.{total, total-mark, total-remove_node}
use experimentation.Buddy.Types.{Blknode, Mpool, node_size, shift}
use experimentation.Buddy.Unlink.{remove_node-mark}
use experimentation.Buddy.Valid.{
  IsPool, begins-le, begins-removed, covers, misaligned, misplaced, misplaced_parent,
  misplaced_right, shift-lt, size_of, uses,
}
use mathlib.Core.Path.{subst}

-- the block that is handed out for `size` bytes, cut from the block `p`
pub record Handed (size : ℕ) (p : Blknode) (m : Mpool) (q : Blknode) (m' : Mpool) : Type 0 where
  pub valid : IsPool m'
  pub listed : Listed q m'
  pub marked : q.avail ≡ false
  pub addr : q.addr ≡ p.addr
  pub fits : size ≤ 2 ^ q.logsize
  pub tight : (size ≡ 2 ^ q.logsize) ⊎ ((2 ^ (q.logsize - 1) < size) ⊎ (q.logsize ≡ m.minlogsize))
  pub used : (x : ℕ) → total (uses x) m'.blktable ≡ covers x q + total (uses x) m.blktable

no_split-cases :
    (size min l : ℕ)
    → 0 < min
    → min ≤ l
    → l < 31
    → ((no_split size min l ≡ some true) × ((size ≡ 2 ^ l) ⊎ ((2 ^ (l - 1) < size) ⊎ (l ≡ min))))
      ⊎ ((no_split size min l ≡ some false) × (min < l) × (size ≤ 2 ^ (l - 1)))
unfolding no_split
no_split-cases size min l positive low small =
    let whole = shift-lt l small in
    let pred : dec l ≡ l - 1 = omega arith in
    let half : shift (dec l) ≡ some (2 ^ (l - 1)) = rw pred (shift-lt (l - 1) (omega arith)) in
    elim (Bool-cases (size == 2 ^ l)) [
      | inl e ↦ inl (rw (whole, ◌>>=◌, e) refl, inl (ground arith))
      | inr e ↦ elim (Bool-cases (ltb (2 ^ (l - 1)) size)) [
        | inl f ↦ inl (rw (whole, ◌>>=◌, e, half, ◌>>=◌, f) refl, inr (inl (ground arith)))
        | inr f ↦ elim (Bool-cases (ltb (l - 1) min)) [
          | inl g ↦
              inl (rw (whole, ◌>>=◌, e, half, ◌>>=◌, f, pred, g) refl, inr (inr (ground arith)))
          | inr g ↦
              inr (rw (whole, ◌>>=◌, e, half, ◌>>=◌, f, pred, g) refl, ground arith, ground arith)
        ]
      ]
    ]

module _ (m : Mpool) (p : Blknode) (valid : IsPool m) (listed : Listed p m) where
  logsize-bounds : (m.minlogsize ≤ p.logsize) × (p.logsize ≤ m.maxlogsize)
  logsize-bounds =
      let t = remove_node-Taken m.maxlogsize 0 p.addr m.blktable valid.levels listed.1 in
      (omega (arith, t.level, t.inside, valid.width), omega (arith, t.level))

  ptr-addr : p.ptr ≡ p.addr + node_size
  ptr-addr =
      let sum = total-remove_node misplaced p.addr m.blktable listed.1 in
      let good : misplaced p ≡ 0 = omega (arith, valid.pointers) in ground arith

  total-mark_same :
      (v : Bool) (w : Blknode → ℕ)
      → w (record p { avail = v }) ≡ w p
      → total w (mark p.addr v m.blktable) ≡ total w m.blktable
  total-mark_same v w same =
      let (s, run) = listed in
      total-mark w p.addr v m.blktable run (begins-removed m p.addr valid run)
      ∙ (ap (λ k. k + total w s) same ∙ total-remove_node w p.addr m.blktable run)

  pub mark-IsPool : (v : Bool) → IsPool (record m { blktable = mark p.addr v m.blktable })
  mark-IsPool v =
      let (levels, width) = Levels-mark m.maxlogsize 0 p.addr v m.blktable valid.levels in
      record {
        small = valid.small;
        positive = valid.positive;
        ordered = valid.ordered;
        width = omega (arith, width, valid.width);
        levels = levels;
        covered = λ x. total-mark_same v (covers x) refl ∙ valid.covered x;
        sized = total-mark_same v size_of refl ∙ valid.sized;
        pointers = total-mark_same v misplaced refl ∙ valid.pointers;
        alignment = total-mark_same v misaligned refl ∙ valid.alignment;
        rights = total-mark_same v misplaced_right refl ∙ valid.rights;
        parents = total-mark_same v (misplaced_parent m.maxlogsize) refl ∙ valid.parents;
      }

  -- what marking does to the bytes in use
  pub uses-mark :
      (v : Bool) (x : ℕ)
      → total (uses x) (mark p.addr v m.blktable) + uses x p
        ≡ uses x (record p { avail = v }) + total (uses x) m.blktable
  uses-mark v x =
      let (s, run) = listed in
      omega (
        arith,
        total-remove_node (uses x) p.addr m.blktable run,
        total-mark (uses x) p.addr v m.blktable run (begins-removed m p.addr valid run),
      )

  mark-Handed :
      (size : ℕ)
      → p.avail ≡ true
      → size ≤ 2 ^ p.logsize
      → (size ≡ 2 ^ p.logsize) ⊎ ((2 ^ (p.logsize - 1) < size) ⊎ (p.logsize ≡ m.minlogsize))
      → Handed size p m
          (record p { avail = false })
          (record m { blktable = mark p.addr false m.blktable })
  mark-Handed size av fits tight = record {
    valid = mark-IsPool false;
    listed = (_, remove_node-mark p.addr false m.blktable listed.1);
    marked = refl;
    addr = refl;
    fits = fits;
    tight = tight;
    used = λ x. let free : uses x p ≡ 0 = rw av refl in omega (arith, uses-mark false x);
  }

-- the loop of splits ends, and hands out a part of the block that it is given
again-Handed :
    (fuel size : ℕ) (p : Blknode) (m : Mpool)
    → IsPool m
    → Listed p m
    → p.avail ≡ true
    → size ≤ 2 ^ p.logsize
    → p.logsize < fuel
    → (q : Blknode) × (m' : Mpool) × (again fuel size p m ≡ some (q.addr + node_size, m'))
      × Handed size p m q m'
unfolding again
again-Handed zero size p m valid listed av fits enough = absurd (omega arith)
again-Handed (suc fuel) size p m valid listed av fits enough =
    let (low, high) = logsize-bounds m p valid listed in
    elim (no_split-cases size m.minlogsize p.logsize valid.positive low
      (omega (arith, valid.small))) [
        | inl (stop, tight) ↦ (
          record p { avail = false },
          record m { blktable = mark p.addr false m.blktable },
          rw (stop, ◌>>=◌, ptr-addr m p valid listed) refl,
          mark-Handed m p valid listed size av fits tight,
        )
        | inr (go, big, fits') ↦
            let (l, n, run, h) = split-Halved m p valid listed.0 listed.1 big in
            let size_eq : l.logsize ≡ p.logsize - 1 = omega (arith, h.logsize) in
            let (q, m', run', d) =
              again-Handed fuel size l n h.valid h.listed (h.avail ∙ av) (rw size_eq fits')
                (omega (arith, h.logsize)) in
            (
              q,
              m',
              rw (go, ◌>>=◌, run, ◌>>=◌) run',
              record {
                valid = d.valid;
                listed = d.listed;
                marked = d.marked;
                addr = d.addr ∙ h.addr;
                fits = d.fits;
                tight =
                    subst
                      (λ k.
                        (size ≡ 2 ^ q.logsize) ⊎ ((2 ^ (q.logsize - 1) < size) ⊎ (q.logsize ≡ k)))
                      h.minlogsize d.tight;
                used = λ x. d.used x ∙ ap (λ k. covers x q + k) (h.used av x);
              },
            )
      ]

-- the outcome of `mpool_alloc` of `size` bytes, header included
pub data Allocated (size : ℕ) (m : Mpool) (r : Option ℕ × Mpool) : Type 0 where
  refused : r ≡ (none, m) → total (fitting size) m.blktable ≡ 0 → Allocated size m r
  handed :
      (p q : Blknode)
      → Chosen size m.blktable p
      → r.0 ≡ some (q.addr + node_size)
      → Handed size p m q r.1
      → Allocated size m r

-- mpool_alloc of a valid pool, whose every byte is in exactly one block, ends, never leaves the
-- lists, and keeps the pool valid, if the request and a header fit in a size_t. It answers NULL
-- exactly if no available block is large enough for both. Else it chooses a smallest of these, and
-- hands out what lies behind the header of a part of it: the part is large enough, a half of it
-- would not be or would be below the least size, and its bytes are those that are in use afterwards
-- and were not before.
pub mpool_alloc-Allocated :
    (m : Mpool) (blksize : ℕ)
    → IsPool m
    → blksize + node_size < size_mod
    → (r : Option ℕ × Mpool) × (mpool_alloc m blksize ≡ some r)
      × Allocated (blksize + node_size) m r
unfolding mpool_alloc
mpool_alloc-Allocated m blksize valid room =
    let size : wrap (blksize + node_size) ≡ blksize + node_size = omega arith in
    elim (scan-Scanned (blksize + node_size) m.maxlogsize 0 m.blktable none valid.small valid.levels
      (begins-le m valid)) [
        | inl (run, none_fits) ↦ ((none, m), rw (size, run) refl, Allocated.refused refl none_fits)
        | inr (p, run, ch, low) ↦
            let (q, m', run', d) =
              again-Handed (suc p.logsize) (blksize + node_size) p m valid ch.listed ch.avail
                ch.fits (omega arith) in
            (
              (some (q.addr + node_size), m'),
              rw (size, run, ◌>>=◌, size, run') refl,
              Allocated.handed p q ch refl d,
            )
      ]
