-- ===== src/Buddy/Free.antt =====
-- buddy/mpool.c, `mpool_free`: what becomes of the pool.
-- a valid pool in which the bytes of `p` are no more in use, and all others as in `m`
use experimentation.Base.{
  Bool-cases, List, Option, ap, arith, false, inl, inr, ltb, refl, size_mod, some, suc, true, zero,
  ℕ, ◌&&◌, ◌+◌, ◌-◌, ◌<◌, ◌==◌, ◌>>=◌, ◌∙◌, ◌≡◌,
}
use experimentation.Buddy.Alloc.{
  refused, Handed, handed, mark-IsPool, mpool_alloc-Allocated, uses-mark,
}
use experimentation.Buddy.Blocks.{mark, remove_node}
use experimentation.Buddy.Buddies.{buddy_of-Buddy}
use experimentation.Buddy.Coalesce.{coalesce-Coalesced}
use experimentation.Buddy.Merge.{Joined}
use experimentation.Buddy.Pool.{buddy_of, chunk_found, coalesce, mpool_alloc, mpool_free}
use experimentation.Buddy.Split.{Listed}
use experimentation.Buddy.Sums.{total}
use experimentation.Buddy.Types.{Blknode, Mpool, node_size}
use experimentation.Buddy.Valid.{IsPool, covers, remove_node-Good, uses}
use mathlib.Core.Path.{subst}

pub record Released (p : Blknode) (m m' : Mpool) : Type 0 where
  pub valid : IsPool m'
  pub used : (x : ℕ) → total (uses x) m'.blktable + uses x p ≡ total (uses x) m.blktable
  pub sizes : (m'.maxlogsize ≡ m.maxlogsize) × (m'.minlogsize ≡ m.minlogsize)

-- a block that is marked available is released
mark-Released :
    (m : Mpool) (p : Blknode) (valid : IsPool m) (listed : Listed p m)
    → Released p m (record m { blktable = mark p.addr true m.blktable })
mark-Released m p valid listed = record {
  valid = mark-IsPool m p valid listed true;
  used = λ x. omega (arith, uses-mark m p valid listed true x);
  sizes = (refl, refl);
}

module _ (fuel : ℕ) (p : Blknode) (m : Mpool) where
  chunk_found-top :
      p.logsize == m.maxlogsize ≡ true
      → chunk_found (suc fuel) p m ≡ some (record m { blktable = mark p.addr true m.blktable })
  unfolding chunk_found
  chunk_found-top top = rw (chunk_found, top) refl

  module _ (a : ℕ) (r : Blknode × List (List Blknode)) (lower : p.logsize == m.maxlogsize ≡ false)
      (found : buddy_of m p ≡ some (some a)) (run : remove_node a m.blktable ≡ some r) where
    chunk_found-alone :
        (r.0.logsize == p.logsize && r.0.avail) ≡ false
        → chunk_found (suc fuel) p m ≡ some (record m { blktable = mark p.addr true m.blktable })
    unfolding chunk_found
    chunk_found-alone off = rw (chunk_found, lower, found, ◌>>=◌, run, ◌>>=◌, off) refl

    chunk_found-merge :
        (q : Blknode) (m' : Mpool)
        → (r.0.logsize == p.logsize && r.0.avail) ≡ true
        → coalesce p r.0 m ≡ some (some q, m')
        → chunk_found (suc fuel) p m ≡ chunk_found fuel q m'
    unfolding chunk_found
    chunk_found-merge q m' on merge =
        rw (chunk_found, lower, found, ◌>>=◌, run, ◌>>=◌, on, merge, ◌>>=◌) refl

-- what is released after a merge is released
merge-Released :
    (fuel : ℕ) (p : Blknode) (m : Mpool) (q : Blknode) (n m' : Mpool) (o : Option Mpool)
    → o ≡ chunk_found fuel q n
    → Joined m q n
    → ((x : ℕ) → total (uses x) n.blktable + uses x p ≡ total (uses x) m.blktable)
    → chunk_found fuel q n ≡ some m'
    → Released q n m'
    → (m'' : Mpool) × (o ≡ some m'') × Released p m m''
merge-Released fuel p m q n m' o step j used run r = (
  m',
  step ∙ run,
  record {
    valid = r.valid;
    used = λ x. let clean : uses x q ≡ 0 = rw j.avail refl in omega (arith, r.used x, used x);
    sizes = (r.sizes.0 ∙ j.maxlogsize, r.sizes.1 ∙ j.minlogsize);
  },
)

-- the loop of merges ends
chunk_found-Released :
    (fuel : ℕ) (p : Blknode) (m : Mpool)
    → IsPool m
    → Listed p m
    → m.maxlogsize - p.logsize < fuel
    → (m' : Mpool) × (chunk_found fuel p m ≡ some m') × Released p m m'
unfolding chunk_found
chunk_found-Released zero p m valid (s, listed) enough = absurd (omega arith)
chunk_found-Released (suc fuel) p m valid (s, listed) enough =
    let g = remove_node-Good m p.addr valid listed in
    let freed = mark-Released m p valid (s, listed) in
    elim (Bool-cases (p.logsize == m.maxlogsize)) [
      | inl top ↦ (_, chunk_found-top fuel p m top, freed)
      | inr lower ↦
          let below : p.logsize < m.maxlogsize = ground (arith, g.high) in
          let b = buddy_of-Buddy m p valid s listed below in
          elim (Bool-cases (b.node.logsize == p.logsize && b.node.avail)) [
            | inr off ↦
                (_, chunk_found-alone fuel p m b.at (b.node, b.rest) lower b.found b.run off, freed)
            | inl on ↦
                let alike : b.node.logsize ≡ p.logsize = ground arith in
                let free : b.node.avail ≡ true = ground arith in
                let c = coalesce-Coalesced m p valid s listed below b alike free in
                let j = c.joined in
                let (m', run, r) =
                  chunk_found-Released fuel c.block c.pool j.valid j.listed
                    (omega (arith, c.logsize, j.maxlogsize)) in
                merge-Released fuel p m c.block c.pool m' (chunk_found (suc fuel) p m)
                  (chunk_found-merge fuel p m b.at (b.node, b.rest) lower b.found b.run c.block
                    c.pool on c.run)
                  j c.used run r
          ]
    ]

-- mpool_free of the pointer of a block of a valid pool ends, never leaves the lists and keeps the
-- pool valid: the bytes of the block are no more in use, and every other byte is in use exactly if
-- it was before.
pub mpool_free-Released :
    (m : Mpool) (p : Blknode)
    → IsPool m
    → Listed p m
    → (m' : Mpool) × (mpool_free m (p.addr + node_size) ≡ some m') × Released p m m'
unfolding mpool_free
mpool_free-Released m p valid (s, listed) =
    let g = remove_node-Good m p.addr valid listed in
    let (m', run, r) =
      chunk_found-Released (suc m.maxlogsize) p m valid (s, listed) (omega arith) in
    let above : ltb (p.addr + node_size) node_size ≡ false = ground arith in
    let back : p.addr + node_size - node_size ≡ p.addr = omega arith in
    (m', rw (above, back, listed, ◌>>=◌) run, r)

-- What mpool_alloc of a valid pool hands out, for a request that with a header fits in a size_t,
-- can be given back to mpool_free, which ends, leaves a valid pool, and has each byte in use
-- exactly if it was before the allocation.
pub mpool_free-mpool_alloc :
    (m : Mpool) (blksize : ℕ) (ptr : ℕ) (m' : Mpool)
    → IsPool m
    → blksize + node_size < size_mod
    → mpool_alloc m blksize ≡ some (some ptr, m')
    → (m'' : Mpool) × (mpool_free m' ptr ≡ some m'')
      × IsPool m''
      × ((x : ℕ) → total (uses x) m''.blktable ≡ total (uses x) m.blktable)
mpool_free-mpool_alloc m blksize ptr m' valid room run =
    let (r, run', a) = mpool_alloc-Allocated m blksize valid room in
    let same : r ≡ (some ptr, m') = cc (run, run') in
    elim a [
      | refused e z ↦ absurd (cc (ap (λ x. x.0) same, ap (λ x. x.0) e))
      | handed p q ch at h ↦
          let at' : q.addr + node_size ≡ ptr = cc (ap (λ x. x.0) same, at) in
          let h' = subst (λ x. Handed (blksize + node_size) p m q (x.1)) same h in
          let (m'', run'', f) = mpool_free-Released m' q h'.valid h'.listed in
          (
            m'',
            subst (λ k. mpool_free m' k ≡ some m'') at' run'',
            f.valid,
            λ x.
                let own : uses x q ≡ covers x q = rw h'.marked refl in
                omega (arith, f.used x, h'.used x),
          )
    ]
