-- ===== src/Buddy/Merge.antt =====
-- buddy/mpool.c, `mpool_free`: what the merge of two buddies does.
use experimentation.Base.{
  List, [], arith, get_or, length, length-set, refl, set, some, sub, suc, true, wrap, ℕ, ◌*◌, ◌+◌,
  ◌-◌, ◌<◌, ◌^◌, ◌∙◌, ◌∷◌, ◌≡◌, ◌≤◌,
}
use experimentation.Buddy.Bits.{aligned, aligned-high, aligned-low, bit, parent_bit}
use experimentation.Buddy.Blocks.{insert_head}
use experimentation.Buddy.Levels.{Levels, Levels-set}
use experimentation.Buddy.Pool.{merged}
use experimentation.Buddy.Split.{Listed, span-halves}
use experimentation.Buddy.Sums.{begins, insert_head-set, remove_node-set_new, total, total-set}
use experimentation.Buddy.Types.{Blknode, Mpool}
use experimentation.Buddy.Valid.{
  Good, IsPool, begins-covers, covers, eq-xor, misaligned, misplaced, misplaced_parent,
  misplaced_right, pow_pos, pow_step, size_of, span, total_mono, uses,
}

-- `m'` is `m` with two buddies in one block `q`
pub record Joined (m : Mpool) (q : Blknode) (m' : Mpool) : Type 0 where
  pub valid : IsPool m'
  pub listed : Listed q m'
  pub avail : q.avail ≡ true
  pub maxlogsize : m'.maxlogsize ≡ m.maxlogsize
  pub minlogsize : m'.minlogsize ≡ m.minlogsize

module _ (m : Mpool) (left right : Blknode) (u : List (List Blknode)) (valid : IsPool m)
    (sum : (w : Blknode → ℕ) → w left + (w right + total w u) ≡ total w m.blktable)
    (levels : Levels m.maxlogsize 0 u) (width : length u ≡ length m.blktable) (gl : Good m left)
    (gr : Good m right) (alike : right.logsize ≡ left.logsize)
    (next : right.addr ≡ left.addr + 2 ^ left.logsize)
    (even : aligned (suc left.logsize) left.addr ≡ true) (below : left.logsize < m.maxlogsize) where
  pair : Blknode
  pair = merged left right

  spot : ℕ
  spot = sub m.maxlogsize (left.logsize + 1)

  pub table : List (List Blknode)
  table = set u spot (pair ∷ get_or u spot [])

  joined : Mpool
  joined = record m { nmerges = wrap (m.nmerges + 1); blktable = table }

  level : (left.logsize + 1) + spot ≡ m.maxlogsize
  unfolding spot
  level = omega (arith, valid.small)

  inside : spot < length u
  inside = omega (arith, level, valid.width, gl.low)

  pub insert-pair :
      insert_head (sub m.maxlogsize (left.logsize + 1)) (merged left right) u ≡ some table
  unfolding table spot pair
  insert-pair = insert_head-set spot pair u inside

  total-pair : (w : Blknode → ℕ) → w pair ≡ w left + w right → total w table ≡ total w m.blktable
  unfolding table
  total-pair w e = omega (arith, total-set w spot pair u inside, sum w)

  covers-pair : (x : ℕ) → covers x pair ≡ covers x left + covers x right
  unfolding pair
  covers-pair x =
      let size : 2 ^ (left.logsize + 1) ≡ 2 ^ left.logsize * 2 =
        pow_step (left.logsize + 1) left.logsize refl in
      rw (size, next, alike) (span-halves x left.addr (2 ^ left.logsize))

  -- a fault that neither half has, the block has not
  fault-pair : (w : Blknode → ℕ) → total w m.blktable ≡ 0 → w pair ≡ 0 → w pair ≡ w left + w right
  fault-pair w clean e = omega (arith, sum w)

  joined-IsPool : IsPool joined
  unfolding joined
  joined-IsPool =
      let up : left.logsize + 1 ≡ suc left.logsize = omega arith in
      let more : m.maxlogsize - left.logsize ≡ suc (m.maxlogsize - suc left.logsize) =
        omega arith in
      let back : left.addr + 2 ^ left.logsize - 2 ^ left.logsize ≡ left.addr = omega arith in
      let low = aligned-low left.logsize left.addr even in
      let high = aligned-high left.logsize left.addr even in
      let first : left.parent ≡ bit (suc left.logsize) left.addr = rw (more, low.1) at gl.parent in
      let second : right.parent
          ≡ parent_bit (m.maxlogsize - suc left.logsize) (suc left.logsize) left.addr =
        rw (alike, next, more, high.1, back) at gr.parent in
      record {
        small = valid.small;
        positive = valid.positive;
        ordered = valid.ordered;
        width =
            unfold table in
            omega (arith, valid.width, width, length-set u spot (pair ∷ get_or u spot []));
        levels =
            unfold table pair in
            Levels-set m.maxlogsize 0 spot pair u levels inside (omega (arith, level));
        covered = λ x. total-pair (covers x) (covers-pair x) ∙ valid.covered x;
        sized = total-pair size_of (unfold pair in rw (alike, up) (omega arith)) ∙ valid.sized;
        pointers =
            total-pair misplaced (
              fault-pair misplaced valid.pointers (let ptr = gl.ptr in unfold pair in ground arith))
            ∙ valid.pointers;
        alignment =
            total-pair misaligned
              (fault-pair misaligned valid.alignment (unfold pair in rw (up, even) refl))
            ∙ valid.alignment;
        rights =
            total-pair misplaced_right
              (fault-pair misplaced_right valid.rights (unfold pair in rw up (eq-xor first)))
            ∙ valid.rights;
        parents =
            total-pair (misplaced_parent m.maxlogsize) (
              fault-pair (misplaced_parent m.maxlogsize) valid.parents
                (unfold pair in rw up (eq-xor second)))
            ∙ valid.parents;
      }

  joined-Listed : Listed pair joined
  unfolding joined table pair
  joined-Listed =
      let one : covers left.addr left ≡ 1 = ground (arith, pow_pos left.logsize) in
      let most : span left.addr 0 (2 ^ m.maxlogsize) ≤ 1 = ground arith in
      let free : total (covers left.addr) u ≡ 0 =
        omega (arith, sum (covers left.addr), valid.covered left.addr) in
      remove_node-set_new left.addr spot pair u inside refl (
        omega (arith, total_mono (begins left.addr) (covers left.addr) (begins-covers left.addr) u))

  pub pair-Joined :
      Joined m (merged left right) (record m { nmerges = wrap (m.nmerges + 1); blktable = table })
  pair-Joined = record {
    valid = unfold joined in joined-IsPool;
    listed = unfold joined pair in joined-Listed;
    avail = refl;
    maxlogsize = refl;
    minlogsize = refl;
  }

  pub uses-pair :
      (x : ℕ) → right.avail ≡ true → total (uses x) table + uses x left ≡ total (uses x) m.blktable
  unfolding table pair
  uses-pair x on =
      let none : uses x right ≡ 0 = rw on refl in
      omega (arith, total-set (uses x) spot pair u inside, sum (uses x))

  pub uses-pair_right :
      (x : ℕ) → left.avail ≡ true → total (uses x) table + uses x right ≡ total (uses x) m.blktable
  unfolding table pair
  uses-pair_right x on =
      let none : uses x left ≡ 0 = rw on refl in
      omega (arith, total-set (uses x) spot pair u inside, sum (uses x))
