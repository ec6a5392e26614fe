-- ===== src/Buddy/Split.antt =====
-- buddy/mpool.c, `mpool_alloc`: what one split does.
use experimentation.Base.{
  List, [], arith, dec, false, get_or, length, length-set, refl, set, some, sub, suc, sym, true,
  wrap, ℕ, ◌*◌, ◌+◌, ◌-◌, ◌<◌, ◌>>=◌, ◌^◌, ◌∙◌, ◌∷◌, ◌≡◌,
}
use experimentation.Buddy.Bits.{aligned, aligned-high, aligned-low, bit, parent_bit}
use experimentation.Buddy.Blocks.{remove_node}
use experimentation.Buddy.Levels.{Levels-set, Taken, remove_node-Taken}
use experimentation.Buddy.Pool.{split}
use experimentation.Buddy.Sums.{
  insert_head-set, remove_node-set_new, remove_node-set_other, total, total-remove_node, total-set,
}
use experimentation.Buddy.Types.{Blknode, Mpool, node_size}
use experimentation.Buddy.Valid.{
  Good, IsPool, begins-removed, covers, eq-xor, misaligned, misplaced, misplaced_parent,
  misplaced_right, pow_pos, pow_step, remove_node-Good, shift-lt, size_of, span, uses,
}

-- a block is in the lists, and is what its address leads to
abbrev pub Listed : Blknode → Mpool → Type 0
Listed p m = (s : List (List Blknode)) × (remove_node p.addr m.blktable ≡ some (p, s))

-- `m'` is `m` with one block in two halves, the left of which is `q`
pub record Halved (p : Blknode) (m : Mpool) (q : Blknode) (m' : Mpool) : Type 0 where
  pub valid : IsPool m'
  pub listed : Listed q m'
  pub addr : q.addr ≡ p.addr
  pub logsize : q.logsize + 1 ≡ p.logsize
  pub avail : q.avail ≡ p.avail
  pub ptr : q.ptr ≡ p.ptr
  pub maxlogsize : m'.maxlogsize ≡ m.maxlogsize
  pub minlogsize : m'.minlogsize ≡ m.minlogsize
  pub used : p.avail ≡ true → (x : ℕ) → total (uses x) m'.blktable ≡ total (uses x) m.blktable

pub span-halves : (x a h : ℕ) → span x a (h * 2) ≡ span x a h + span x (a + h) h
span-halves x a h = ground arith

module _ (m : Mpool) (p : Blknode) (valid : IsPool m) (s : List (List Blknode))
    (listed : remove_node p.addr m.blktable ≡ some (p, s)) (big : m.minlogsize < p.logsize) where
  half : ℕ
  half = dec p.logsize

  place : ℕ
  place = sub m.maxlogsize half

  left : Blknode
  left = record p { logsize = half; parent = p.right; right = false }

  new : Blknode
  new = record {
    addr = p.addr + 2 ^ half;
    avail = true;
    right = true;
    parent = p.parent;
    logsize = half;
    ptr = p.addr + 2 ^ half + node_size;
  }

  once : List (List Blknode)
  once = set s place (left ∷ get_or s place [])

  twice : List (List Blknode)
  twice = set once place (new ∷ get_or once place [])

  halves : Mpool
  halves = record m { nsplits = wrap (m.nsplits + 1); blktable = twice }

  record Facts : Type 0 where
    taken : Taken m.maxlogsize 0 m.blktable (p, s)
    half_eq : half + 1 ≡ p.logsize
    place_eq : half + place ≡ m.maxlogsize
    inside : place < length s
    inside' : place < length once

  facts : Facts
  unfolding half place once
  facts =
      let t = remove_node-Taken m.maxlogsize 0 p.addr m.blktable valid.levels listed in
      let l1 : half + 1 ≡ p.logsize = omega (arith, valid.small, t.level) in
      let l2 : half + place ≡ m.maxlogsize = omega (arith, valid.small, t.level) in
      let l3 : place < length s = omega (arith, t.width, valid.width) in
      record {
        taken = t;
        half_eq = l1;
        place_eq = l2;
        inside = l3;
        inside' = omega (arith, length-set s place (left ∷ get_or s place []));
      }

  split-halves : split p m ≡ some (left, halves)
  unfolding split left new once twice halves half place
  split-halves =
      let f = facts in
      let low : half < 31 = omega (arith, valid.small, f.place_eq) in
      rw
        (
          listed,
          ◌>>=◌,
          insert_head-set place left s f.inside,
          shift-lt half low,
          insert_head-set place new once f.inside',
        )
        refl

  -- a weight that the halves share
  total-halves :
      (w : Blknode → ℕ) → w left + w new ≡ w p → total w halves.blktable ≡ total w m.blktable
  unfolding halves twice once
  total-halves w e = omega (
    arith,
    facts.inside,
    total-set w place new once facts.inside',
    total-set w place left s facts.inside,
    total-remove_node w p.addr m.blktable listed,
  )

  covers-halves : (x : ℕ) → covers x left + covers x new ≡ covers x p
  unfolding left new
  covers-halves x =
      let size : 2 ^ p.logsize ≡ 2 ^ half * 2 = pow_step p.logsize half facts.half_eq in
      rw size (sym (span-halves x p.addr (2 ^ half)))

  size_of-halves : size_of left + size_of new ≡ size_of p
  unfolding left new
  size_of-halves = omega (arith, pow_step p.logsize half facts.half_eq)

  good : Good m p
  good = remove_node-Good m p.addr valid listed

  half-aligned : aligned (suc half) p.addr ≡ true
  half-aligned =
      let same : p.logsize ≡ suc half = omega (arith, facts.half_eq) in rw same at good.aligned_addr

  misaligned-halves : misaligned left + misaligned new ≡ misaligned p
  unfolding left new
  misaligned-halves =
      rw
        (
          (aligned-low half p.addr half-aligned).0,
          (aligned-high half p.addr half-aligned).0,
          good.aligned_addr,
        )
        refl

  rights-halves : misplaced_right left + misplaced_right new ≡ misplaced_right p
  unfolding left new
  rights-halves =
      rw
        (
          (aligned-low half p.addr half-aligned).1,
          (aligned-high half p.addr half-aligned).1,
          eq-xor good.right,
        )
        refl

  parents-halves :
      misplaced_parent m.maxlogsize left + misplaced_parent m.maxlogsize new
      ≡ misplaced_parent m.maxlogsize p
  unfolding left new
  parents-halves =
      let same : p.logsize ≡ suc half = omega (arith, facts.half_eq) in
      let level : m.maxlogsize - half ≡ suc (m.maxlogsize - suc half) =
        omega (arith, facts.half_eq, facts.taken.level) in
      let back : p.addr + 2 ^ half - 2 ^ half ≡ p.addr = omega arith in
      let l : p.right ≡ bit (suc half) p.addr = rw same at good.right in
      let n : p.parent ≡ parent_bit (m.maxlogsize - suc half) (suc half) p.addr =
        rw same at good.parent in
      rw
        (
          level,
          (aligned-low half p.addr half-aligned).1,
          (aligned-high half p.addr half-aligned).1,
          back,
          eq-xor l,
          eq-xor n,
          eq-xor good.parent,
        )
        refl

  halves-IsPool : IsPool halves
  unfolding halves twice once left new
  halves-IsPool =
      let f = facts in
      let level =
        Levels-set m.maxlogsize 0 place left s f.taken.levels f.inside
          (omega (arith, f.place_eq)) in
      record {
        small = valid.small;
        positive = valid.positive;
        ordered = valid.ordered;
        width = omega (
          arith,
          valid.width,
          f.taken.width,
          length-set s place (left ∷ get_or s place []),
          length-set once place (new ∷ get_or once place []),
        );
        levels =
            Levels-set m.maxlogsize 0 place new once level f.inside' (omega (arith, f.place_eq));
        covered = λ x. total-halves (covers x) (covers-halves x) ∙ valid.covered x;
        sized = total-halves size_of size_of-halves ∙ valid.sized;
        pointers = total-halves misplaced (ground arith) ∙ valid.pointers;
        alignment = total-halves misaligned misaligned-halves ∙ valid.alignment;
        rights = total-halves misplaced_right rights-halves ∙ valid.rights;
        parents = total-halves (misplaced_parent m.maxlogsize) parents-halves ∙ valid.parents;
      }

  left-Listed : Listed left halves
  unfolding halves twice once left new
  left-Listed =
      let f = facts in
      let (s1, run1) =
        remove_node-set_new p.addr place left s f.inside refl
          (begins-removed m p.addr valid listed) in
      remove_node-set_other p.addr place new left once s1 f.inside'
        (λ e. absurd (omega (arith, pow_pos half))) run1

  -- `split` of a block that is larger than the least size never leaves the lists and keeps the pool
  -- valid
  pub split-Halved : (q : Blknode) × (m' : Mpool) × (split p m ≡ some (q, m')) × Halved p m q m'
  split-Halved = (
    left,
    halves,
    split-halves,
    record {
      valid = halves-IsPool;
      listed = left-Listed;
      addr = unfold left in refl;
      logsize = unfold left in facts.half_eq;
      avail = unfold left in refl;
      ptr = unfold left in refl;
      maxlogsize = unfold halves in refl;
      minlogsize = unfold halves in refl;
      used = λ on x. total-halves (uses x) (unfold left new in rw on refl);
    },
  )
