-- ===== src/Buddy/Coalesce.antt =====
-- buddy/mpool.c, `mpool_free`: a block and its available buddy become one.
use experimentation.Base.{
  List, ap, arith, false, inl, inr, length, refl, some, sub, suc, sym, true, wrap, ℕ, ◌+◌, ◌<◌,
  ◌>>=◌, ◌^◌, ◌∙◌, ◌≡◌,
}
use experimentation.Buddy.Bits.{aligned, aligned-low}
use experimentation.Buddy.Blocks.{insert_head, remove_node}
use experimentation.Buddy.Buddies.{Buddy}
use experimentation.Buddy.Find.{remove_node-other}
use experimentation.Buddy.Levels.{remove_node-Taken}
use experimentation.Buddy.Merge.{Joined, insert-pair, pair-Joined, uses-pair, uses-pair_right}
use experimentation.Buddy.Pool.{coalesce, merged}
use experimentation.Buddy.Split.{}
use experimentation.Buddy.Sums.{total, total-remove_node}
use experimentation.Buddy.Types.{Blknode, Mpool}
use experimentation.Buddy.Unlink.{remove_node-addr}
use experimentation.Buddy.Valid.{IsPool, remove_node-Good, uses}
use mathlib.Core.Path.{subst}

module _ (m : Mpool) (p n : Blknode) (s u bs : List (List Blknode))
    (first : remove_node p.addr m.blktable ≡ some (p, s))
    (second : remove_node n.addr s ≡ some (n, u)) where
  coalesce-left :
      p.right ≡ false
      → insert_head (sub m.maxlogsize (p.logsize + 1)) (merged p n) u ≡ some bs
      → coalesce p n m
        ≡ some (some (merged p n), record m { nmerges = wrap (m.nmerges + 1); blktable = bs })
  unfolding coalesce
  coalesce-left left run = rw (first, ◌>>=◌, second, ◌>>=◌, left, run) refl

  coalesce-right :
      p.right ≡ true
      → n.right ≡ false
      → insert_head (sub m.maxlogsize (n.logsize + 1)) (merged n p) u ≡ some bs
      → coalesce p n m
        ≡ some (some (merged n p), record m { nmerges = wrap (m.nmerges + 1); blktable = bs })
  unfolding coalesce
  coalesce-right right left run = rw (first, ◌>>=◌, second, ◌>>=◌, right, left, run) refl

module _ (m : Mpool) (p : Blknode) (valid : IsPool m) (s : List (List Blknode))
    (listed : remove_node p.addr m.blktable ≡ some (p, s)) (below : p.logsize < m.maxlogsize)
    (b : Buddy m p valid s listed below) (alike : b.node.logsize ≡ p.logsize)
    (on : b.node.avail ≡ true) where
  -- the block that the merge makes, and the pool
  pub record Coalesced : Type 0 where
    pub block : Blknode
    pub pool : Mpool
    pub run : coalesce p b.node m ≡ some (some block, pool)
    pub joined : Joined m block pool
    pub logsize : block.logsize ≡ p.logsize + 1
    pub used : (x : ℕ) → total (uses x) pool.blktable + uses x p ≡ total (uses x) m.blktable

  -- the merge of two buddies never leaves the lists
  pub coalesce-Coalesced : Coalesced
  coalesce-Coalesced =
      let addr : b.node.addr ≡ b.at = remove_node-addr b.at m.blktable b.run in
      let (u, run) = remove_node-other p.addr b.at b.differ m.blktable listed b.run in
      let run' : remove_node b.node.addr s ≡ some (b.node, u) =
        subst (λ k. remove_node k s ≡ some (b.node, u)) (sym addr) run in
      let gp = remove_node-Good m p.addr valid listed in
      let gn = remove_node-Good m b.at valid b.run in
      let t = remove_node-Taken m.maxlogsize 0 p.addr m.blktable valid.levels listed in
      let t' = remove_node-Taken m.maxlogsize 0 b.at s t.levels run in
      let sum : (w : Blknode → ℕ) → w p + (w b.node + total w u) ≡ total w m.blktable = λ w.
        omega
          (arith, total-remove_node w p.addr m.blktable listed, total-remove_node w b.at s run) in
      let width : length u ≡ length m.blktable = t'.width ∙ t.width in
      elim b.side [
        | inl (left, at, even) ↦
            let next : b.node.addr ≡ p.addr + 2 ^ p.logsize = addr ∙ at in
            record {
              block = merged p b.node;
              pool = _;
              run =
                  coalesce-left m p b.node s u _ listed run' left (
                    insert-pair m p b.node u valid sum t'.levels width gp gn alike next even below);
              joined =
                  pair-Joined m p b.node u valid sum t'.levels width gp gn alike next even below;
              logsize = refl;
              used = λ x.
                  uses-pair m p b.node u valid sum t'.levels width gp gn alike next even below x on;
            }
        | inr (right, at, even) ↦
            let alike' : p.logsize ≡ b.node.logsize = sym alike in
            let next : p.addr ≡ b.node.addr + 2 ^ b.node.logsize = rw (addr, alike) at in
            let even' : aligned (suc b.node.logsize) b.node.addr ≡ true = rw (addr, alike) even in
            let below' : b.node.logsize < m.maxlogsize = omega arith in
            let left : b.node.right ≡ false =
              gn.right ∙ (aligned-low b.node.logsize b.node.addr even').1 in
            let sum' : (w : Blknode → ℕ) → w b.node + (w p + total w u) ≡ total w m.blktable =
              λ w. omega (arith, sum w) in
            record {
              block = merged b.node p;
              pool = _;
              run = coalesce-right m p b.node s u _ listed run' right left (
                  insert-pair m b.node p u valid sum' t'.levels width gn gp alike' next even'
                    below');
              joined =
                  pair-Joined m b.node p u valid sum' t'.levels width gn gp alike' next even'
                    below';
              logsize = ap (λ k. k + 1) alike;
              used = λ x.
                  uses-pair_right m b.node p u valid sum' t'.levels width gn gp alike' next even'
                    below' x on;
            }
      ]
