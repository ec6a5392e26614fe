-- ===== src/Buddy/Buddies.antt =====
-- buddy/mpool.c, `mpool_free`: the block at the address of the buddy.
use experimentation.Base.{
  Bool-cases, List, ap, arith, false, inl, inr, leb, ltb, refl, some, suc, true, ℕ, ◌*◌, ◌+◌, ◌-◌,
  ◌<◌, ◌>>=◌, ◌^◌, ◌∙◌, ◌≡◌, ◌≢◌, ◌≤◌, ◌⊎◌,
}
use experimentation.Buddy.Bits.{
  aligned, aligned-add, aligned-fewer, aligned-high, aligned-le, aligned-left, aligned-low,
  aligned-right, aligned-room, bit,
}
use experimentation.Buddy.Blocks.{remove_node}
use experimentation.Buddy.Find.{remove_node-other, total-found}
use experimentation.Buddy.Pool.{buddy_of}
use experimentation.Buddy.Sums.{total, total-remove_node}
use experimentation.Buddy.Types.{Blknode, Mpool}
use experimentation.Buddy.Valid.{
  IsPool, begins-le, covers, pow_pos, remove_node-Good, shift-lt, span,
}
use mathlib.Core.Path.{subst}

-- two blocks of a valid pool have no byte in common
pub apart :
    (m : Mpool) (p n : Blknode) (s t : List (List Blknode))
    → IsPool m
    → remove_node p.addr m.blktable ≡ some (p, s)
    → remove_node n.addr m.blktable ≡ some (n, t)
    → p.addr ≢ n.addr
    → (x : ℕ) → covers x p + covers x n ≤ 1
apart m p n s t valid e f differ x =
    let (u, run) = remove_node-other p.addr n.addr differ m.blktable e f in
    let one = total-remove_node (covers x) p.addr m.blktable e in
    let two = total-remove_node (covers x) n.addr s run in
    let most : span x 0 (2 ^ m.maxlogsize) ≤ 1 = ground arith in omega (arith, valid.covered x)

module _ (m : Mpool) (p : Blknode) (valid : IsPool m) (s : List (List Blknode))
    (listed : remove_node p.addr m.blktable ≡ some (p, s)) (below : p.logsize < m.maxlogsize) where
  in_pool : p.addr < 2 ^ m.maxlogsize
  in_pool =
      let one : covers p.addr p ≡ 1 = ground (arith, pow_pos p.logsize) in
      let sum = total-remove_node (covers p.addr) p.addr m.blktable listed in
      let inside : span p.addr 0 (2 ^ m.maxlogsize) ≡ 1 = ground (arith, valid.covered p.addr) in
      ground arith

  -- a block that reaches over the pair of buddies that begins at `base` has all its bytes
  over :
      (n : Blknode) (base y : ℕ)
      → aligned n.logsize n.addr ≡ true
      → suc p.logsize ≤ n.logsize
      → aligned (suc p.logsize) base ≡ true
      → base ≤ y
      → y < base + 2 ^ suc p.logsize
      → covers y n ≡ 1
      → (x : ℕ) → base ≤ x
      → x < base + 2 ^ suc p.logsize
      → covers x n ≡ 1
  over n base y al big even from to hit x from' to' =
      let own = aligned-fewer (suc p.logsize) n.logsize n.addr big al in
      let end = aligned-add (suc p.logsize) n.logsize n.addr big al in
      let low = aligned-le (suc p.logsize) base n.addr even own (ground arith) in
      elim (Bool-cases (ltb (n.addr + 2 ^ n.logsize) (base + 2 ^ suc p.logsize))) [
        | inl short ↦
            let high =
              aligned-le (suc p.logsize) base (n.addr + 2 ^ n.logsize) even end (ground arith) in
            absurd (ground arith)
        | inr long ↦ ground arith
      ]

  -- where the buddy's address is that of the other half of a pair, a block begins there
  block_at :
      (base y : ℕ)
      → aligned (suc p.logsize) base ≡ true
      → aligned p.logsize y ≡ true
      → base ≤ y
      → y < base + 2 ^ suc p.logsize
      → base ≤ p.addr
      → p.addr < base + 2 ^ suc p.logsize
      → covers y p ≡ 0
      → y < 2 ^ m.maxlogsize
      → (n : Blknode) × (t : List (List Blknode)) × (remove_node y m.blktable ≡ some (n, t))
  block_at base y even al from to from' to' away inside =
      let here : total (covers y) m.blktable ≡ 1 = valid.covered y ∙ ground arith in
      let (n, t, run, hit) = total-found (covers y) m.blktable (begins-le m valid) (omega arith) in
      let g = remove_node-Good m n.addr valid run in
      let one : covers y n ≡ 1 = ground arith in
      let differ : p.addr ≢ n.addr = λ q.
        let run' : remove_node p.addr m.blktable ≡ some (n, t) = rw q run in
        let same : n ≡ p = cc (run', listed) in absurd (omega (arith, ap (covers y) same)) in
      elim (Bool-cases (leb n.logsize p.logsize)) [
        | inl small ↦
            let al' = aligned-fewer n.logsize p.logsize y (ground arith) al in
            let le = aligned-le n.logsize n.addr y g.aligned_addr al' (ground arith) in
            let same : n.addr ≡ y = ground arith in
            (n, t, subst (λ k. remove_node k m.blktable ≡ some (n, t)) same run)
        | inr big ↦
            let full =
              over n base y g.aligned_addr (ground arith) even from to one p.addr from' to' in
            let own : covers p.addr p ≡ 1 = ground (arith, pow_pos p.logsize) in
            absurd (omega (arith, apart m p n s t valid listed run differ p.addr))
      ]

  -- the buddy of a block that is not the whole pool: it is in the pool, and a block begins there
  pub record Buddy : Type 0 where
    pub at : ℕ
    pub node : Blknode
    pub rest : List (List Blknode)
    pub found : buddy_of m p ≡ some (some at)
    pub differ : p.addr ≢ at
    pub run : remove_node at m.blktable ≡ some (node, rest)
    pub side :
        ((p.right ≡ false)
          × (at ≡ p.addr + 2 ^ p.logsize)
          × (aligned (suc p.logsize) p.addr ≡ true))
        ⊎ ((p.right ≡ true) × (p.addr ≡ at + 2 ^ p.logsize) × (aligned (suc p.logsize) at ≡ true))

  pub buddy_of-Buddy : Buddy
  unfolding buddy_of
  buddy_of-Buddy =
      let g = remove_node-Good m p.addr valid listed in
      let h = pow_pos p.logsize in
      let double : 2 ^ suc p.logsize ≡ 2 ^ p.logsize * 2 = omega arith in
      let shifted = shift-lt p.logsize (omega (arith, valid.small)) in
      let whole = shift-lt m.maxlogsize valid.small in
      elim (Bool-cases (bit p.logsize p.addr)) [
        | inr off ↦
            let left : p.right ≡ false = g.right ∙ off in
            let even = aligned-left p.logsize p.addr g.aligned_addr off in
            let room =
              aligned-room (suc p.logsize) m.maxlogsize p.addr (omega arith) even in_pool in
            let y = p.addr + 2 ^ p.logsize in
            let (n, t, run) =
              block_at p.addr y even (aligned-high p.logsize p.addr even).0 (omega arith)
                (omega arith) (omega arith) (omega arith) (ground arith) (omega arith) in
            let inside : leb (2 ^ m.maxlogsize) y ≡ false = ground arith in
            record {
              at = y;
              node = n;
              rest = t;
              found = rw (shifted, ◌>>=◌, left, whole, ◌>>=◌, inside) refl;
              differ = λ q. absurd (omega arith);
              run = run;
              side = inl (left, refl, even);
            }
        | inl on ↦
            let right : p.right ≡ true = g.right ∙ on in
            let (le, even) = aligned-right p.logsize p.addr g.aligned_addr on in
            let y = p.addr - 2 ^ p.logsize in
            let (n, t, run) =
              block_at y y even (aligned-low p.logsize y even).0 (omega arith) (omega arith)
                (omega arith) (omega arith) (ground arith) (omega (arith, in_pool)) in
            let inside : ltb p.addr (2 ^ p.logsize) ≡ false = ground arith in
            record {
              at = y;
              node = n;
              rest = t;
              found = rw (shifted, ◌>>=◌, right, inside) refl;
              differ = λ q. absurd (omega arith);
              run = run;
              side = inr (right, omega arith, even);
            }
      ]
