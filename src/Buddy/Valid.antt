-- ===== src/Buddy/Valid.antt =====
-- buddy/mpool.c: what holds of a pool between two calls.
use experimentation.Base.{
  Bool, List, [], arith, false, if◌then◌else◌, leb, length, ltb, max, not, refl, some, suc, true,
  zero, ℕ, ◌&&◌, ◌*◌, ◌+◌, ◌-◌, ◌<◌, ◌==◌, ◌^◌, ◌∷◌, ◌≡◌, ◌≤◌,
}
use experimentation.Buddy.Bits.{aligned, bit, parent_bit}
use experimentation.Buddy.Blocks.{remove_node}
use experimentation.Buddy.Levels.{Levels, remove_node-Taken}
use experimentation.Buddy.Sums.{begins, row_sum, total, total-remove_node}
use experimentation.Buddy.Types.{Blknode, Mpool, node_size, shift}
use experimentation.Buddy.Unlink.{remove_node-addr}
use experimentation.Htable.Chains.{to_nat}

-- whether the byte `x` is among the `size` from `a` on
abbrev pub span : ℕ → ℕ → ℕ → ℕ
span x a size = to_nat (leb a x && ltb x (a + size))

-- how often a block has the byte `x`
abbrev pub covers : ℕ → Blknode → ℕ
covers x n = span x n.addr (2 ^ n.logsize)

-- how often a block in use has the byte `x`
abbrev pub uses : ℕ → Blknode → ℕ
uses x n = if n.avail then 0 else covers x n

-- a header whose `ptr` is not the byte behind it
abbrev pub misplaced : Blknode → ℕ
misplaced n = to_nat (not (n.ptr == n.addr + node_size))

abbrev pub size_of : Blknode → ℕ
size_of n = 2 ^ n.logsize

abbrev pub xor : Bool → Bool → ℕ
xor false b = to_nat b
xor true b = to_nat (not b)

-- a block that does not begin at a multiple of its size
abbrev pub misaligned : Blknode → ℕ
misaligned n = to_nat (not (aligned n.logsize n.addr))

-- a bit RIGHT that is not that of the address
abbrev pub misplaced_right : Blknode → ℕ
misplaced_right n = xor n.right (bit n.logsize n.addr)

-- a bit PARENT that is not that of the address
abbrev pub misplaced_parent : ℕ → Blknode → ℕ
misplaced_parent max n = xor n.parent (parent_bit (max - n.logsize) n.logsize n.addr)

-- Every byte of the pool is in exactly one block, every block is in the list of its size and begins
-- at a multiple of it, its flags are those of its address, and what is handed out lies behind the
-- header.
pub record IsPool (m : Mpool) : Type 0 where
  pub small : m.maxlogsize < 31
  pub positive : 0 < m.minlogsize
  pub ordered : m.minlogsize ≤ m.maxlogsize
  pub width : length m.blktable + m.minlogsize ≡ m.maxlogsize + 1
  pub levels : Levels m.maxlogsize 0 m.blktable
  pub covered : (x : ℕ) → total (covers x) m.blktable ≡ span x 0 (2 ^ m.maxlogsize)
  pub sized : total size_of m.blktable ≡ 2 ^ m.maxlogsize
  pub pointers : total misplaced m.blktable ≡ 0
  pub alignment : total misaligned m.blktable ≡ 0
  pub rights : total misplaced_right m.blktable ≡ 0
  pub parents : total (misplaced_parent m.maxlogsize) m.blktable ≡ 0

pub xor-eq : (a b : Bool) → xor a b ≡ 0 → a ≡ b
xor-eq false false e = refl
xor-eq false true e = absurd (omega arith)
xor-eq true false e = absurd (omega arith)
xor-eq true true e = refl

xor_self : (b : Bool) → xor b b ≡ 0
xor_self false = refl
xor_self true = refl

pub eq-xor : {a b : Bool} → a ≡ b → xor a b ≡ 0
eq-xor {a} {b} e = rw e (xor_self b)

pub shift-lt : (n : ℕ) → n < 31 → shift n ≡ some (2 ^ n)
unfolding shift
shift-lt n l = ground arith

pub pow_pos : (n : ℕ) → 0 < 2 ^ n
pow_pos zero = omega arith
pow_pos (suc n) = omega (arith, pow_pos n)

pub pow_step : (a b : ℕ) → b + 1 ≡ a → 2 ^ a ≡ 2 ^ b * 2
pow_step zero b e = absurd (omega arith)
pow_step (suc a) b e = let same : b ≡ a = omega arith in rw same (omega arith)

module _ (w v : Blknode → ℕ) (le : (n : Blknode) → w n ≤ v n) where
  row_sum_mono : (c : List Blknode) → row_sum w c ≤ row_sum v c
  unfolding row_sum
  row_sum_mono [] = omega arith
  row_sum_mono (n ∷ c) = omega (arith, le n, row_sum_mono c)

  pub total_mono : (bs : List (List Blknode)) → total w bs ≤ total v bs
  unfolding total
  total_mono [] = omega arith
  total_mono (c ∷ bs) = omega (arith, row_sum_mono c, total_mono bs)

pub begins-covers : (a : ℕ) (n : Blknode) → begins a n ≤ covers a n
begins-covers a n = ground (arith, pow_pos n.logsize)

-- an address is that of one block at most
pub begins-le : (m : Mpool) → IsPool m → (a : ℕ) → total (begins a) m.blktable ≤ 1
begins-le m valid a =
    ground (arith, total_mono (begins a) (covers a) (begins-covers a) m.blktable, valid.covered a)

-- once a block is off the lists, its address is that of none
pub begins-removed :
    (m : Mpool) (a : ℕ) {r : Blknode × List (List Blknode)}
    → IsPool m
    → remove_node a m.blktable ≡ some r
    → total (begins a) r.1 ≡ 0
begins-removed m a {r} valid e =
    let at : r.0.addr ≡ a = remove_node-addr a m.blktable e in
    let one : begins a r.0 ≡ 1 = ground arith in
    omega (arith, begins-le m valid a, total-remove_node (begins a) a m.blktable e)

-- what holds of each block of a valid pool
pub record Good (m : Mpool) (p : Blknode) : Type 0 where
  pub low : m.minlogsize ≤ p.logsize
  pub high : p.logsize ≤ m.maxlogsize
  pub ptr : p.ptr ≡ p.addr + node_size
  pub aligned_addr : aligned p.logsize p.addr ≡ true
  pub right : p.right ≡ bit p.logsize p.addr
  pub parent : p.parent ≡ parent_bit (m.maxlogsize - p.logsize) p.logsize p.addr

pub remove_node-Good :
    (m : Mpool) (a : ℕ) {r : Blknode × List (List Blknode)}
    → IsPool m
    → remove_node a m.blktable ≡ some r
    → Good m r.0
remove_node-Good m a {r} valid e =
    let t = remove_node-Taken m.maxlogsize 0 a m.blktable valid.levels e in
    let zero_of : (w : Blknode → ℕ) → total w m.blktable ≡ 0 → w r.0 ≡ 0 =
      λ w z. omega (arith, total-remove_node w a m.blktable e) in
    let ptr : misplaced r.0 ≡ 0 = zero_of misplaced valid.pointers in
    let al : misaligned r.0 ≡ 0 = zero_of misaligned valid.alignment in
    record {
      low = omega (arith, t.level, t.inside, valid.width);
      high = omega (arith, t.level);
      ptr = ground arith;
      aligned_addr = ground arith;
      right = xor-eq (r.0.right) _ (zero_of misplaced_right valid.rights);
      parent = xor-eq (r.0.parent) _ (zero_of (misplaced_parent m.maxlogsize) valid.parents);
    }
