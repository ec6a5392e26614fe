-- ===== src/Tests/Pools.antt =====
-- buddy: runs of a pool of 1024 bytes and its theorems.
use experimentation.Base.{
  Option, [], ap, arith, false, none, refl, some, true, ℕ, ◌+◌, ◌-◌, ◌>>=◌, ◌^◌, ◌∷◌, ◌≡◌,
}
use experimentation.Buddy.Alloc.{refused, Allocated, handed, mpool_alloc-Allocated}
use experimentation.Buddy.Blocks.{insert_head, mark, mark_row, remove_node, remove_row}
use experimentation.Buddy.Buddies.{}
use experimentation.Buddy.Bytes.{avail_size, mpool_stat_get_bytes-size_of, used_size}
use experimentation.Buddy.Free.{Released, mpool_free-Released, mpool_free-mpool_alloc}
use experimentation.Buddy.Init.{Created, mpool_init-Created, whole, whole-IsPool}
use experimentation.Buddy.Pool.{
  again, buddy_of, chunk_found, coalesce, create, first_avail, mpool_alloc, mpool_free, mpool_init,
  no_split, scan, split,
}
use experimentation.Buddy.Split.{Listed}
use experimentation.Buddy.Stat.{
  bytes_row, bytes_rows, count_row, count_rows, mpool_stat_get_bytes, mpool_stat_get_nodes,
}
use experimentation.Buddy.Sums.{total}
use experimentation.Buddy.Types.{Blknode, Mpool, Mpret, node_size, shift}
use experimentation.Buddy.Valid.{IsPool, uses}
use mathlib.Core.Path.{subst}

program : Unit {0}
unfolding shift remove_row remove_node insert_head mark_row mark create mpool_init first_avail scan
    no_split split again mpool_alloc coalesce buddy_of chunk_found mpool_free count_row count_rows
    mpool_stat_get_nodes bytes_row bytes_rows mpool_stat_get_bytes
program = tt

abbrev pool : Mpool
pool = whole 10 6

pool-IsPool : IsPool pool
pool-IsPool = whole-IsPool 10 6 (omega arith) (omega arith) (omega arith)

-- 100 bytes and a header take a quarter, after two splits; the release merges twice
abbrev session : Option (Option ℕ × ℕ × (ℕ × ℕ) × ℕ × ℕ × (ℕ × ℕ))
session = mpool_alloc pool 100 >>= λ a. mpool_stat_get_bytes a.1 >>= λ t. mpool_free a.1 40 >>= λ m.
    mpool_stat_get_bytes m >>= λ u. some (a.0, a.1.nsplits, t, m.nmerges, m.nsplits, u)

session_runs : session ≡ some (some 40, 2, (768, 256), 2, 2, (1024, 0))
unfolding program
session_runs = refl

-- a size that wraps around is taken for a small one
wide_runs : (mpool_alloc pool (2 ^ 64 - 40) >>= λ a. some a.0) ≡ some (some 40)
unfolding program
wide_runs = refl

mpool_init-Created_example :
    (r : Mpret × Option Mpool) × (mpool_init true true true 10 6 ≡ some r)
    × Created true true true 10 6 r
mpool_init-Created_example = mpool_init-Created true true true 10 6 (omega arith)

-- sizes that mpool_init lets through, but computes by a shift without meaning
undefined_size : mpool_init true true true 40 6 ≡ none
unfolding program
undefined_size = refl

mpool_alloc-Allocated_example :
    (r : Option ℕ × Mpool) × (mpool_alloc pool 100 ≡ some r) × Allocated (100 + node_size) pool r
mpool_alloc-Allocated_example = mpool_alloc-Allocated pool 100 pool-IsPool (omega arith)

mpool_stat_get_bytes-size_of_example :
    (mpool_stat_get_bytes pool
      ≡ some (total avail_size pool.blktable, total used_size pool.blktable))
    × (total avail_size pool.blktable + total used_size pool.blktable ≡ 2 ^ pool.maxlogsize)
mpool_stat_get_bytes-size_of_example = mpool_stat_get_bytes-size_of pool pool-IsPool

-- the block of 256 bytes that is handed out for 100
abbrev block : Blknode
block = record { addr = 0; avail = false; right = false; parent = false; logsize = 8; ptr = 40 }

-- the pool after that
abbrev busy : Mpool
busy = record pool {
  nsplits = 2;
  blktable =
      []
      ∷ (record { addr = 512; avail = true; right = true; parent = true; logsize = 9; ptr = 552 }
          ∷ [])
      ∷ (record { addr = 256; avail = true; right = true; parent = false; logsize = 8; ptr = 296 }
          ∷ block
          ∷ [])
      ∷ []
      ∷ []
      ∷ [];
}

busy_runs : mpool_alloc pool 100 ≡ some (some 40, busy)
unfolding program
busy_runs = refl

block-Listed : Listed block busy
unfolding program
block-Listed = (_, refl)

busy-IsPool : IsPool busy
busy-IsPool =
    let (r, run, a) = mpool_alloc-Allocated_example in
    let same : r ≡ (some 40, busy) = cc (run, busy_runs) in
    elim a [
      | refused e z ↦ absurd (cc (ap (λ x. x.0) same, ap (λ x. x.0) e))
      | handed p q ch at h ↦ subst (λ x. IsPool (x.1)) same h.valid
    ]

mpool_free-Released_example :
    (m : Mpool) × (mpool_free busy (block.addr + node_size) ≡ some m) × Released block busy m
mpool_free-Released_example = mpool_free-Released busy block busy-IsPool block-Listed

mpool_free-mpool_alloc_example :
    (m : Mpool) × (mpool_free busy 40 ≡ some m)
    × IsPool m
    × ((x : ℕ) → total (uses x) m.blktable ≡ total (uses x) pool.blktable)
mpool_free-mpool_alloc_example =
    mpool_free-mpool_alloc pool 100 40 busy pool-IsPool (omega arith) busy_runs
