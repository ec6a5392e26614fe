-- ===== src/Buddy/Stat.antt =====
-- buddy/mstat.c: the counters of a pool.
use experimentation.Base.{
  List, Option, [], get_elem?, if◌then◌else◌, leb, length, some, wrap, ℕ, ◌+◌, ◌>>=◌, ◌∷◌,
}
use experimentation.Buddy.Types.{Blknode, Mpool, shift}
use experimentation.Htable.Types.{}

-- `avail` and `used` after one list
unfoldable pub count_row : List Blknode → ℕ × ℕ → ℕ × ℕ
count_row [] t = t
count_row (pnode ∷ c) t = count_row c (if pnode.avail then (t.0 + 1, t.1) else (t.0, t.1 + 1))

unfoldable pub count_rows : List (List Blknode) → ℕ × ℕ → ℕ × ℕ
count_rows [] t = t
count_rows (c ∷ bs) t = count_rows bs (count_row c t)

unfoldable pub mpool_stat_get_nodes : Mpool → ℕ × ℕ
mpool_stat_get_nodes mpool = count_rows mpool.blktable (0, 0)

unfoldable pub bytes_row : List Blknode → ℕ × ℕ → Option (ℕ × ℕ)
bytes_row [] t = some t
bytes_row (pnode ∷ c) t = shift pnode.logsize >>= λ bytes.
    bytes_row c (if pnode.avail then (wrap (t.0 + bytes), t.1) else (t.0, wrap (t.1 + bytes)))

unfoldable pub bytes_rows : List (List Blknode) → ℕ × ℕ → Option (ℕ × ℕ)
bytes_rows [] t = some t
bytes_rows (c ∷ bs) t = bytes_row c t >>= bytes_rows bs

unfoldable pub mpool_stat_get_bytes : Mpool → Option (ℕ × ℕ)
mpool_stat_get_bytes mpool = bytes_rows mpool.blktable (0, 0)

unfoldable pub mpool_stat_get_blocks : Mpool → ℕ
mpool_stat_get_blocks mpool = mpool.nblocks

unfoldable pub mpool_stat_get_block_length : Mpool → ℕ → Option ℕ
mpool_stat_get_block_length mpool at =
    if leb mpool.nblocks at
    then some 0
    else (get_elem? mpool.blktable at >>= λ phead. some (length phead))

unfoldable pub mpool_stat_get_splits : Mpool → ℕ
mpool_stat_get_splits mpool = mpool.nsplits

unfoldable pub mpool_stat_get_merges : Mpool → ℕ
mpool_stat_get_merges mpool = mpool.nmerges
