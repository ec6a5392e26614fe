-- ===== src/Buddy/Pool.antt =====
-- buddy/mpool.c: a pool, its allocations and its releases. What `malloc` answers is an argument.
-- `none` is a shift without meaning, an access outside `blktable`, or the read of a header that is on
-- no list.
use experimentation.Base.{
  Bool, List, Option, [], dec, false, if◌then◌else◌, leb, ltb, max, none, not, or_else, replicate,
  some, sub, suc, true, wrap, zero, ℕ, ◌&&◌, ◌+◌, ◌-◌, ◌==◌, ◌>>=◌, ◌∷◌,
}
use experimentation.Buddy.Blocks.{insert_head, mark, remove_node}
use experimentation.Buddy.Types.{Blknode, Mpool, Mpret, node_size, shift}
use experimentation.Fsm.Queue.{}
use experimentation.Htable.Removal.{}
use experimentation.Htable.Types.{}

-- what `mpool_init` allocates with memory for the pool, for `mem` and for `blktable`
unfoldable pub create : Bool → Bool → Bool → ℕ → ℕ → Option (Mpret × Option Mpool)
create got_pool got_mem got_table max min =
    if not got_pool
    then some (Mpret.enomem, none)
    else (shift max >>= λ bytes.
        if not got_mem
        then some (Mpret.enomem, none)
        else if not got_table
        then some (Mpret.enomem, none)
        else (insert_head 0
              (record {
                addr = 0;
                avail = true;
                right = false;
                parent = true;
                logsize = max;
                ptr = node_size;
              })
              (replicate (max - min + 1) [])
            >>= λ bs. some (
              Mpret.ok,
              some (record {
                nblocks = max - min + 1;
                maxlogsize = max;
                minlogsize = min;
                nsplits = 0;
                nmerges = 0;
                blktable = bs;
              }),
            )))

unfoldable pub mpool_init : Bool → Bool → Bool → ℕ → ℕ → Option (Mpret × Option Mpool)
mpool_init got_pool got_mem got_table maxlogsize minlogsize =
    if ltb 64 maxlogsize
    then some (Mpret.erange, none)
    else if ltb maxlogsize minlogsize
    then some (Mpret.ebadval, none)
    else (shift minlogsize >>= λ smallest.
        if leb smallest node_size
        then some (Mpret.ebadval, none)
        else create got_pool got_mem got_table maxlogsize minlogsize)

-- the first available header of a list
unfoldable pub first_avail : List Blknode → Option Blknode
first_avail [] = none
first_avail (pnode ∷ c) = if pnode.avail then some pnode else first_avail c

-- the `for` loop: the first available header of the last list that has one and whose first is
-- large enough
unfoldable pub scan : ℕ → List (List Blknode) → Option Blknode → Option (Option Blknode)
scan size [] pavailnode = some pavailnode
scan size ([] ∷ bs) pavailnode = scan size bs pavailnode
scan size ((pnode ∷ c) ∷ bs) pavailnode = shift pnode.logsize >>= λ bytes.
    scan size bs
      (if leb size bytes then or_else (first_avail (pnode ∷ c)) pavailnode else pavailnode)

-- the test whether the chunk is handed out as it is
unfoldable pub no_split : ℕ → ℕ → ℕ → Option Bool
no_split size minlogsize logsize = shift logsize >>= λ bytes.
    if size == bytes
    then some true
    else (shift (dec logsize) >>= λ half.
        if ltb half size then some true else some (ltb (dec logsize) minlogsize))

-- one split: the chunk becomes its left half, and its right half a new available chunk
unfoldable pub split : Blknode → Mpool → Option (Blknode × Mpool)
split pavailnode mpool = remove_node pavailnode.addr mpool.blktable >>= λ r.
    let logsize = dec pavailnode.logsize in
    let newpos = sub mpool.maxlogsize logsize in
    let left = record pavailnode { logsize = logsize; parent = pavailnode.right; right = false } in
    insert_head newpos left r.1 >>= λ bs. shift logsize >>= λ half.
    insert_head newpos
      (record {
        addr = pavailnode.addr + half;
        avail = true;
        right = true;
        parent = pavailnode.parent;
        logsize = logsize;
        ptr = pavailnode.addr + half + node_size;
      })
      bs
    >>= λ bs'. some (left, record mpool { nsplits = wrap (mpool.nsplits + 1); blktable = bs' })

-- from the label AGAIN on, on fuel: `none` is also a loop that has not ended. `pavailnode` is the
-- header behind the pointer.
unfoldable pub again : ℕ → ℕ → Blknode → Mpool → Option (ℕ × Mpool)
again zero size pavailnode mpool = none
again (suc fuel) size pavailnode mpool =
    no_split size mpool.minlogsize pavailnode.logsize >>= λ stop. elim stop [
      | true ↦
          some
            (pavailnode.ptr, record mpool { blktable = mark pavailnode.addr false mpool.blktable })
      | false ↦ split pavailnode mpool >>= λ r. again fuel size r.0 r.1
    ]

-- the pointer, `none` for NULL, and the pool
unfoldable pub mpool_alloc : Mpool → ℕ → Option (Option ℕ × Mpool)
mpool_alloc mpool blksize =
    let size = wrap (blksize + node_size) in
    scan size mpool.blktable none >>= λ found. elim found [
      | none ↦ some (none, mpool)
      | some pavailnode ↦
          again (suc pavailnode.logsize) size pavailnode mpool >>= λ r. some (some r.0, r.1)
    ]

-- the header of a merged chunk, from its left and its right half
abbrev pub merged : Blknode → Blknode → Blknode
merged left right = record left {
  right = left.parent;
  parent = right.parent;
  logsize = left.logsize + 1;
  avail = true;
}

-- the merge of `pnode` with its buddy; the answer is the merged chunk, or `none` where the two
-- headers are both of right buddies, which leaves them off the lists
unfoldable pub coalesce : Blknode → Blknode → Mpool → Option (Option Blknode × Mpool)
coalesce pnode pbuddy mpool = remove_node pnode.addr mpool.blktable >>= λ r.
    remove_node pbuddy.addr r.1 >>= λ s.
    let counted = record mpool { nmerges = wrap (mpool.nmerges + 1); blktable = s.1 } in
    let insert : Blknode → Option (Option Blknode × Mpool) = λ m.
      insert_head (sub mpool.maxlogsize m.logsize) m s.1 >>= λ bs.
      some (some m, record counted { blktable = bs }) in
    if not pnode.right
    then insert (merged pnode pbuddy)
    else if not pbuddy.right
    then insert (merged pbuddy pnode)
    else some (none, counted)

-- the address of the buddy, `none` where it is outside the pool
unfoldable pub buddy_of : Mpool → Blknode → Option (Option ℕ)
buddy_of mpool pnode = shift pnode.logsize >>= λ bytes.
    if pnode.right
    then some (if ltb pnode.addr bytes then none else some (pnode.addr - bytes))
    else (shift mpool.maxlogsize >>= λ end.
        some (if leb end (pnode.addr + bytes) then none else some (pnode.addr + bytes)))

-- from the label CHUNK_FOUND on, on fuel: `none` is also a loop that has not ended. `pnode` is the
-- header behind the pointer.
unfoldable pub chunk_found : ℕ → Blknode → Mpool → Option Mpool
chunk_found zero pnode mpool = none
chunk_found (suc fuel) pnode mpool =
    let freed = record mpool { blktable = mark pnode.addr true mpool.blktable } in
    elim (pnode.logsize == mpool.maxlogsize) [
      | true ↦ some freed
      | false ↦ buddy_of mpool pnode >>= λ at. elim at [
        | none ↦ some mpool
        | some a ↦ remove_node a mpool.blktable >>= λ r.
            elim (r.0.logsize == pnode.logsize && r.0.avail) [
              | false ↦ some freed
              | true ↦ coalesce pnode r.0 mpool >>= λ s. elim s.0 [
                | none ↦ some (s.1)
                | some m ↦ chunk_found fuel m s.1
              ]
            ]
      ]
    ]

unfoldable pub mpool_free : Mpool → ℕ → Option Mpool
mpool_free mpool ptr =
    if ltb ptr node_size
    then none
    else (remove_node (ptr - node_size) mpool.blktable >>= λ r.
        chunk_found (suc mpool.maxlogsize) r.0 mpool)

-- the arguments of `free` in `mpool_destroy`
pub data PoolBlock : Type 0 where
  blktable mem mpool : PoolBlock

abbrev pub mpool_destroy : List PoolBlock
mpool_destroy = PoolBlock.blktable ∷ PoolBlock.mem ∷ PoolBlock.mpool ∷ []
