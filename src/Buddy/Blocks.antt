-- ===== src/Buddy/Blocks.antt =====
-- sys/queue.h as buddy/mpool.c uses it: the lists of blocks.
use experimentation.Base.{
  Bool, List, Option, [], get_elem?, if◌then◌else◌, none, set, some, ℕ, ◌==◌, ◌>>=◌, ◌∷◌,
}
use experimentation.Buddy.Types.{Blknode}

-- LIST_REMOVE of the header at an address, from one list
unfoldable pub remove_row : ℕ → List Blknode → Option (Blknode × List Blknode)
remove_row a [] = none
remove_row a (n ∷ c) =
    if n.addr == a then some (n, c) else (remove_row a c >>= λ r. some (r.0, n ∷ r.1))

-- LIST_REMOVE of the header at an address, with what the header holds
unfoldable pub remove_node : ℕ → List (List Blknode) → Option (Blknode × List (List Blknode))
remove_node a [] = none
remove_node a (c ∷ bs) = elim (remove_row a c) [
  | none ↦ remove_node a bs >>= λ r. some (r.0, c ∷ r.1)
  | some r ↦ some (r.0, r.1 ∷ bs)
]

-- LIST_INSERT_HEAD into the list at `i`
unfoldable pub insert_head : ℕ → Blknode → List (List Blknode) → Option (List (List Blknode))
insert_head i n bs = get_elem? bs i >>= λ phead. some (set bs i (n ∷ phead))

-- MPOOL_MARK_AVAIL and MPOOL_MARK_USED of the header at an address
unfoldable pub mark_row : ℕ → Bool → List Blknode → List Blknode
mark_row a v [] = []
mark_row a v (n ∷ c) = (if n.addr == a then record n { avail = v } else n) ∷ mark_row a v c

unfoldable pub mark : ℕ → Bool → List (List Blknode) → List (List Blknode)
mark a v [] = []
mark a v (c ∷ bs) = mark_row a v c ∷ mark a v bs
