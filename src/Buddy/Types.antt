-- ===== src/Buddy/Types.antt =====
-- buddy/mpool.h: the types of the buddy allocator. An address is the distance from `mem`, and a
-- list of `blktable` is the list of the headers on it, so that a header that is on no list has no
-- contents.
use experimentation.Base.{Bool, List, Option, if◌then◌else◌, ltb, none, some, ℕ, ◌^◌}

-- the three bits of `flags` are `avail`, `right` and `parent`
pub record Blknode : Type 0 where
  pub addr : ℕ
  pub avail : Bool
  pub right : Bool
  pub parent : Bool
  pub logsize : ℕ
  pub ptr : ℕ

pub record Mpool : Type 0 where
  pub nblocks : ℕ
  pub maxlogsize : ℕ
  pub minlogsize : ℕ
  pub nsplits : ℕ
  pub nmerges : ℕ
  pub blktable : List (List Blknode)

pub data Mpret : Type 0 where
  ok ebadval enomem erange : Mpret

-- `sizeof(blknode_t)` where pointers have 8 bytes
abbrev pub node_size : ℕ
node_size = 40

-- `1 << n` on an `int` of 32 bits, which has no meaning from 31 on
unfoldable pub shift : ℕ → Option ℕ
shift n = if ltb n 31 then some (2 ^ n) else none
