-- ===== src/Buddy.antt =====
-- buddy: the buddy allocator.
pub mod Types
pub mod Blocks
pub mod Pool
pub mod Stat
pub mod Unlink
pub mod Sums
pub mod Levels
pub mod Bits
pub mod Valid
pub mod Find
pub mod Split
pub mod Scan
pub mod Alloc
pub mod Init
pub mod Bytes
pub mod Buddies
pub mod Merge
pub mod Coalesce
pub mod Free
