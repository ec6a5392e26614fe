-- ===== src/Htable.antt =====
-- genstructs/htable: a chained hash table that doubles its array of tail queues.
pub mod Types
pub mod Table
pub mod Walk
pub mod Memory
pub mod Chains
pub mod Layout
pub mod Flatten
pub mod Grow
pub mod Validity
pub mod Effect
pub mod Removal
pub mod Load
pub mod Iteration
pub mod Missed
pub mod Release
pub mod Loops
pub mod Members
