-- ===== src/Matmul.antt =====
-- pthreads/matrixmul/matrixmul.c: the product of two matrices, a thread for each of its cells.
pub mod Types
pub mod Memory
pub mod Setup
pub mod Alloc
pub mod Read
pub mod Balance
pub mod Cleanup
pub mod Threads
pub mod Product
pub mod Invariant
pub mod Cost
pub mod Live
pub mod Progress
pub mod Columns
pub mod Undefined
pub mod Correct
