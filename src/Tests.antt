-- ===== src/Tests.antt =====
-- Runs of the code on concrete input, and the theorems at concrete input.
mod Tables
mod Machines
mod Events
mod Pools
mod Matrices
mod Files
mod Shops
mod Programs
