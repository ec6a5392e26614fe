-- ===== src/Fileops.antt =====
-- fileops: the program that has logic of its own.
pub mod Hexdump
