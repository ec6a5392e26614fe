-- ===== src/Homework.antt =====
-- homework: short programs.
pub mod Bitmap
pub mod Charfreq
