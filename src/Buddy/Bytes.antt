-- ===== src/Buddy/Bytes.antt =====
-- buddy/mstat.c: what the counters say of a valid pool.
use experimentation.Base.{
  Bool-cases, List, Option, [], arith, if◌then◌else◌, inl, inr, max, refl, size_mod, some, suc,
  wrap, zero, ℕ, ◌+◌, ◌-◌, ◌<◌, ◌>>=◌, ◌^◌, ◌∙◌, ◌∷◌, ◌≡◌, ◌≤◌,
}
use experimentation.Buddy.Alloc.{}
use experimentation.Buddy.Levels.{Levels, OnLevel}
use experimentation.Buddy.Stat.{bytes_row, bytes_rows, mpool_stat_get_bytes}
use experimentation.Buddy.Sums.{row_sum, total}
use experimentation.Buddy.Types.{Blknode, Mpool}
use experimentation.Buddy.Valid.{IsPool, pow_step, shift-lt, size_of}

-- the bytes of a block, if it is available or if it is in use
abbrev pub avail_size : Blknode → ℕ
avail_size n = if n.avail then size_of n else 0

abbrev pub used_size : Blknode → ℕ
used_size n = if n.avail then 0 else size_of n

pair_eq : {a b c d : ℕ} → a ≡ c → b ≡ d → ◌≡◌ {A = Option (ℕ × ℕ)} (some (a, b)) (some (c, d))
pair_eq e f = rw (e, f) refl

sizes-row : (c : List Blknode) → row_sum avail_size c + row_sum used_size c ≡ row_sum size_of c
unfolding row_sum
sizes-row [] = refl
sizes-row (n ∷ c) = ground (arith, sizes-row c)

sizes-total :
    (bs : List (List Blknode)) → total avail_size bs + total used_size bs ≡ total size_of bs
unfolding total
sizes-total [] = refl
sizes-total (c ∷ bs) = omega (arith, sizes-row c, sizes-total bs)

bytes_row-sum :
    (max i : ℕ) (c : List Blknode) (a u : ℕ)
    → max < 31
    → OnLevel max i c
    → a + u + row_sum size_of c < size_mod
    → bytes_row c (a, u) ≡ some (a + row_sum avail_size c, u + row_sum used_size c)
unfolding bytes_row row_sum
bytes_row-sum max i [] a u small lv room = pair_eq (omega arith) (omega arith)
bytes_row-sum max i (n ∷ c) a u small lv room =
    let shifted = shift-lt n.logsize (omega (arith, lv.0)) in
    elim (Bool-cases n.avail) [
      | inl on ↦
          let fits : wrap (a + 2 ^ n.logsize) ≡ a + 2 ^ n.logsize = omega arith in
          rw (shifted, ◌>>=◌, on, fits)
            (bytes_row-sum max i c (a + 2 ^ n.logsize) u small lv.1 (omega arith)
              ∙ pair_eq (omega arith) (omega arith))
      | inr off ↦
          let fits : wrap (u + 2 ^ n.logsize) ≡ u + 2 ^ n.logsize = omega arith in
          rw (shifted, ◌>>=◌, off, fits)
            (bytes_row-sum max i c a (u + 2 ^ n.logsize) small lv.1 (omega arith)
              ∙ pair_eq (omega arith) (omega arith))
    ]

bytes_rows-sum :
    (max i : ℕ) (bs : List (List Blknode)) (a u : ℕ)
    → max < 31
    → Levels max i bs
    → a + u + total size_of bs < size_mod
    → bytes_rows bs (a, u) ≡ some (a + total avail_size bs, u + total used_size bs)
unfolding bytes_rows total
bytes_rows-sum max i [] a u small lv room = pair_eq (omega arith) (omega arith)
bytes_rows-sum max i (c ∷ bs) a u small lv room =
    let row = bytes_row-sum max i c a u small lv.0 (omega arith) in
    rw (row, ◌>>=◌)
      (bytes_rows-sum max (suc i) bs (a + row_sum avail_size c) (u + row_sum used_size c) small lv.1
          (omega (arith, sizes-row c))
        ∙ pair_eq (omega arith) (omega arith))

add_zero : (n : ℕ) → n + 0 ≡ n
add_zero n = omega arith

pow_le : (n d : ℕ) → 2 ^ n ≤ 2 ^ (n + d)
pow_le n zero = rw (add_zero n) (omega arith)
pow_le n (suc d) = omega (arith, pow_le n d, pow_step (n + suc d) (n + d) (omega arith))

pow_below : (n : ℕ) → n < 31 → 2 ^ n < size_mod
pow_below n l =
    let full : n + (31 - n) ≡ 31 = omega arith in
    let less : 2 ^ n ≤ 2 ^ 31 = rw full at (pow_le n (31 - n)) in omega arith

-- mpool_stat_get_bytes of a valid pool answers the bytes of its available blocks and those of its
-- blocks in use, which make up the pool.
pub mpool_stat_get_bytes-size_of :
    (m : Mpool)
    → IsPool m
    → (mpool_stat_get_bytes m ≡ some (total avail_size m.blktable, total used_size m.blktable))
      × (total avail_size m.blktable + total used_size m.blktable ≡ 2 ^ m.maxlogsize)
unfolding mpool_stat_get_bytes
mpool_stat_get_bytes-size_of m valid = (
  bytes_rows-sum m.maxlogsize 0 m.blktable 0 0 valid.small valid.levels
        (omega (arith, valid.sized, pow_below m.maxlogsize valid.small))
      ∙ pair_eq (omega arith) (omega arith),
  sizes-total m.blktable ∙ valid.sized,
)
