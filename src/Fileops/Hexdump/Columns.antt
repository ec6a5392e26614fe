-- ===== src/Fileops/Hexdump/Columns.antt =====
-- fileops/hexdump.c: the width of the column of hexadecimal digits.
use experimentation.Fileops.Hexdump.{more, cell, hex_cells, blanks, line}
use experimentation.Base.{
  ◌-◌, Bool-cases, length-append, ◌*◌, ◌+◌, ◌==◌, ◌≤◌, ◌≡◌, ◌&&◌, ℤ, length, leb, ℕ, zero, suc, [],
  ◌∷◌, inl, inr, Bool, List, if◌then◌else◌, arith,
}

-- the spaces in the middle
abbrev gap : ℕ → ℕ → ℕ
gap i n = if leb i 9 && leb 10 n then 1 else 0

hex_cells-length :
    (caps : Bool) (len : ℤ) (i totalbytes : ℕ) (buf : List ℕ)
    → let c = hex_cells caps len i totalbytes buf in
      (i ≤ c.i) × (c.i ≤ i + length buf) × (length c.text + 3 * i ≡ 3 * c.i + gap i c.i)
unfolding hex_cells cell
hex_cells-length caps len i totalbytes [] = (omega arith, omega arith, ground arith)
hex_cells-length caps len i totalbytes (byte ∷ buf) =
    let (low, high, wide) = hex_cells-length caps len (suc i) (suc totalbytes) buf in
    elim (Bool-cases (more totalbytes len)) [
      | inl e ↦
          let rest = hex_cells caps len (suc i) (suc totalbytes) buf in
          rw e (
            omega arith,
            omega arith,
            ground (arith, length-append (if i == 9 then 32 ∷ [] else []) rest.text),
          )
      | inr e ↦ rw e (omega arith, omega arith, ground arith)
    ]

blanks-length : (j rounds : ℕ) → length (blanks j rounds) ≡ 3 * rounds + gap j (j + rounds)
unfolding blanks
blanks-length j zero = ground arith
blanks-length j (suc rounds) = ground (
  arith,
  length-append (if j == 9 then 32 ∷ [] else []) (blanks (suc j) rounds),
  blanks-length (suc j) rounds,
)

-- Of at most 20 bytes that were read, the digits and the blanks of a line take 61 characters, but
-- 62 where 10 bytes are shown.
pub columns-length :
    (caps : Bool) (cnt : ℕ) (len skip : ℤ) (totalbytes : ℕ) (buf : List ℕ)
    → length buf ≤ 20
    → let c = hex_cells caps len 0 totalbytes buf in
      length (line caps cnt skip buf c).columns ≡ (if c.i == 10 then 62 else 61)
unfolding line
columns-length caps cnt len skip totalbytes buf short =
    let c = hex_cells caps len 0 totalbytes buf in
    let (low, high, wide) = hex_cells-length caps len 0 totalbytes buf in
    ground (arith, length-append c.text (blanks 0 (20 - c.i)), blanks-length 0 (20 - c.i))
