-- ===== src/Fileops/Hexdump/Whole.antt =====
-- fileops/hexdump.c: every byte that is asked for is shown once, in lines with the addresses of their
-- first bytes.
use experimentation.Fileops.Hexdump.Limit.{
  limit-split, take-limit, next-Enough, hex_cells-limit, limit-stop, limit, limit-nil, Enough,
}
use experimentation.Fileops.Hexdump.Addresses.{read_hex, read_hex-address, length-address}
use experimentation.Fileops.Hexdump.{
  to_ulong, line, hex_cells, take, more, visible, seek, DumpLine, hexdump, dump,
}
use experimentation.Base.{
  ◌*◌, ◌%◌, ◌^◌, sym, ◌∙◌, ap, ◌>>=◌, drop, ltb, ◌≤◌, Bool-cases, ◌+◌, ◌/◌, map, ◌≡◌, flatten,
  length, ℤ, ℕ, zero, suc, some, true, false, [], ◌∷◌, refl, inl, inr, Bool, List, arith,
}
use mathlib.Core.List.{map-append, flatten}

-- the lines have the addresses of their first bytes, from the number `cnt` on, in 8 digits or more
pub data Numbered (skip : ℤ) : ℕ → List DumpLine → Type 0 where
  none_left : {cnt : ℕ} → Numbered skip cnt []
  numbered :
      {cnt : ℕ} {l : DumpLine} {lines : List DumpLine}
      → read_hex 0 l.offset ≡ (cnt * 20 + to_ulong skip) % 2 ^ 64
      → 9 ≤ length l.offset
      → Numbered skip (suc cnt) lines
      → Numbered skip cnt (l ∷ lines)

-- what is printed
pub record Shown (len skip : ℤ) (cnt totalbytes : ℕ) (file : List ℕ) (lines : List DumpLine)
    : Type 0 where
  pub bytes :
      flatten (map (λ (l : DumpLine). l.chars) lines) ≡ map visible (limit len totalbytes file)
  pub addresses : Numbered skip cnt lines

-- one more line
line-Shown :
    (caps : Bool) (len skip : ℤ) (cnt totalbytes : ℕ) (file : List ℕ) (lines : List DumpLine)
    → let c = hex_cells caps len 0 totalbytes (take 20 file) in
      Shown len skip (suc cnt) c.totalbytes (drop 20 file) lines
      → Shown len skip cnt totalbytes file (line caps cnt skip (take 20 file) c ∷ lines)
unfolding line flatten
line-Shown caps len skip cnt totalbytes file lines shown =
    let buf = take 20 file in
    let c = hex_cells caps len 0 totalbytes buf in
    let (count, total) = hex_cells-limit caps len 0 totalbytes buf in
    let first : take c.i buf ≡ limit len totalbytes buf =
      ap (λ k. take k buf) (omega (arith, count)) ∙ take-limit len totalbytes buf in
    record {
      bytes =
          rw (first, shown.bytes, total)
            (sym (map-append visible (limit len totalbytes buf) (limit len _ (drop 20 file)))
              ∙ ap (map visible) (sym (limit-split len totalbytes 20 file)));
      addresses =
          numbered (read_hex-address caps cnt skip) (length-address caps cnt skip) shown.addresses;
    }

dump-Shown :
    (fuel : ℕ) (caps : Bool) (len skip : ℤ) (eof : Bool) (cnt totalbytes : ℕ) (file : List ℕ)
    → Enough fuel eof file
    → (lines : List DumpLine) × (dump fuel caps len skip eof cnt totalbytes file ≡ some lines)
      × Shown len skip cnt totalbytes file lines
unfolding dump
dump-Shown zero caps len skip true cnt totalbytes file h = absurd (omega arith)
dump-Shown zero caps len skip false cnt totalbytes file h = absurd (omega arith)
dump-Shown (suc fuel) caps len skip true cnt totalbytes (x ∷ file) h = absurd (omega arith)
dump-Shown (suc fuel) caps len skip true cnt totalbytes [] h = (
  [],
  refl,
  record { bytes = unfold flatten in rw (limit-nil len totalbytes) refl; addresses = none_left },
)
dump-Shown (suc fuel) caps len skip false cnt totalbytes file h =
    elim (Bool-cases (more totalbytes len)) [
      | inr e ↦ (
        [],
        rw e refl,
        record {
          bytes = unfold flatten in rw (limit-stop len totalbytes file e) refl;
          addresses = none_left;
        },
      )
      | inl e ↦
          let buf = take 20 file in
          let c = hex_cells caps len 0 totalbytes buf in
          let (lines, run, shown) =
            dump-Shown fuel caps len skip (ltb (length buf) 20) (suc cnt) c.totalbytes
              (drop 20 file) (next-Enough fuel file h) in
          (
            line caps cnt skip buf c ∷ lines,
            rw (e, run, ◌>>=◌) refl,
            line-Shown caps len skip cnt totalbytes file lines shown,
          )
    ]

-- With one round of fuel for each line of 20 bytes, and two more, hexdump ends. The characters that
-- it shows are those of the file from the offset on, as many as are asked for, each printed or as a
-- point. The address of each line has 8 digits or more, and is, as a hexadecimal number, the offset
-- and 20 for each line before it, modulo 2 ^ 64.
pub hexdump-Shown :
    (fuel : ℕ) (caps : Bool) (len skip : ℤ) (file : List ℕ)
    → length (seek skip file) / 20 + 2 ≤ fuel
    → (lines : List DumpLine) × (hexdump fuel caps len skip file ≡ some lines)
      × Shown len skip 0 0 (seek skip file) lines
unfolding hexdump
hexdump-Shown fuel caps len skip file h = dump-Shown fuel caps len skip false 0 0 (seek skip file) h
