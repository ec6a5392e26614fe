-- ===== src/Tests/Files.antt =====
-- fileops/hexdump.c: a run of the program and its theorems.
use experimentation.Fileops.Hexdump.Columns.{columns-length}
use experimentation.Fileops.Hexdump.Whole.{hexdump-Shown, Shown}
use experimentation.Fileops.Hexdump.{
  DumpLine, address, dump, text_of, seek, visible, take, blanks, line, hex_cells, hexdump, cell,
}
use experimentation.Base.{
  ◌==◌, map, ◌≡◌, ◌>>=◌, replicate, length, ℕ, some, true, false, [], ◌∷◌, refl, List,
  if◌then◌else◌, arith, pos, negsuc,
}

abbrev ten_bytes : List ℕ
ten_bytes = replicate 10 65

program : Unit {0}
unfolding cell hex_cells blanks visible line text_of dump hexdump address
program = tt

-- the head of the line for the bytes A, 10 and 255
line_runs :
    (hexdump 3 true (negsuc 0) (pos 1) (0 ∷ 65 ∷ 10 ∷ 255 ∷ []) >>= λ lines.
    some (map (λ (l : DumpLine). take 8 l.columns) lines))
    ≡ some ((52 ∷ 49 ∷ 32 ∷ 48 ∷ 65 ∷ 32 ∷ 70 ∷ 70 ∷ []) ∷ [])
unfolding program
line_runs = refl

columns-length_example :
    length (line false 0 (pos 0) ten_bytes (hex_cells false (negsuc 0) 0 0 ten_bytes)).columns
    ≡ (if (hex_cells false (negsuc 0) 0 0 ten_bytes).i == 10 then 62 else 61)
columns-length_example = columns-length false 0 (negsuc 0) (pos 0) 0 ten_bytes (omega arith)

hexdump-Shown_example :
    (lines : List DumpLine) × (hexdump 4 true (pos 25) (pos 2) (replicate 40 7) ≡ some lines)
    × Shown (pos 25) (pos 2) 0 0 (seek (pos 2) (replicate 40 7)) lines
hexdump-Shown_example = hexdump-Shown 4 true (pos 25) (pos 2) (replicate 40 7) (omega arith)
