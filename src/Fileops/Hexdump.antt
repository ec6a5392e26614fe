-- ===== src/Fileops/Hexdump.antt =====
-- fileops/hexdump.c, `main` after its arguments are read. A file is the list of its bytes, which are
-- read without error; what is printed is a list of characters. The counters of bytes and lines stay
-- within an `int`.
use experimentation.Base.{
  ◌>>=◌, map, max, not, ◌%◌, ◌-◌, ◌&&◌, ◌^◌, length, drop, ◌*◌, ◌+◌, ◌/◌, ltb, leb, ◌==◌, ℤ, ℕ,
  zero, suc, none, some, true, false, [], ◌∷◌, ◌++◌, refl, inl, inr, Bool, List, Option,
  if◌then◌else◌, arith, pos, negsuc,
}
pub mod Columns
pub mod Addresses
pub mod Limit
pub mod Whole

abbrev pub bufsize : ℕ
bufsize = 20

abbrev pub take {ℓ} : {A : Type ℓ} → ℕ → List A → List A
take zero xs = []
take (suc n) [] = []
take (suc n) (x ∷ xs) = x ∷ take n xs

-- a digit of %x or %X
pub hex_digit : Bool → ℕ → ℕ
hex_digit caps d = if ltb d 10 then 48 + d else (if caps then 55 + d else 87 + d)

-- the last `k` digits of a number
pub hex_digits : Bool → ℕ → ℕ → List ℕ
hex_digits caps zero n = []
hex_digits caps (suc k) n = hex_digits caps k (n / 16) ++ hex_digit caps (n % 16) ∷ []

-- how many digits a number has, up to `fuel` of them
pub digit_count : ℕ → ℕ → ℕ
digit_count zero n = 0
digit_count (suc fuel) n = let rest = digit_count fuel (n / 16) in if n == 0 then 0 else suc rest

-- an `int` that is converted to `unsigned long`
abbrev pub to_ulong : ℤ → ℕ
to_ulong (pos n) = n
to_ulong (negsuc n) = 2 ^ 64 - 1 - n

-- "%08lx " of the address of a line
unfoldable pub address : Bool → ℕ → ℤ → List ℕ
unfolding hex_digits digit_count hex_digit
address caps cnt skip =
    let a = (cnt * bufsize + to_ulong skip) % 2 ^ 64 in
    hex_digits caps (max 8 (digit_count 16 a)) a ++ 32 ∷ []

-- totalbytes < len || len == -1
abbrev pub more : ℕ → ℤ → Bool
more totalbytes (pos n) = ltb totalbytes n
more totalbytes (negsuc zero) = true
more totalbytes (negsuc (suc n)) = false

-- what the loop over the bytes that were read prints, and `i` and `totalbytes` at its end
pub record Cells : Type 0 where
  pub text : List ℕ
  pub i : ℕ
  pub totalbytes : ℕ

-- "%02x ", with one more space in the middle
unfoldable pub cell : Bool → ℕ → ℕ → List ℕ
unfolding hex_digit
cell caps i byte =
    hex_digit caps (byte / 16)
    ∷ hex_digit caps (byte % 16)
    ∷ 32
    ∷ (if i == bufsize / 2 - 1 then 32 ∷ [] else [])

unfoldable pub hex_cells : Bool → ℤ → ℕ → ℕ → List ℕ → Cells
hex_cells caps len i totalbytes [] = record { text = []; i = i; totalbytes = totalbytes }
hex_cells caps len i totalbytes (byte ∷ buf) =
    let rest = hex_cells caps len (suc i) (suc totalbytes) buf in
    if more totalbytes len
    then record rest { text = cell caps i byte ++ rest.text }
    else record { text = []; i = i; totalbytes = totalbytes }

-- the loop that fills in the blanks
unfoldable pub blanks : ℕ → ℕ → List ℕ
blanks j zero = []
blanks j (suc rounds) =
    32 ∷ 32 ∷ 32 ∷ ((if j == bufsize / 2 - 1 then 32 ∷ [] else []) ++ blanks (suc j) rounds)

-- a printing character, or a point
unfoldable pub visible : ℕ → ℕ
visible c = if leb 32 c && leb c 127 then c else 46

pub record DumpLine : Type 0 where
  pub offset : List ℕ
  pub columns : List ℕ
  pub chars : List ℕ

unfoldable pub line : Bool → ℕ → ℤ → List ℕ → Cells → DumpLine
line caps cnt skip buf c = record {
  offset = address caps cnt skip;
  columns = c.text ++ blanks 0 (bufsize - c.i);
  chars = map visible (take c.i buf);
}

-- the characters of a line
unfoldable pub text_of : DumpLine → List ℕ
text_of l = l.offset ++ l.columns ++ 32 ∷ 124 ∷ (l.chars ++ 124 ∷ 10 ∷ [])

-- The loop over the file; `eof` is what feof answers. `none`: the fuel is used up.
unfoldable pub dump : ℕ → Bool → ℤ → ℤ → Bool → ℕ → ℕ → List ℕ → Option (List DumpLine)
dump zero caps len skip eof cnt totalbytes file = none
dump (suc fuel) caps len skip eof cnt totalbytes file =
    let buf = take bufsize file in
    let c = hex_cells caps len 0 totalbytes buf in
    let rest =
      dump fuel caps len skip (ltb (length buf) bufsize) (suc cnt) c.totalbytes
        (drop bufsize file) in
    if not eof && more totalbytes len
    then rest >>= (λ lines. some (line caps cnt skip buf c ∷ lines))
    else some []

-- fseek to a negative offset fails and leaves the position at the start
abbrev pub seek : ℤ → List ℕ → List ℕ
seek (pos n) file = drop n file
seek (negsuc n) file = file

unfoldable pub hexdump : ℕ → Bool → ℤ → ℤ → List ℕ → Option (List DumpLine)
hexdump fuel caps len skip file = dump fuel caps len skip false 0 0 (seek skip file)
