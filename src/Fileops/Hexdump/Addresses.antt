-- ===== src/Fileops/Hexdump/Addresses.antt =====
-- fileops/hexdump.c: the address of a line, read back as a hexadecimal number.
use mathlib.Core.Path.{subst}
use experimentation.Fileops.Hexdump.{address, hex_digit, hex_digits, digit_count, to_ulong}
use experimentation.Base.{
  length-append, ◌∙◌, ap, ltb, ◌≤◌, ◌<◌, Bool-cases, ◌+◌, ◌-◌, ◌*◌, ◌^◌, ◌%◌, ◌/◌, ◌==◌, ◌≡◌, max,
  length, ℤ, ℕ, zero, append_assoc, suc, true, false, [], ◌∷◌, ◌++◌, refl, inl, inr, Bool, List,
  if◌then◌else◌, arith,
}

-- the value of a digit 0-9, A-F or a-f
pub digit_of : ℕ → ℕ
digit_of c = if ltb c 58 then c - 48 else (if ltb c 71 then c - 55 else c - 87)

-- the number that a text denotes up to its first blank
pub read_hex : ℕ → List ℕ → ℕ
read_hex acc [] = acc
read_hex acc (c ∷ text) =
    let rest = read_hex (acc * 16 + digit_of c) text in if c == 32 then acc else rest

digit_of-hex_digit : (caps : Bool) (d : ℕ) → d < 16 → digit_of (hex_digit caps d) ≡ d
unfolding digit_of hex_digit
digit_of-hex_digit true d h = ground arith
digit_of-hex_digit false d h = ground arith

hex_digit-visible : (caps : Bool) (d : ℕ) → hex_digit caps d == 32 ≡ false
unfolding hex_digit
hex_digit-visible true d = ground arith
hex_digit-visible false d = ground arith

read_hex-digit :
    (caps : Bool) (acc d : ℕ) (rest : List ℕ)
    → d < 16
    → read_hex acc (hex_digit caps d ∷ rest) ≡ read_hex (acc * 16 + d) rest
unfolding read_hex
read_hex-digit caps acc d rest h = rw (hex_digit-visible caps d, digit_of-hex_digit caps d h) refl

pow_suc : (k : ℕ) → 16 ^ suc k ≡ 16 ^ k * 16
pow_suc k = omega arith

read_hex-hex_digits :
    (caps : Bool) (k n : ℕ) (rest : List ℕ)
    → n < 16 ^ k
    → read_hex 0 (hex_digits caps k n ++ rest) ≡ read_hex n rest
unfolding hex_digits
read_hex-hex_digits caps zero n rest h = ap (λ x. read_hex x rest) (omega arith)
read_hex-hex_digits caps (suc k) n rest h =
    let small : n / 16 < 16 ^ k = omega (arith, pow_suc k) in
    rw (append_assoc (hex_digits caps k (n / 16)) (hex_digit caps (n % 16) ∷ []) rest) (
      read_hex-hex_digits caps k (n / 16) (hex_digit caps (n % 16) ∷ rest) small
      ∙ read_hex-digit caps (n / 16) (n % 16) rest (omega arith)
      ∙ ap (λ x. read_hex x rest) (omega arith))

lt-digit_count : (fuel n : ℕ) → n < 16 ^ fuel → n < 16 ^ digit_count fuel n
unfolding digit_count
lt-digit_count zero n h = h
lt-digit_count (suc fuel) n h = elim (Bool-cases (n == 0)) [
  | inl e ↦ rw e (ground arith)
  | inr e ↦
      let step = lt-digit_count fuel (n / 16) (omega (arith, pow_suc fuel)) in
      rw e (omega (arith, step, pow_suc (digit_count fuel (n / 16))))
]

pow_add : (a b : ℕ) → 16 ^ a ≤ 16 ^ (a + b)
pow_add a zero = let same : a + 0 ≡ a = omega arith in rw same (omega arith)
pow_add a (suc b) =
    let same : a + suc b ≡ suc (a + b) = omega arith in
    rw same (omega (arith, pow_add a b, pow_suc (a + b)))

pow_le : (a b : ℕ) → a ≤ b → 16 ^ a ≤ 16 ^ b
pow_le a b le =
    let same : a + (b - a) ≡ b = omega arith in
    subst (λ k. 16 ^ a ≤ 16 ^ k) same (pow_add a (b - a))

length-hex_digits : (caps : Bool) (k n : ℕ) → length (hex_digits caps k n) ≡ k
unfolding hex_digits
length-hex_digits caps zero n = refl
length-hex_digits caps (suc k) n =
    length-append (hex_digits caps k (n / 16)) (hex_digit caps (n % 16) ∷ [])
    ∙ omega (arith, length-hex_digits caps k (n / 16))

-- a number in at least `least` digits, with a blank after it
read_hex-padded :
    (caps : Bool) (least fuel n : ℕ)
    → n < 16 ^ fuel
    → read_hex 0 (hex_digits caps (max least (digit_count fuel n)) n ++ 32 ∷ []) ≡ n
read_hex-padded caps least fuel n h =
    let digits = digit_count fuel n in
    let width = max least digits in
    let wide = pow_le digits width (omega arith) in
    read_hex-hex_digits caps width n (32 ∷ []) (omega (arith, wide, lt-digit_count fuel n h))
    ∙ (unfold read_hex in refl)

length-padded : (caps : Bool) (k n : ℕ) → length (hex_digits caps k n ++ 32 ∷ []) ≡ suc k
length-padded caps k n =
    length-append (hex_digits caps k n) (32 ∷ []) ∙ omega (arith, length-hex_digits caps k n)

module _ (caps : Bool) (cnt : ℕ) (skip : ℤ) where
  pub read_hex-address : read_hex 0 (address caps cnt skip) ≡ (cnt * 20 + to_ulong skip) % 2 ^ 64
  unfolding address
  read_hex-address = read_hex-padded caps 8 16 ((cnt * 20 + to_ulong skip) % 2 ^ 64) (omega arith)

  pub length-address : 9 ≤ length (address caps cnt skip)
  unfolding address
  length-address =
      let n = (cnt * 20 + to_ulong skip) % 2 ^ 64 in
      omega (arith, length-padded caps (max 8 (digit_count 16 n)) n)
