-- ===== src/Homework/Bitmap.antt =====
-- homework/bitmap.c: a bitmap of blocks. `none` is a read outside the array.
use experimentation.Base.{
  zero-bit_and, Bool, List, Option, [], ap, arith, bit_and, false, get_elem?, if◌then◌else◌, refl,
  replicate, some, suc, true, zero, ℕ, ◌*◌, ◌+◌, ◌-◌, ◌/◌, ◌<◌, ◌==◌, ◌>>=◌, ◌^◌, ◌∷◌, ◌≡◌, ◌≤◌,
}

-- the number of bytes for `nblks` blocks
unfoldable pub narr : ℕ → ℕ
narr nblks = if nblks - 8 * (nblks / 8) == 0 then nblks / 8 else nblks / 8 + 1

unfoldable pub is_blk_free : List ℕ → ℕ → Option Bool
is_blk_free array nblk =
    get_elem? array (nblk / 8) >>= λ c. some (bit_and c (2 ^ (nblk - 8 * (nblk / 8))) == 0)

-- what `print_blks` prints from block `i` on, `rounds` times: whether the block is FREE
unfoldable pub print_from : List ℕ → ℕ → ℕ → Option (List Bool)
print_from array i zero = some []
print_from array i (suc rounds) =
    is_blk_free array i >>= λ free. print_from array (suc i) rounds >>= λ rest. some (free ∷ rest)

unfoldable pub print_blks : List ℕ → ℕ → Option (List Bool)
print_blks array nblks = print_from array 0 nblks

-- the loop that flags all blocks as used
unfoldable pub flag_all : List ℕ → List ℕ
flag_all [] = []
flag_all (c ∷ array) = 255 ∷ flag_all array

-- `main` with memory: what is printed before and after the blocks are flagged
unfoldable pub bitmap : ℕ → Option (List Bool × List Bool)
bitmap nblks =
    let array = replicate (narr nblks) 0 in
    print_blks array nblks >>= λ before.
    print_blks (flag_all array) nblks >>= λ after. some (before, after)

flag_all-replicate : (n c : ℕ) → flag_all (replicate n c) ≡ replicate n 255
unfolding flag_all
flag_all-replicate zero c = refl
flag_all-replicate (suc n) c = ap (λ l. 255 ∷ l) (flag_all-replicate n c)

get_elem?-replicate : (n i c : ℕ) → i < n → get_elem? (replicate n c) i ≡ some c
get_elem?-replicate zero i c l = absurd (omega arith)
get_elem?-replicate (suc n) zero c l = refl
get_elem?-replicate (suc n) (suc i) c l = get_elem?-replicate n i c (omega arith)

-- every digit of 0xFF is set
full_digit : (u : ℕ) → u < 8 → bit_and 255 (2 ^ u) == 0 ≡ false
full_digit zero l = refl
full_digit (suc zero) l = refl
full_digit (suc (suc zero)) l = refl
full_digit (suc (suc (suc zero))) l = refl
full_digit (suc (suc (suc (suc zero)))) l = refl
full_digit (suc (suc (suc (suc (suc zero))))) l = refl
full_digit (suc (suc (suc (suc (suc (suc zero)))))) l = refl
full_digit (suc (suc (suc (suc (suc (suc (suc zero))))))) l = refl
full_digit (suc (suc (suc (suc (suc (suc (suc (suc u)))))))) l = absurd (omega arith)

-- a byte whose digits are all alike gives the same answer for all blocks
print_from-replicate :
    (c : ℕ) (v : Bool) (nblks i rounds : ℕ)
    → ((u : ℕ) → u < 8 → bit_and c (2 ^ u) == 0 ≡ v)
    → i + rounds ≤ nblks
    → print_from (replicate (narr nblks) c) i rounds ≡ some (replicate rounds v)
unfolding print_from is_blk_free
print_from-replicate c v nblks i zero same l = refl
print_from-replicate c v nblks i (suc rounds) same l =
    let inside : i / 8 < narr nblks = unfold narr in ground arith in
    let digit = same (i - 8 * (i / 8)) (omega arith) in
    rw
      (
        get_elem?-replicate (narr nblks) (i / 8) c inside,
        ◌>>=◌,
        digit,
        print_from-replicate c v nblks (suc i) rounds same (omega arith),
      )
      refl

-- The program stays in its array for every number of blocks: first all are FREE, then, with all
-- bits set, none is.
pub bitmap-replicate :
    (nblks : ℕ) → bitmap nblks ≡ some (replicate nblks true, replicate nblks false)
unfolding bitmap print_blks
bitmap-replicate nblks =
    let clear : (u : ℕ) → u < 8 → bit_and 0 (2 ^ u) == 0 ≡ true =
      λ u l. rw (zero-bit_and (2 ^ u)) refl in
    rw
      (
        print_from-replicate 0 true nblks 0 nblks clear (omega arith),
        ◌>>=◌,
        flag_all-replicate,
        print_from-replicate 255 false nblks 0 nblks full_digit (omega arith),
      )
      refl
