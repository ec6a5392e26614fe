-- ===== src/Buddy/Bits.antt =====
-- buddy/mpool.c: addresses as multiples of powers of 2, and what the flags of a block say.
use experimentation.Base.{
  Bool, Bool-cases, arith, false, if◌then◌else◌, inl, inr, leb, max, refl, suc, true, zero, ℕ, ◌%◌,
  ◌+◌, ◌-◌, ◌/◌, ◌<◌, ◌==◌, ◌^◌, ◌≡◌, ◌≤◌,
}
use experimentation.Buddy.Valid.{}
use mathlib.Core.Path.{subst}

-- `a` is a multiple of 2 ^ l
abbrev pub aligned : ℕ → ℕ → Bool
aligned zero a = true
aligned (suc l) a = if a % 2 == 0 then aligned l (a / 2) else false

-- the digit of `a` at position `l`
abbrev pub bit : ℕ → ℕ → Bool
bit zero a = a % 2 == 1
bit (suc l) a = bit l (a / 2)

-- the bit PARENT of the block of exponent `l` at `a`, `n` levels below the whole pool: a left buddy
-- has in it which buddy its parent is, and a right buddy the bit of its parent
abbrev pub parent_bit : ℕ → ℕ → ℕ → Bool
parent_bit zero l a = true
parent_bit (suc n) l a = if bit l a then parent_bit n (suc l) (a - 2 ^ l) else bit (suc l) a

pub aligned-low : (l a : ℕ) → aligned (suc l) a ≡ true → (aligned l a ≡ true) × (bit l a ≡ false)
aligned-low zero a e = (refl, ground arith)
aligned-low (suc l) a e =
    let even : a % 2 == 0 ≡ true = ground arith in
    let (low, off) = aligned-low l (a / 2) (rw even at e) in (rw even low, off)

pub aligned-high :
    (l a : ℕ)
    → aligned (suc l) a ≡ true
    → (aligned l (a + 2 ^ l) ≡ true) × (bit l (a + 2 ^ l) ≡ true)
aligned-high zero a e = (refl, ground arith)
aligned-high (suc l) a e =
    let even : a % 2 == 0 ≡ true = ground arith in
    let even' : (a + 2 ^ suc l) % 2 == 0 ≡ true = ground arith in
    let halved : (a + 2 ^ suc l) / 2 ≡ a / 2 + 2 ^ l = omega arith in
    let (low, on) = aligned-high l (a / 2) (rw even at e) in (rw (even', halved) low, rw halved on)

pub aligned-left : (l a : ℕ) → aligned l a ≡ true → bit l a ≡ false → aligned (suc l) a ≡ true
aligned-left zero a e off = ground arith
aligned-left (suc l) a e off =
    let even : a % 2 == 0 ≡ true = ground arith in
    rw even (aligned-left l (a / 2) (rw even at e) off)

pub aligned-right :
    (l a : ℕ)
    → aligned l a ≡ true
    → bit l a ≡ true
    → (2 ^ l ≤ a) × (aligned (suc l) (a - 2 ^ l) ≡ true)
aligned-right zero a e on = (ground arith, ground arith)
aligned-right (suc l) a e on =
    let even : a % 2 == 0 ≡ true = ground arith in
    let (le, low) = aligned-right l (a / 2) (rw even at e) on in
    let even' : (a - 2 ^ suc l) % 2 == 0 ≡ true = ground arith in
    let halved : (a - 2 ^ suc l) / 2 ≡ a / 2 - 2 ^ l = omega arith in
    (omega arith, rw (even', halved) low)

-- of two multiples of 2 ^ k, one that is less than the next is not above
pub aligned-le : (k a b : ℕ) → aligned k a ≡ true → aligned k b ≡ true → b < a + 2 ^ k → b ≤ a
aligned-le zero a b p q l = omega arith
aligned-le (suc k) a b p q l =
    let even : a % 2 == 0 ≡ true = ground arith in
    let even' : b % 2 == 0 ≡ true = ground arith in
    let two : a % 2 ≡ 0 = ground arith in
    let two' : b % 2 ≡ 0 = ground arith in
    let le = aligned-le k (a / 2) (b / 2) (rw even at p) (rw even' at q) (omega arith) in
    omega arith

aligned-down : (d m k a : ℕ) → k + d ≡ m → aligned m a ≡ true → aligned k a ≡ true
aligned-down zero m k a q e =
    let same : m ≡ k = omega arith in subst (λ x. aligned x a ≡ true) same e
aligned-down (suc d) zero k a q e = absurd (omega arith)
aligned-down (suc d) (suc m) k a q e = aligned-down d m k a (omega arith) (aligned-low m a e).0

pub aligned-fewer : (k m a : ℕ) → k ≤ m → aligned m a ≡ true → aligned k a ≡ true
aligned-fewer k m a l e = aligned-down (m - k) m k a (omega arith) e

aligned-add_power : (m b : ℕ) → aligned m b ≡ true → aligned m (b + 2 ^ m) ≡ true
aligned-add_power zero b e = refl
aligned-add_power (suc m) b e =
    let even : b % 2 == 0 ≡ true = ground arith in
    let even' : (b + 2 ^ suc m) % 2 == 0 ≡ true = ground arith in
    let halved : (b + 2 ^ suc m) / 2 ≡ b / 2 + 2 ^ m = omega arith in
    rw (even', halved) (aligned-add_power m (b / 2) (rw even at e))

pub aligned-add : (k m b : ℕ) → k ≤ m → aligned m b ≡ true → aligned k (b + 2 ^ m) ≡ true
aligned-add k m b l e = aligned-fewer k m (b + 2 ^ m) l (aligned-add_power m b e)

pub aligned-zero : (m : ℕ) → aligned m 0 ≡ true
aligned-zero zero = refl
aligned-zero (suc m) = aligned-zero m

pub bit-zero : (m : ℕ) → bit m 0 ≡ false
bit-zero zero = refl
bit-zero (suc m) = bit-zero m

-- a block that begins in the pool ends in it
pub aligned-room : (k max a : ℕ) → k ≤ max → aligned k a ≡ true → a < 2 ^ max → a + 2 ^ k ≤ 2 ^ max
aligned-room k max a l e inside = elim (Bool-cases (leb (a + 2 ^ k) (2 ^ max))) [
  | inl le ↦ ground arith
  | inr gt ↦ absurd (
      let zero_more : 0 + 2 ^ max ≡ 2 ^ max = omega arith in
      let end : aligned k (2 ^ max) ≡ true =
        subst (λ x. aligned k x ≡ true) zero_more (aligned-add k max 0 l (aligned-zero max)) in
      let below = aligned-le k a (2 ^ max) e end (ground arith) in omega arith)
]
