-- ===== src/Fileops/Hexdump/Limit.antt =====
-- fileops/hexdump.c: the bytes that the loops may show, and how often they run.
use experimentation.Fileops.Hexdump.{more, take, hex_cells}
use native.Mathlib.Decide.{dec_lt}
use experimentation.Base.{
  ◌∙◌, sym, ◌-◌, ◌+◌, ◌/◌, ap, Bool-cases, ◌≡◌, drop, ◌<◌, ℤ, ltb, ◌≤◌, length, ℕ, zero, suc, true,
  false, [], ◌∷◌, ◌++◌, refl, inl, inr, Bool, List, arith, pos, negsuc,
}

-- the bytes that may still be shown
unfoldable pub limit : ℤ → ℕ → List ℕ → List ℕ
limit (pos n) totalbytes xs = take (n - totalbytes) xs
limit (negsuc zero) totalbytes xs = xs
limit (negsuc (suc n)) totalbytes xs = []

take-nil : (n : ℕ) (xs : List ℕ) → length xs ≡ 0 → take n xs ≡ []
take-nil zero xs h = refl
take-nil (suc n) [] h = refl
take-nil (suc n) (x ∷ xs) h = absurd (omega arith)

pub limit-nil : (len : ℤ) (totalbytes : ℕ) → limit len totalbytes [] ≡ []
unfolding limit
limit-nil (pos n) totalbytes = take-nil (n - totalbytes) [] refl
limit-nil (negsuc zero) totalbytes = refl
limit-nil (negsuc (suc n)) totalbytes = refl

pub limit-stop :
    (len : ℤ) (totalbytes : ℕ) (xs : List ℕ)
    → more totalbytes len ≡ false
    → limit len totalbytes xs ≡ []
unfolding limit
limit-stop (pos n) totalbytes xs h =
    let none_left : n - totalbytes ≡ 0 = ground arith in rw none_left refl
limit-stop (negsuc zero) totalbytes xs h = absurd (cc h)
limit-stop (negsuc (suc n)) totalbytes xs h = refl

limit-cons :
    (len : ℤ) (totalbytes : ℕ) (x : ℕ) (xs : List ℕ)
    → more totalbytes len ≡ true
    → limit len totalbytes (x ∷ xs) ≡ x ∷ limit len (suc totalbytes) xs
unfolding limit
limit-cons (pos n) totalbytes x xs h =
    let left : n - totalbytes ≡ suc (n - suc totalbytes) = ground arith in rw left refl
limit-cons (negsuc zero) totalbytes x xs h = refl
limit-cons (negsuc (suc n)) totalbytes x xs h = absurd (cc h)

-- the bytes that are left are shown, as far as the buffer goes
pub hex_cells-limit :
    (caps : Bool) (len : ℤ) (i totalbytes : ℕ) (buf : List ℕ)
    → let c = hex_cells caps len i totalbytes buf in
      let n = length (limit len totalbytes buf) in (c.i ≡ i + n) × (c.totalbytes ≡ totalbytes + n)
unfolding hex_cells
hex_cells-limit caps len i totalbytes [] = rw (limit-nil len totalbytes) (omega arith, omega arith)
hex_cells-limit caps len i totalbytes (byte ∷ buf) =
    let (count, total) = hex_cells-limit caps len (suc i) (suc totalbytes) buf in
    elim (Bool-cases (more totalbytes len)) [
      | inl e ↦ rw (e, limit-cons len totalbytes byte buf e) (omega arith, omega arith)
      | inr e ↦ rw (e, limit-stop len totalbytes (byte ∷ buf) e) (omega arith, omega arith)
    ]

pub take-limit :
    (len : ℤ) (totalbytes : ℕ) (xs : List ℕ)
    → take (length (limit len totalbytes xs)) xs ≡ limit len totalbytes xs
take-limit len totalbytes [] = rw (limit-nil len totalbytes) refl
take-limit len totalbytes (x ∷ xs) = elim (Bool-cases (more totalbytes len)) [
  | inl e ↦
      rw (limit-cons len totalbytes x xs e) (ap (λ l. x ∷ l) (take-limit len (suc totalbytes) xs))
  | inr e ↦ rw (limit-stop len totalbytes (x ∷ xs) e) refl
]

pub limit-split :
    (len : ℤ) (totalbytes k : ℕ) (xs : List ℕ)
    → let front = limit len totalbytes (take k xs) in
      limit len totalbytes xs ≡ front ++ limit len (totalbytes + length front) (drop k xs)
limit-split len totalbytes zero xs =
    rw (limit-nil len totalbytes) (ap (λ t. limit len t xs) (omega arith))
limit-split len totalbytes (suc k) [] = rw (limit-nil len totalbytes) (sym (limit-nil len _))
limit-split len totalbytes (suc k) (x ∷ xs) = elim (Bool-cases (more totalbytes len)) [
  | inl e ↦
      rw (limit-cons len totalbytes x xs e, limit-cons len totalbytes x (take k xs) e)
        (ap (λ l. x ∷ l)
          (limit-split len (suc totalbytes) k xs
            ∙ ap (λ t. limit len (suc totalbytes) (take k xs) ++ limit len t (drop k xs))
                (omega arith)))
  | inr e ↦
      rw (limit-stop len totalbytes (x ∷ xs) e, limit-stop len totalbytes (x ∷ take k xs) e)
        (sym (
          ap (λ t. limit len t (drop k xs)) (omega arith)
          ∙ limit-stop len totalbytes (drop k xs) e))
]

length-take : (k : ℕ) (xs : List ℕ) → length xs < k → length (take k xs) ≡ length xs
length-take zero xs h = absurd (omega arith)
length-take (suc k) [] h = refl
length-take (suc k) (x ∷ xs) h = ap suc (length-take k xs (omega arith))

length-take_full : (k : ℕ) (xs : List ℕ) → k ≤ length xs → length (take k xs) ≡ k
length-take_full zero xs h = refl
length-take_full (suc k) [] h = absurd (omega arith)
length-take_full (suc k) (x ∷ xs) h = ap suc (length-take_full k xs (omega arith))

length-drop : (k : ℕ) (xs : List ℕ) → length (drop k xs) ≡ length xs - k
length-drop zero xs = omega arith
length-drop (suc k) [] = omega arith
length-drop (suc k) (x ∷ xs) = omega (arith, length-drop k xs)

-- the fuel is enough
abbrev pub Enough : ℕ → Bool → List ℕ → Type 0
Enough fuel true file = (1 ≤ fuel) × (length file ≡ 0)
Enough fuel false file = length file / 20 + 2 ≤ fuel

pub next-Enough :
    (fuel : ℕ) (file : List ℕ)
    → Enough (suc fuel) false file
    → Enough fuel (ltb (length (take 20 file)) 20) (drop 20 file)
next-Enough fuel file h = elim (dec_lt (length file) 20) [
  | yes short ↦
      let e : ltb (length (take 20 file)) 20 ≡ true = ground (arith, length-take 20 file short) in
      rw e (omega arith, omega (arith, length-drop 20 file))
  | no long ↦
      let e : ltb (length (take 20 file)) 20 ≡ false =
        ground (arith, length-take_full 20 file (omega arith)) in
      rw e (omega (arith, length-drop 20 file))
]
