-- ===== src/Cdev/Read.antt =====
-- cdev/mydev.c, `mydevread`: a read is served whole, from the buffer over and over.
use native.Mathlib.Decide.{dec_lt}
use experimentation.Cdev.{mydevread, take, read_loop, mybuffer, Uiomove, Uio}
use experimentation.Base.{
  append_assoc, append-nil, sym, ◌==◌, ◌∙◌, min, ◌⊎◌, drop, ap, ltb, ◌-◌, ◌%◌, ◌/◌, ◌<◌, ◌≡◌,
  length, ◌+◌, ◌≤◌, get_or, ℕ, zero, suc, some, true, false, [], ◌∷◌, ◌++◌, refl, inl, inr, List,
  arith,
}

-- uiomove(9): on success it has moved all the bytes that it was given, where so many are asked for
pub record UiomoveLaws (uiomove : Uiomove) : Type 0 where
  pub resid :
      (bytes : List ℕ) (u : Uio)
      → length bytes ≤ u.uio_resid
      → (uiomove bytes u).0 ≡ 0
      → (uiomove bytes u).1.uio_resid ≡ u.uio_resid - length bytes
  pub moved :
      (bytes : List ℕ) (u : Uio)
      → length bytes ≤ u.uio_resid
      → (uiomove bytes u).0 ≡ 0
      → (uiomove bytes u).1.moved ≡ u.moved ++ bytes

-- `n` bytes of the buffer repeated, from its place `start` on
unfoldable pub cycle : ℕ → ℕ → List ℕ
cycle start zero = []
cycle start (suc n) = get_or mybuffer (start % 15) 0 ∷ cycle (suc start) n

cycle-shift : (start n : ℕ) → cycle (15 + start) n ≡ cycle start n
unfolding cycle
cycle-shift start zero = refl
cycle-shift start (suc n) =
    let same : (15 + start) % 15 ≡ start % 15 = omega arith in
    let next : suc (15 + start) ≡ 15 + suc start = omega arith in
    rw (same, next, cycle-shift (suc start) n) refl

cycle-add : (start m n : ℕ) → cycle start (m + n) ≡ cycle start m ++ cycle (start + m) n
unfolding cycle
cycle-add start zero n = ap (λ k. cycle start k) (omega arith) ∙ ap (λ k. cycle k n) (omega arith)
cycle-add start (suc m) n =
    let e : suc m + n ≡ suc (m + n) = omega arith in
    let f : start + suc m ≡ suc start + m = omega arith in
    rw (e, f) (ap (λ l. get_or mybuffer (start % 15) 0 ∷ l) (cycle-add (suc start) m n))

take-drop :
    (m i : ℕ) (xs : List ℕ)
    → i < length xs
    → take (suc m) (drop i xs) ≡ get_or xs i 0 ∷ take m (drop (suc i) xs)
take-drop m i [] h = absurd (omega arith)
take-drop m zero (x ∷ xs) h = refl
take-drop m (suc i) (x ∷ xs) h = take-drop m i xs (omega arith)

-- one round gives the first bytes of the buffer
cycle-take : (start m : ℕ) → start + m ≤ 15 → cycle start m ≡ take m (drop start mybuffer)
unfolding cycle
cycle-take start zero h = refl
cycle-take start (suc m) h =
    let low : start % 15 ≡ start = omega arith in
    rw low (
      ap (λ l. get_or mybuffer start 0 ∷ l) (cycle-take (suc start) m (omega arith))
      ∙ sym (take-drop m start mybuffer (omega arith)))

length-take : (m : ℕ) (xs : List ℕ) → m ≤ length xs → length (take m xs) ≡ m
length-take zero xs h = refl
length-take (suc m) [] h = absurd (omega arith)
length-take (suc m) (x ∷ xs) h = ap suc (length-take m xs (omega arith))

cycle-zero : (start : ℕ) → cycle start 0 ≡ []
unfolding cycle
cycle-zero start = refl

-- after a round the rest starts at the start of the buffer again
cycle-round : (n t : ℕ) → n ≤ t → (n ≡ 15) ⊎ (n ≡ t) → cycle 0 t ≡ cycle 0 n ++ cycle 0 (t - n)
cycle-round n t le (inl full) =
    ap (cycle 0) (omega arith)
    ∙ cycle-add 0 n (t - n)
    ∙ ap (λ l. cycle 0 n ++ l) (ap (λ k. cycle k (t - n)) (omega arith) ∙ cycle-shift 0 (t - n))
cycle-round n t le (inr last) =
    let none_left : t - n ≡ 0 = omega arith in
    rw (none_left, cycle-zero 0) (ap (cycle 0) (sym last) ∙ sym (append-nil (cycle 0 n)))

-- what a read has done: all is served, or uiomove has failed
pub data Delivered (uiomove : Uiomove) (u : Uio) (r : ℕ × Uio) : Type 0 where
  whole :
      r.0 ≡ 0
      → r.1.uio_resid ≡ 0
      → r.1.moved ≡ u.moved ++ cycle 0 u.uio_resid
      → Delivered uiomove u r
  fault : (bytes : List ℕ) (v : Uio) → uiomove bytes v ≡ r → 0 < r.0 → Delivered uiomove u r

module _ (uiomove : Uiomove) (laws : UiomoveLaws uiomove) where
  -- a round that has moved `n` bytes, and the rest of the read
  round-Delivered :
      (u u' : Uio) (n : ℕ) (r : ℕ × Uio)
      → n ≤ u.uio_resid
      → (n ≡ 15) ⊎ (n ≡ u.uio_resid)
      → u'.uio_resid ≡ u.uio_resid - n
      → u'.moved ≡ u.moved ++ cycle 0 n
      → Delivered uiomove u' r
      → Delivered uiomove u r
  round-Delivered u u' n r le kind left got (fault bytes v e failed) = fault bytes v e failed
  round-Delivered u u' n r le kind left got (whole ok none_left all) = whole ok none_left (
      all
      ∙ ap (λ l. l ++ cycle 0 u'.uio_resid) got
      ∙ ap (λ k. (u.moved ++ cycle 0 n) ++ cycle 0 k) left
      ∙ append_assoc u.moved (cycle 0 n) (cycle 0 (u.uio_resid - n))
      ∙ ap (λ l. u.moved ++ l) (sym (cycle-round n u.uio_resid le kind)))

  read_loop-Delivered :
      (fuel : ℕ) (u : Uio)
      → (u.uio_resid + 14) / 15 + 1 ≤ fuel
      → (r : ℕ × Uio) × (read_loop uiomove fuel u ≡ some r) × Delivered uiomove u r
  unfolding read_loop
  read_loop-Delivered zero u h = absurd (omega arith)
  read_loop-Delivered (suc fuel) u h = elim (dec_lt 0 u.uio_resid) [
    | no done ↦
        let nothing : u.uio_resid ≡ 0 = omega arith in
        let e : ltb 0 u.uio_resid ≡ false = ground arith in
        (
          (0, u),
          rw e refl,
          whole refl nothing (
              sym (append-nil u.moved)
              ∙ ap (λ l. u.moved ++ l) (sym (cycle-zero 0))
              ∙ ap (λ k. u.moved ++ cycle 0 k) (sym nothing)),
        )
    | yes left ↦
        let e : ltb 0 u.uio_resid ≡ true = ground arith in
        let n = min u.uio_resid 15 in
        let bytes = take n mybuffer in
        let size : length bytes ≡ n = length-take n mybuffer (omega arith) in
        let u' = (uiomove bytes u).1 in
        elim (dec_lt 0 (uiomove bytes u).0) [
          | yes failed ↦
              let f : (uiomove bytes u).0 == 0 ≡ false = ground arith in
              (uiomove bytes u, rw (e, f) refl, fault bytes u refl failed)
          | no fine ↦
              let zero_ret : (uiomove bytes u).0 ≡ 0 = omega arith in
              let f : (uiomove bytes u).0 == 0 ≡ true = ground arith in
              let resid = laws.resid bytes u (omega arith) zero_ret in
              let moved = laws.moved bytes u (omega arith) zero_ret in
              let enough : (u'.uio_resid + 14) / 15 + 1 ≤ fuel = omega arith in
              let kind : (n ≡ 15) ⊎ (n ≡ u.uio_resid) = elim (dec_lt u.uio_resid 15) [
                | yes few ↦ inr (omega arith)
                | no many ↦ inl (omega arith)
              ] in
              let (r, run, served) = read_loop-Delivered fuel u' enough in
              (
                r,
                rw (e, f) run,
                round-Delivered u u' n r (omega arith) kind (omega arith)
                    (moved ∙ ap (λ l. u.moved ++ l) (sym (cycle-take 0 n (omega arith)))) served,
              )
        ]
  ]

  -- With a uiomove that on success moves the bytes that it is given, and one round of fuel for each
  -- 15 bytes asked for and one more, mydevread ends. Either all that was asked for has been
  -- delivered, the bytes of the buffer over and over, or it answers the error of a call of uiomove.
  pub mydevread-Delivered :
      (fuel : ℕ) (u : Uio)
      → (u.uio_resid + 14) / 15 + 1 ≤ fuel
      → (r : ℕ × Uio) × (mydevread uiomove fuel u ≡ some r) × Delivered uiomove u r
  unfolding mydevread
  mydevread-Delivered fuel u h = read_loop-Delivered fuel u h
