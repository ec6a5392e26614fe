-- ===== src/Barber/Count.antt =====
-- pthreads/sleepbarber.c: sums over the customers.
use experimentation.Barber.{update, CustomerPc}
use experimentation.Base.{◌≢◌, ◌≡◌, ◌≤◌, ◌<◌, ◌+◌, ℕ, zero, suc, refl, arith}

unfoldable pub total : (CustomerPc → ℕ) → ℕ → (ℕ → CustomerPc) → ℕ
total f zero c = 0
total f (suc n) c = f (c n) + total f n c

module _ (f : CustomerPc → ℕ) where
  pub total-update_out :
      (n : ℕ) (c : ℕ → CustomerPc) (i : ℕ) (p : CustomerPc)
      → n ≤ i
      → total f n (update c i p) ≡ total f n c
  unfolding total
  total-update_out zero c i p h = refl
  total-update_out (suc n) c i p h = ground (arith, total-update_out n c i p)

  pub total-update :
      (n : ℕ) (c : ℕ → CustomerPc) (i : ℕ) (p q : CustomerPc)
      → i < n
      → c i ≡ q
      → total f n (update c i p) + f q ≡ total f n c + f p
  unfolding total
  total-update zero c i p q h e = absurd (omega arith)
  total-update (suc n) c i p q h e =
      ground (arith, total-update n c i p q, total-update_out n c i p)

  pub total-le : (n : ℕ) (c : ℕ → CustomerPc) (i : ℕ) → i < n → f (c i) ≤ total f n c
  unfolding total
  total-le zero c i h = absurd (omega arith)
  total-le (suc n) c i h = ground (arith, total-le n c i)

  pub total-pair :
      (n : ℕ) (c : ℕ → CustomerPc) (i j : ℕ)
      → i < n
      → j < n
      → i ≢ j
      → f (c i) + f (c j) ≤ total f n c
  unfolding total
  total-pair zero c i j hi hj ne = absurd (omega arith)
  total-pair (suc n) c i j hi hj ne =
      ground (arith, total-pair n c i j, total-le n c i, total-le n c j)

  pub total-zero : (n : ℕ) (c : ℕ → CustomerPc) → ((i : ℕ) → i < n → f (c i) ≡ 0) → total f n c ≡ 0
  unfolding total
  total-zero zero c h = refl
  total-zero (suc n) c h =
      omega (arith, h n (omega arith), total-zero n c (λ i l. h i (omega arith)))
