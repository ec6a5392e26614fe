-- ===== src/Buddy/Find.antt =====
-- buddy/mpool.c: blocks that sums and other removals find.
use experimentation.Base.{
  Bool-cases, List, Option, Option-cases, [], arith, false, inl, inr, ltb, none, refl, some, sym, ℕ,
  ◌<◌, ◌==◌, ◌∙◌, ◌∷◌, ◌≡◌, ◌≢◌, ◌≤◌, ◌⊎◌,
}
use experimentation.Buddy.Blocks.{remove_node, remove_row}
use experimentation.Buddy.Sums.{
  begins, remove_row-none, remove_row-skip, row_sum, row_sum-remove_row, total, total-remove_node,
}
use experimentation.Buddy.Types.{Blknode}
use experimentation.Buddy.Unlink.{
  remove_node-cases, remove_node-here, remove_node-next, remove_row-cases,
}

module _ (w : Blknode → ℕ) where
  row-found :
      (c : List Blknode)
      → ((a : ℕ) → row_sum (begins a) c ≤ 1)
      → 0 < row_sum w c
      → (n : Blknode) × (s : List Blknode) × (remove_row n.addr c ≡ some (n, s)) × (0 < w n)
  unfolding row_sum remove_row
  row-found [] once l = absurd (omega arith)
  row-found (n ∷ c) once l = elim (Bool-cases (ltb 0 (w n))) [
    | inl on ↦ (n, c, ground arith, ground arith)
    | inr off ↦
        let (p, s, run, hit) = row-found c (λ a. omega (arith, once a)) (ground arith) in
        let there = row_sum-remove_row (begins p.addr) p.addr c run in
        let other : n.addr ≢ p.addr = λ q. absurd (ground (arith, once p.addr)) in
        (p, n ∷ s, remove_row-skip p.addr n c other run, hit)
  ]

  -- a sum that is not 0 has a block that is in the lists
  pub total-found :
      (bs : List (List Blknode))
      → ((a : ℕ) → total (begins a) bs ≤ 1)
      → 0 < total w bs
      → (n : Blknode) × (s : List (List Blknode)) × (remove_node n.addr bs ≡ some (n, s))
        × (0 < w n)
  unfolding total
  total-found [] once l = absurd (omega arith)
  total-found (c ∷ bs) once l = elim (Bool-cases (ltb 0 (row_sum w c))) [
    | inl on ↦
        let (n, s, run, hit) = row-found c (λ a. omega (arith, once a)) (ground arith) in
        (n, s ∷ bs, remove_node-here n.addr c bs run, hit)
    | inr off ↦
        let (n, s, run, hit) = total-found bs (λ a. omega (arith, once a)) (ground arith) in
        let there = total-remove_node (begins n.addr) n.addr bs run in
        let gone : row_sum (begins n.addr) c ≡ 0 = ground (arith, once n.addr) in
        (n, c ∷ s, remove_node-next n.addr c bs (remove_row-none n.addr c gone) run, hit)
  ]

module _ (a b : ℕ) (differ : a ≢ b) where
  remove_row-other :
      (c : List Blknode) {r : Blknode × List Blknode}
      → remove_row a c ≡ some r
      → (o : Option (Blknode × List Blknode)) → remove_row b c ≡ o
      → ((o ≡ none) × (remove_row b r.1 ≡ none))
        ⊎ ((n : Blknode) × (t u : List Blknode) × (o ≡ some (n, t))
            × (remove_row b r.1 ≡ some (n, u)))
  unfolding remove_row
  remove_row-other [] e o f = absurd (cc e)
  remove_row-other (n ∷ c) e o f = elim (remove_row-cases a n c e) [
    | inl (met, q) ↦
        let away : n.addr == b ≡ false = ground arith in
        elim (Option-cases (remove_row b c)) [
          | inl g ↦ rw q (inl (sym f ∙ rw (away, g) refl, g))
          | inr (s, g) ↦ rw q (inr (s.0, n ∷ s.1, s.1, sym f ∙ rw (away, g) refl, g))
        ]
    | inr (miss, s, e', q) ↦ elim (Bool-cases (n.addr == b)) [
      | inl hit ↦ rw q (inr (n, c, s.1, sym f ∙ rw hit refl, rw hit refl))
      | inr away ↦ elim (remove_row-other c e' _ refl) [
        | inl (g, h) ↦ rw q (inl (sym f ∙ rw (away, g) refl, rw (away, h) refl))
        | inr (p, t, u, g, h) ↦
            rw q (inr (p, n ∷ t, n ∷ u, sym f ∙ rw (away, g) refl, rw (away, h) refl))
      ]
    ]
  ]

  -- a removal leaves the block at another address where it can be found
  pub remove_node-other :
      (bs : List (List Blknode)) {r s : Blknode × List (List Blknode)}
      → remove_node a bs ≡ some r
      → remove_node b bs ≡ some s
      → (u : List (List Blknode)) × (remove_node b r.1 ≡ some (s.0, u))
  unfolding remove_node
  remove_node-other [] e f = absurd (cc e)
  remove_node-other (c ∷ bs) {r} {s} e f = elim (remove_node-cases a c bs e) [
    | inl (r', e', q) ↦ elim (remove_row-other c e' _ refl) [
      | inl (g, h) ↦ elim (remove_node-cases b c bs f) [
        | inl (s', f', q') ↦ absurd (cc (g, f'))
        | inr (gone, s', f', q') ↦ rw (q, q') (r'.1 ∷ s'.1, remove_node-next b r'.1 bs h f')
      ]
      | inr (n, t, u, g, h) ↦ elim (remove_node-cases b c bs f) [
        | inl (s', f', q') ↦
            let same : s'.0 ≡ n = cc (g, f') in
            rw (q, q') (u ∷ bs, rw same (remove_node-here b r'.1 bs h))
        | inr (gone, s', f', q') ↦ absurd (cc (g, gone))
      ]
    ]
    | inr (gone, r', e', q) ↦ elim (remove_node-cases b c bs f) [
      | inl (s', f', q') ↦ rw (q, q') (s'.1 ∷ r'.1, remove_node-here b c r'.1 f')
      | inr (gone', s', f', q') ↦
          let (u, run) = remove_node-other bs e' f' in
          rw (q, q') (c ∷ u, remove_node-next b c r'.1 gone' run)
    ]
  ]
