-- ===== src/Buddy/Sums.antt =====
-- buddy/mpool.c: sums over all blocks, for any weight of a block, and what the list operations do to
-- them.
use experimentation.Base.{
  Bool, List, Option-cases, [], ap, arith, false, get_elem?-get_or, get_or, inl, inr, length, none,
  refl, set, some, suc, true, zero, ℕ, ◌+◌, ◌<◌, ◌==◌, ◌∷◌, ◌≡◌, ◌≢◌,
}
use experimentation.Buddy.Blocks.{insert_head, mark, mark_row, remove_node, remove_row}
use experimentation.Buddy.Types.{Blknode}
use experimentation.Buddy.Unlink.{
  remove_node-cases, remove_node-here, remove_node-next, remove_row-cases,
}
use experimentation.Htable.Chains.{to_nat}
use mathlib.Core.Path.{subst}

-- how many blocks of a list begin at an address, for one block
abbrev pub begins : ℕ → Blknode → ℕ
begins a n = to_nat (n.addr == a)

module _ (w : Blknode → ℕ) where
  unfoldable pub row_sum : List Blknode → ℕ
  row_sum [] = 0
  row_sum (n ∷ c) = w n + row_sum c

  unfoldable pub total : List (List Blknode) → ℕ
  total [] = 0
  total (c ∷ bs) = row_sum c + total bs

  pub row_sum-remove_row :
      (a : ℕ) (c : List Blknode) {r : Blknode × List Blknode}
      → remove_row a c ≡ some r
      → w r.0 + row_sum r.1 ≡ row_sum c
  unfolding row_sum remove_row
  row_sum-remove_row a [] e = absurd (cc e)
  row_sum-remove_row a (n ∷ c) e = elim (Option-cases (remove_row a c)) [
    | inl e' ↦ ground arith
    | inr (r, e') ↦ ground (arith, row_sum-remove_row a c e')
  ]

  pub total-remove_node :
      (a : ℕ) (bs : List (List Blknode)) {r : Blknode × List (List Blknode)}
      → remove_node a bs ≡ some r
      → w r.0 + total r.1 ≡ total bs
  unfolding total remove_node
  total-remove_node a [] e = absurd (cc e)
  total-remove_node a (c ∷ bs) e = elim (Option-cases (remove_row a c)) [
    | inr (r, e') ↦ ground (arith, row_sum-remove_row a c e')
    | inl e' ↦ elim (Option-cases (remove_node a bs)) [
      | inl e'' ↦ absurd (cc (e, e', e''))
      | inr (r, e'') ↦ ground (arith, total-remove_node a bs e'')
    ]
  ]

  pub total-set :
      (i : ℕ) (n : Blknode) (bs : List (List Blknode))
      → i < length bs
      → total (set bs i (n ∷ get_or bs i [])) ≡ w n + total bs
  unfolding total row_sum
  total-set i n [] l = absurd (omega arith)
  total-set zero n (c ∷ bs) l = omega arith
  total-set (suc i) n (c ∷ bs) l = omega (arith, total-set i n bs (omega arith))

pub insert_head-set :
    (i : ℕ) (n : Blknode) (bs : List (List Blknode))
    → i < length bs
    → insert_head i n bs ≡ some (set bs i (n ∷ get_or bs i []))
unfolding insert_head
insert_head-set i n bs l = rw (get_elem?-get_or bs i [] l)

module _ (a : ℕ) where
  pub remove_row-none : (c : List Blknode) → row_sum (begins a) c ≡ 0 → remove_row a c ≡ none
  unfolding row_sum remove_row
  remove_row-none [] e = refl
  remove_row-none (n ∷ c) e = ground (arith, remove_row-none c)

  pub remove_row-skip :
      (n : Blknode) (c : List Blknode) {r : Blknode × List Blknode}
      → n.addr ≢ a
      → remove_row a c ≡ some r
      → remove_row a (n ∷ c) ≡ some (r.0, n ∷ r.1)
  unfolding remove_row
  remove_row-skip n c d e = let other : n.addr == a ≡ false = ground arith in rw (other, e)

  remove_row-skip_none :
      (n : Blknode) (c : List Blknode)
      → n.addr ≢ a
      → remove_row a c ≡ none
      → remove_row a (n ∷ c) ≡ none
  unfolding remove_row
  remove_row-skip_none n c d e = let other : n.addr == a ≡ false = ground arith in rw (other, e)

  -- what stands alone under its address is what a removal at that address finds
  pub remove_node-set_new :
      (i : ℕ) (n : Blknode) (bs : List (List Blknode))
      → i < length bs
      → n.addr ≡ a
      → total (begins a) bs ≡ 0
      → (s : List (List Blknode)) × (remove_node a (set bs i (n ∷ get_or bs i [])) ≡ some (n, s))
  unfolding total remove_node remove_row
  remove_node-set_new i n [] l e z = absurd (omega arith)
  remove_node-set_new zero n (c ∷ bs) l e z = (c ∷ bs, ground arith)
  remove_node-set_new (suc i) n (c ∷ bs) l e z =
      let (s, run) = remove_node-set_new i n bs (omega arith) e (omega arith) in
      (
        c ∷ s,
        remove_node-next a c (set bs i (n ∷ get_or bs i [])) (remove_row-none c (omega arith)) run,
      )

  pub remove_node-set_other :
      (i : ℕ) (n p : Blknode) (bs s : List (List Blknode))
      → i < length bs
      → n.addr ≢ a
      → remove_node a bs ≡ some (p, s)
      → (s' : List (List Blknode)) × (remove_node a (set bs i (n ∷ get_or bs i [])) ≡ some (p, s'))
  unfolding remove_node remove_row
  remove_node-set_other i n p [] s l d e = absurd (omega arith)
  remove_node-set_other zero n p (c ∷ bs) s l d e = elim (remove_node-cases a c bs e) [
    | inl (r, e', q) ↦
        let first : p ≡ r.0 = ap (λ x. x.0) q in
        ((n ∷ r.1) ∷ bs, rw first (remove_node-here a (n ∷ c) bs (remove_row-skip n c d e')))
    | inr (gone, r, e', q) ↦
        let first : p ≡ r.0 = ap (λ x. x.0) q in
        (
          (n ∷ c) ∷ r.1,
          rw first (remove_node-next a (n ∷ c) bs (remove_row-skip_none n c d gone) e'),
        )
  ]
  remove_node-set_other (suc i) n p (c ∷ bs) s l d e = elim (remove_node-cases a c bs e) [
    | inl (r, e', q) ↦
        let first : p ≡ r.0 = ap (λ x. x.0) q in
        (
          r.1 ∷ set bs i (n ∷ get_or bs i []),
          rw first (remove_node-here a c (set bs i (n ∷ get_or bs i [])) e'),
        )
    | inr (gone, r, e', q) ↦
        let first : p ≡ r.0 = ap (λ x. x.0) q in
        let (s', run) = remove_node-set_other i n (r.0) bs (r.1) (omega arith) d e' in
        (c ∷ s', rw first (remove_node-next a c (set bs i (n ∷ get_or bs i [])) gone run))
  ]

module _ (w : Blknode → ℕ) (a : ℕ) (v : Bool) where
  row_sum-mark_away : (c : List Blknode) → row_sum (begins a) c ≡ 0 → mark_row a v c ≡ c
  unfolding row_sum mark_row
  row_sum-mark_away [] e = refl
  row_sum-mark_away (n ∷ c) e = ground (arith, row_sum-mark_away c)

  mark-away : (bs : List (List Blknode)) → total (begins a) bs ≡ 0 → mark a v bs ≡ bs
  unfolding total mark
  mark-away [] e = refl
  mark-away (c ∷ bs) e = rw (row_sum-mark_away c (omega arith), mark-away bs (omega arith))

  row_sum-mark_row :
      (c : List Blknode) {r : Blknode × List Blknode}
      → remove_row a c ≡ some r
      → row_sum (begins a) r.1 ≡ 0
      → row_sum w (mark_row a v c) ≡ w (record (r.0) { avail = v }) + row_sum w r.1
  unfolding row_sum mark_row remove_row
  row_sum-mark_row [] e z = absurd (cc e)
  row_sum-mark_row (n ∷ c) e z = elim (remove_row-cases a n c e) [
    | inl (hit, q) ↦
        let away = row_sum-mark_away c (subst (λ x. row_sum (begins a) x.1 ≡ 0) q z) in
        let same : n.addr == a ≡ true = ground arith in rw (q, same, away)
    | inr (miss, s, e', q) ↦
        let z' = subst (λ x. row_sum (begins a) x.1 ≡ 0) q z in
        let rest = row_sum-mark_row c e' (omega arith) in
        let differ : n.addr == a ≡ false = ground arith in rw (q, differ) (omega (arith, rest))
  ]

  -- marking changes the one block at the address
  pub total-mark :
      (bs : List (List Blknode)) {r : Blknode × List (List Blknode)}
      → remove_node a bs ≡ some r
      → total (begins a) r.1 ≡ 0
      → total w (mark a v bs) ≡ w (record (r.0) { avail = v }) + total w r.1
  unfolding total mark remove_node
  total-mark [] e z = absurd (cc e)
  total-mark (c ∷ bs) e z = elim (remove_node-cases a c bs e) [
    | inl (s, e', q) ↦
        let z' = subst (λ x. total (begins a) x.1 ≡ 0) q z in
        rw (q, mark-away bs (omega arith)) (omega (arith, row_sum-mark_row c e' (omega arith)))
    | inr (gone, s, e', q) ↦
        let z' = subst (λ x. total (begins a) x.1 ≡ 0) q z in
        rw (q, row_sum-mark_away c (omega arith)) (omega (arith, total-mark bs e' (omega arith)))
  ]
