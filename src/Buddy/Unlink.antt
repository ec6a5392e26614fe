-- ===== src/Buddy/Unlink.antt =====
-- buddy/mpool.c, LIST_REMOVE: where a removal finds its block.
use experimentation.Base.{
  Bool, Bool-cases, List, Option-cases, [], ap, arith, false, inl, inr, none, refl, some, true, ℕ,
  ◌==◌, ◌∙◌, ◌∷◌, ◌≡◌, ◌≢◌, ◌⊎◌,
}
use experimentation.Buddy.Blocks.{mark, mark_row, remove_node, remove_row}
use experimentation.Buddy.Types.{Blknode}

pub remove_row-cases :
    (a : ℕ) (n : Blknode) (c : List Blknode) {r : Blknode × List Blknode}
    → remove_row a (n ∷ c) ≡ some r
    → ((n.addr ≡ a) × (r ≡ (n, c)))
      ⊎ ((n.addr ≢ a)
          × (s : Blknode × List Blknode) × (remove_row a c ≡ some s)
          × (r ≡ (s.0, n ∷ s.1)))
unfolding remove_row
remove_row-cases a n c e = elim (Bool-cases (n.addr == a)) [
  | inl hit ↦ inl (ground arith, ground arith)
  | inr miss ↦ elim (Option-cases (remove_row a c)) [
    | inl e' ↦ absurd (cc (e, miss, e'))
    | inr (s, e') ↦ inr (ground arith, s, e', ground arith)
  ]
]

module _ (a : ℕ) (c : List Blknode) (bs : List (List Blknode)) where
  pub remove_node-here :
      {r : Blknode × List Blknode}
      → remove_row a c ≡ some r
      → remove_node a (c ∷ bs) ≡ some (r.0, r.1 ∷ bs)
  unfolding remove_node
  remove_node-here e = rw (remove_node, e)

  pub remove_node-next :
      {r : Blknode × List (List Blknode)}
      → remove_row a c ≡ none
      → remove_node a bs ≡ some r
      → remove_node a (c ∷ bs) ≡ some (r.0, c ∷ r.1)
  unfolding remove_node
  remove_node-next e e' = rw (remove_node, e, e')

  pub remove_node-cases :
      {r : Blknode × List (List Blknode)}
      → remove_node a (c ∷ bs) ≡ some r
      → ((s : Blknode × List Blknode) × (remove_row a c ≡ some s) × (r ≡ (s.0, s.1 ∷ bs)))
        ⊎ ((remove_row a c ≡ none)
            × (s : Blknode × List (List Blknode)) × (remove_node a bs ≡ some s)
            × (r ≡ (s.0, c ∷ s.1)))
  unfolding remove_node
  remove_node-cases e = elim (Option-cases (remove_row a c)) [
    | inr (s, e') ↦ inl (s, e', cc (e, e'))
    | inl e' ↦ elim (Option-cases (remove_node a bs)) [
      | inl e'' ↦ absurd (cc (e, e', e''))
      | inr (s, e'') ↦ inr (e', s, e'', cc (e, e', e''))
    ]
  ]

pub remove_row-addr :
    (a : ℕ) (c : List Blknode) {r : Blknode × List Blknode} → remove_row a c ≡ some r → r.0.addr ≡ a
unfolding remove_row
remove_row-addr a [] e = absurd (cc e)
remove_row-addr a (n ∷ c) e = elim (remove_row-cases a n c e) [
  | inl (hit, q) ↦ ap (λ x. x.0.addr) q ∙ hit
  | inr (miss, s, e', q) ↦ ap (λ x. x.0.addr) q ∙ remove_row-addr a c e'
]

pub remove_node-addr :
    (a : ℕ) (bs : List (List Blknode)) {r : Blknode × List (List Blknode)}
    → remove_node a bs ≡ some r
    → r.0.addr ≡ a
unfolding remove_node
remove_node-addr a [] e = absurd (cc e)
remove_node-addr a (c ∷ bs) e = elim (remove_node-cases a c bs e) [
  | inl (s, e', q) ↦ ap (λ x. x.0.addr) q ∙ remove_row-addr a c e'
  | inr (gone, s, e', q) ↦ ap (λ x. x.0.addr) q ∙ remove_node-addr a bs e'
]

module _ (a : ℕ) (v : Bool) where
  remove_row-mark_row :
      (c : List Blknode) {r : Blknode × List Blknode}
      → remove_row a c ≡ some r
      → remove_row a (mark_row a v c) ≡ some (record (r.0) { avail = v }, mark_row a v r.1)
  unfolding remove_row mark_row
  remove_row-mark_row [] e = absurd (cc e)
  remove_row-mark_row (n ∷ c) e = elim (remove_row-cases a n c e) [
    | inl (hit, q) ↦ let same : n.addr == a ≡ true = ground arith in rw (q, same) (rw same refl)
    | inr (miss, s, e', q) ↦
        let other : n.addr == a ≡ false = ground arith in
        rw (q, other) (rw (other, remove_row-mark_row c e') refl)
  ]

  remove_row-mark_none :
      (c : List Blknode) → remove_row a c ≡ none → remove_row a (mark_row a v c) ≡ none
  unfolding remove_row mark_row
  remove_row-mark_none [] e = refl
  remove_row-mark_none (n ∷ c) e = elim (Bool-cases (n.addr == a)) [
    | inl hit ↦ absurd (ground arith)
    | inr miss ↦ elim (Option-cases (remove_row a c)) [
      | inl e' ↦ rw miss (rw (miss, remove_row-mark_none c e') refl)
      | inr (r, e') ↦ absurd (cc (e, miss, e'))
    ]
  ]

  -- a marked block is found where it was
  pub remove_node-mark :
      (bs : List (List Blknode)) {r : Blknode × List (List Blknode)}
      → remove_node a bs ≡ some r
      → remove_node a (mark a v bs) ≡ some (record (r.0) { avail = v }, mark a v r.1)
  unfolding remove_node mark
  remove_node-mark [] e = absurd (cc e)
  remove_node-mark (c ∷ bs) e = elim (remove_node-cases a c bs e) [
    | inl (s, e', q) ↦
        rw q (remove_node-here a (mark_row a v c) (mark a v bs) (remove_row-mark_row c e'))
    | inr (gone, s, e', q) ↦ rw q (
        remove_node-next a (mark_row a v c) (mark a v bs) (remove_row-mark_none c gone)
          (remove_node-mark bs e'))
  ]
