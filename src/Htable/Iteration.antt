-- ===== src/Htable/Iteration.antt =====
-- genstructs/htable/htable.c, `htable_get_next_elm`: which nodes a loop over an iterator visits.
use experimentation.Base.{
  Bool-cases, ℕ, zero, suc, ◌+◌, ◌-◌, ◌≤◌, ◌<◌, ◌≡◌, ◌⊎◌, inl, inr, refl, ap, fun_ext, Bool, true,
  false, Option, some, List, [], ◌∷◌, ◌++◌, ◌>>=◌, ◌||◌, ◌==◌, ltb, length, length-append, flatten,
  drop, get_elem?, size_mod, dec, arith,
}
use experimentation.Htable.Types.{Hnode, Chain, Htable, Iterator}
use experimentation.Htable.Walk.{
  next_chain, htable_iterator_init, tailq_next, is_null, htable_get_next_elm, for_each_loop,
  for_each_elm,
}

or_true : {a b : Bool} → a ≡ false → (a || b) ≡ true → b ≡ true
or_true e h = ground arith

module _ {ℓ κ} {K V : Type ℓ} {S : Type κ} where
  -- a loop over a list of nodes
  unfoldable pub each_node : (Hnode K V → S → Option S) → List (Hnode K V) → S → Option S
  each_node body [] s = some s
  each_node body (pnode ∷ nodes) s = body pnode s >>= each_node body nodes

module _ {ℓ} {K V : Type ℓ} where
  -- every node of every chain but the last, of which only the first node
  unfoldable pub visited : List (Chain K V) → List (Hnode K V)
  visited [] = []
  visited ([] ∷ []) = []
  visited ((pnode ∷ c) ∷ []) = pnode ∷ []
  visited (c ∷ d ∷ bs) = c ++ visited (d ∷ bs)

  length-visited : (bs : List (Chain K V)) → length (visited bs) ≤ length (flatten bs)
  unfolding visited flatten
  length-visited [] = omega arith
  length-visited ([] ∷ []) = omega arith
  length-visited ((pnode ∷ c) ∷ []) = omega arith
  length-visited (c ∷ d ∷ bs) = omega (
    arith,
    length-append c (visited (d ∷ bs)),
    length-append c (flatten (d ∷ bs)),
    length-visited (d ∷ bs),
  )

  -- what is left behind a node of a chain
  behind : Chain K V → List (Chain K V) → List (Hnode K V)
  behind c [] = []
  behind c (d ∷ bs) = c ++ visited (d ∷ bs)

  visited-behind :
      (pnode : Hnode K V) (c : Chain K V) (bs : List (Chain K V))
      → visited ((pnode ∷ c) ∷ bs) ≡ pnode ∷ behind c bs
  unfolding visited behind
  visited-behind pnode c [] = refl
  visited-behind pnode c (d ∷ bs) = refl

  visited-nil : (bs : List (Chain K V)) → visited ([] ∷ bs) ≡ visited bs
  unfolding visited
  visited-nil [] = refl
  visited-nil (d ∷ bs) = refl

  get_elem?-drop :
      (bs : List (Chain K V)) (i : ℕ) {c : Chain K V} {rest : List (Chain K V)}
      → drop i bs ≡ c ∷ rest
      → (get_elem? bs i ≡ some c) × (drop (suc i) bs ≡ rest)
  get_elem?-drop [] zero e = absurd (cc e)
  get_elem?-drop [] (suc i) e = absurd (cc e)
  get_elem?-drop (d ∷ bs) zero e = (cc e, cc e)
  get_elem?-drop (d ∷ bs) (suc i) e = get_elem?-drop bs i e

  -- where the search for the next chain ends
  Found : List (Chain K V) → Option (Chain K V × ℕ) → List (Chain K V) → Type ℓ
  Found bs r rest =
      ((j : ℕ) × (r ≡ some ([], j)) × (visited rest ≡ []))
      ⊎ ((pnode : Hnode K V) × (c : Chain K V) × (later : List (Chain K V)) × (j : ℕ) × (r
            ≡ some (pnode ∷ c, suc j))
          × (drop (suc j) bs ≡ later)
          × (suc j + length later ≡ length bs)
          × (visited rest ≡ pnode ∷ behind c later))

  next_chain-Found :
      (bs rest : List (Chain K V)) (i : ℕ)
      → drop i bs ≡ rest
      → i + length rest ≡ length bs
      → Found bs (next_chain bs (length rest) i) rest
  unfolding Found next_chain
  next_chain-Found bs [] i at size = inl (i, refl, unfold visited in refl)
  next_chain-Found bs ([] ∷ rest) i at size =
      let (here, later) = get_elem?-drop bs i at in
      rw (here, visited-nil rest) (next_chain-Found bs rest (suc i) later (omega arith))
  next_chain-Found bs ((pnode ∷ c) ∷ rest) i at size =
      let (here, later) = get_elem?-drop bs i at in
      inr (pnode, c, rest, i, rw here, later, omega arith, visited-behind pnode c rest)

module _ {ℓ} {K V : Type ℓ} (h : Htable K V) (it : Iterator K V) where
  get_next_elm-past : ltb (dec h.ht_size) it.pos ≡ true → htable_get_next_elm h it ≡ some ([], it)
  unfolding htable_get_next_elm
  get_next_elm-past e = rw e

  get_next_elm-scan :
      ltb (dec h.ht_size) it.pos ≡ false
      → ((it.pos == 0 || is_null it.pnode) || is_null (tailq_next it.pnode)) ≡ true
      → htable_get_next_elm h it ≡ (
          next_chain h.ht_table (h.ht_size - it.pos) it.pos >>= λ r.
          some (r.0, record it { pos = r.1 }))
  unfolding htable_get_next_elm
  get_next_elm-scan e stop = rw e (elim (Bool-cases (it.pos == 0 || is_null it.pnode)) [
    | inl first ↦ rw first
    | inr on ↦ rw (on, or_true on stop)
  ])

  get_next_elm-next :
      ltb (dec h.ht_size) it.pos ≡ false
      → (it.pos == 0 || is_null it.pnode) ≡ false
      → is_null (tailq_next it.pnode) ≡ false
      → htable_get_next_elm h it ≡ some (tailq_next it.pnode, it)
  unfolding htable_get_next_elm
  get_next_elm-next e on more = rw (e, on, more)

module _ {ℓ κ} {K V : Type ℓ} {S : Type κ} (h : Htable K V) (width : length h.ht_table ≡ h.ht_size)
    (sized : h.ht_size < size_mod) (body : Hnode K V → S → Option S) where
  -- one round of the loop, after the call of `htable_get_next_elm`
  abbrev round : ℕ → S → Chain K V × Iterator K V → Option S
  round fuel s r = elim r.0 [
    | [] ↦ some s
    | pnode ∷ c ↦
        body pnode s >>= for_each_loop fuel h (record { pos = r.1.pos; pnode = pnode ∷ c }) body
  ]

  for_each_loop-round :
      (fuel : ℕ) (it : Iterator K V) (s : S)
      → for_each_loop (suc fuel) h it body s ≡ (htable_get_next_elm h it >>= round fuel s)
  unfolding for_each_loop
  for_each_loop-round fuel it s = refl

  -- the rest of the loop from a node on, for all nodes at once
  Continues : ℕ → Type (ℓ ⊔ κ)
  Continues fuel =
      (p : ℕ) (pnode : Hnode K V) (c : Chain K V) (rest : List (Chain K V))
      → drop (suc p) h.ht_table ≡ rest
      → suc p + length rest ≡ h.ht_size
      → length (behind c rest) < fuel
      → (s : S)
      → for_each_loop fuel h (record { pos = suc p; pnode = pnode ∷ c }) body s
        ≡ each_node body (behind c rest) s

  -- the rest of the loop from a search for the next chain on
  round-scan :
      (fuel p : ℕ) (it : Iterator K V) (rest : List (Chain K V))
      → Continues fuel
      → drop p h.ht_table ≡ rest
      → p + length rest ≡ h.ht_size
      → length (visited rest) < suc fuel
      → (s : S)
      → ((next_chain h.ht_table (h.ht_size - p) p >>= λ r. some (r.0, record it { pos = r.1 }))
          >>= round fuel s)
        ≡ each_node body (visited rest) s
  unfolding Continues Found each_node
  round-scan fuel p it rest ih at size enough s =
      let rounds : h.ht_size - p ≡ length rest = omega arith in
      rw rounds (elim (next_chain-Found h.ht_table rest p at (omega arith)) [
        | inl (j, e, nothing) ↦ rw (e, nothing)
        | inr (pnode, c, later, j, e, at', size', more) ↦
            rw (e, more)
              (ap (λ f. body pnode s >>= f)
                (fun_ext (ih j pnode c later at' (omega arith) (omega (arith, ap length more)))))
      ])

  for_each_loop-Continues : (fuel : ℕ) → Continues fuel
  unfolding Continues for_each_loop htable_get_next_elm each_node behind
  for_each_loop-Continues zero p pnode c rest at size enough s = absurd (omega arith)
  for_each_loop-Continues (suc fuel) p pnode c [] at size enough s =
      rw (get_next_elm-past h (record { pos = suc p; pnode = pnode ∷ c }) (ground arith))
  for_each_loop-Continues (suc fuel) p pnode [] (d ∷ rest) at size enough s =
      rw
        (get_next_elm-scan h (record { pos = suc p; pnode = pnode ∷ [] }) (ground arith)
          (ground arith))
        (round-scan fuel (suc p) (record { pos = suc p; pnode = pnode ∷ [] }) (d ∷ rest)
          (for_each_loop-Continues fuel) at size enough s)
  for_each_loop-Continues (suc fuel) p pnode (next ∷ c) (d ∷ rest) at size enough s =
      rw
        (get_next_elm-next h (record { pos = suc p; pnode = pnode ∷ next ∷ c }) (ground arith)
          (ground arith) refl)
        (ap (λ f. body next s >>= f)
          (fun_ext (for_each_loop-Continues fuel p next c (d ∷ rest) at size (omega arith))))

  -- A loop over an iterator of a table whose array has the size that it says, below 2 ^ 64, stays
  -- in the array, ends, and runs its body on every node of every chain, in order, except that of
  -- the last chain it sees the first node alone.
  pub for_each_elm-visited : (s : S) → for_each_elm h body s ≡ each_node body (visited h.ht_table) s
  unfolding for_each_elm for_each_loop htable_get_next_elm htable_iterator_init
  for_each_elm-visited s = rw (get_next_elm-scan h htable_iterator_init (ground arith) refl) (
      round-scan (length (flatten h.ht_table)) 0 htable_iterator_init h.ht_table
        (for_each_loop-Continues _) refl (omega arith) (omega (arith, length-visited h.ht_table)) s)
