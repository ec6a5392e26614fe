-- ===== src/Htable/Missed.antt =====
-- genstructs/htable/htable.c, `htable_get_next_elm`: the nodes of the last chain that a loop misses.
use experimentation.Base.{
  ◌∙◌, ℕ, ◌+◌, ◌-◌, ◌<◌, ◌≡◌, ap, some, List, [], ◌∷◌, length, length-append, flatten, size_mod,
  arith,
}
use experimentation.Htable.Types.{Hnode, Chain, Htable}
use experimentation.Htable.Walk.{for_each_elm}
use experimentation.Htable.Iteration.{each_node, visited, for_each_elm-visited}

module _ {ℓ} {K V : Type ℓ} where
  abbrev pub last_chain : List (Chain K V) → Chain K V
  last_chain [] = []
  last_chain (c ∷ []) = c
  last_chain (c ∷ d ∷ bs) = last_chain (d ∷ bs)

  visited-missed :
      (bs : List (Chain K V))
      → length (visited bs) + (length (last_chain bs) - 1) ≡ length (flatten bs)
  unfolding visited flatten
  visited-missed [] = omega arith
  visited-missed ([] ∷ []) = omega arith
  visited-missed ((pnode ∷ c) ∷ []) = omega (arith, length-append c [])
  visited-missed (c ∷ d ∷ bs) = omega (
    arith,
    length-append c (visited (d ∷ bs)),
    length-append c (flatten (d ∷ bs)),
    visited-missed (d ∷ bs),
  )

  each_node-count :
      (nodes : List (Hnode K V)) (n : ℕ)
      → each_node (λ _ k. some (k + 1)) nodes n ≡ some (n + length nodes)
  unfolding each_node
  each_node-count [] n = ap some (omega arith)
  each_node-count (pnode ∷ nodes) n = each_node-count nodes (n + 1) ∙ ap some (omega arith)

  -- On a table whose array has the size that it says, below 2 ^ 64, a loop over an iterator that
  -- counts its rounds comes short of the nodes by all but one of the last chain.
  pub for_each_elm-missed :
      (h : Htable K V)
      → length h.ht_table ≡ h.ht_size
      → h.ht_size < size_mod
      → (n : ℕ) × (for_each_elm h (λ _ k. some (k + 1)) 0 ≡ some n)
        × (n + (length (last_chain h.ht_table) - 1) ≡ length (flatten h.ht_table))
  for_each_elm-missed h width sized = (
    length (visited h.ht_table),
    for_each_elm-visited h width sized (λ _ k. some (k + 1)) 0
        ∙ (each_node-count (visited h.ht_table) 0 ∙ ap some (omega arith)),
    visited-missed h.ht_table,
  )
