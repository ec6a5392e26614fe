-- ===== src/Htable/Flatten.antt =====
-- genstructs/htable/htable.c: the chains laid end to end, as the loops over the whole table see them.
use experimentation.Base.{
  ℕ, zero, suc, ◌≤◌, ◌≡◌, ◌≢◌, refl, List, [], ◌∷◌, or_else-none, length, get_or, flatten, arith,
  sym,
}
use experimentation.Htable.Types.{Callbacks, Chain}
use experimentation.Htable.Table.{slot, find}
use experimentation.Htable.Chains.{hits, find-eq-none, hits-append, find-append}
use experimentation.Htable.Layout.{IsPlaced, view}

module _ {ℓ} {K V : Type ℓ} (cb : Callbacks K) where
  absent-flatten :
      (q : K) (bs : List (Chain K V))
      → ((i : ℕ) → hits cb q (get_or bs i []) ≡ 0)
      → hits cb q (flatten bs) ≡ 0
  unfolding flatten hits
  absent-flatten q [] nowhere = refl
  absent-flatten q (c ∷ bs) nowhere = omega (
    arith,
    hits-append cb q c (flatten bs),
    nowhere 0,
    absent-flatten q bs (λ i. nowhere (suc i)),
  )

  -- a key that only the chain at `j` can have is found there, or nowhere
  only-flatten :
      (q : K) (bs : List (Chain K V)) (j : ℕ)
      → ((i : ℕ) → i ≢ j → hits cb q (get_or bs i []) ≡ 0)
      → (find cb q (flatten bs) ≡ find cb q (get_or bs j []))
        × (hits cb q (flatten bs) ≡ hits cb q (get_or bs j []))
  unfolding flatten
  only-flatten q [] j others = (refl, refl)
  only-flatten q (c ∷ bs) zero others =
      let rest = absent-flatten q bs (λ i. others (suc i) (omega arith)) in
      (
        rw (find-append, find-eq-none cb q (flatten bs) rest) (or_else-none (find cb q c)),
        omega (arith, hits-append cb q c (flatten bs)),
      )
  only-flatten q (c ∷ bs) (suc j) others =
      let here = others 0 (omega arith) in
      let (found, counted) = only-flatten q bs j (λ i n. others (suc i) (omega arith)) in
      (
        rw (find-append, find-eq-none cb q c here) found,
        omega (arith, hits-append cb q c (flatten bs)),
      )

  -- the map of the table is a search through all of its nodes, which have each key at most once
  pub flatten-view :
      (bs : List (Chain K V)) (q : K)
      → IsPlaced cb bs
      → (find cb q (flatten bs) ≡ view cb bs q) × (hits cb q (flatten bs) ≤ 1)
  unfolding view
  flatten-view bs q placed =
      let home = slot cb q (length bs) in
      let (found, counted) = only-flatten q bs home (λ i n. (placed q i).1 (λ e. n (sym e))) in
      (found, omega (arith, placed q home))
