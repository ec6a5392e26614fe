-- ===== src/Htable/Loops.antt =====
-- genstructs/htable/htable.c: invariants of loops over an iterator.
use experimentation.Base.{
  ◌<◌, ◌≡◌, refl, Option, some, List, [], ◌∷◌, ◌++◌, length, flatten, size_mod,
}
use experimentation.Htable.Types.{Hnode, Chain, Htable}
use experimentation.Htable.Walk.{for_each_elm}
use experimentation.Htable.Iteration.{each_node, visited, for_each_elm-visited}

-- a value stands in a list
pub data Occurs {ℓ} {A : Type ℓ} (x : A) : List A → Type ℓ where
  here : {y : A} {ys : List A} → x ≡ y → Occurs x (y ∷ ys)
  there : {y : A} {ys : List A} → Occurs x ys → Occurs x (y ∷ ys)

module _ {ℓ} {A : Type ℓ} (x : A) where
  pub Occurs-append_left : (xs ys : List A) → Occurs x xs → Occurs x (xs ++ ys)
  Occurs-append_left [] ys o = elim o [ ]
  Occurs-append_left (y ∷ xs) ys (here e) = here e
  Occurs-append_left (y ∷ xs) ys (there o) = there (Occurs-append_left xs ys o)

  pub Occurs-append_right : (xs ys : List A) → Occurs x ys → Occurs x (xs ++ ys)
  Occurs-append_right [] ys o = o
  Occurs-append_right (y ∷ xs) ys o = there (Occurs-append_right xs ys o)

  Occurs-append :
      {B : Type ℓ} (xs ys : List A)
      → (Occurs x xs → B)
      → (Occurs x ys → B)
      → Occurs x (xs ++ ys)
      → B
  Occurs-append [] ys f g o = g o
  Occurs-append (y ∷ xs) ys f g (here e) = f (here e)
  Occurs-append (y ∷ xs) ys f g (there o) = Occurs-append xs ys (λ o'. f (there o')) g o

module _ {ℓ} {K V : Type ℓ} where
  -- a node that a loop visits is in the table
  pub Occurs-visited :
      (x : Hnode K V) (bs : List (Chain K V)) → Occurs x (visited bs) → Occurs x (flatten bs)
  unfolding visited flatten
  Occurs-visited x [] o = o
  Occurs-visited x ([] ∷ []) o = o
  Occurs-visited x ((pnode ∷ c) ∷ []) (here e) = here e
  Occurs-visited x ((pnode ∷ c) ∷ []) (there o) = elim o [ ]
  Occurs-visited x (c ∷ d ∷ bs) o =
      Occurs-append x c (visited (d ∷ bs)) (Occurs-append_left x c (flatten (d ∷ bs)))
        (λ o'. Occurs-append_right x c (flatten (d ∷ bs)) (Occurs-visited x (d ∷ bs) o')) o

module _ {ℓ κ} {K V : Type ℓ} {S : Type κ} (body : Hnode K V → S → Option S) (P : S → Type κ)
    (Done : Hnode K V → S → Type κ) where
  -- a body that runs, keeps `P`, has `Done` at its node, and keeps `Done` at all others
  pub record Keeps (node : Hnode K V) (s s' : S) : Type (ℓ ⊔ κ) where
    pub runs : body node s ≡ some s'
    pub holds : P s'
    pub done : Done node s'
    pub keeps : (n : Hnode K V) → Done n s → Done n s'

  nothing : (s : S) (n : Hnode K V) → Occurs n [] → Done n s
  nothing s n o = elim o [ ]

  extend :
      {s : S} {node : Hnode K V} {nodes : List (Hnode K V)}
      → Done node s
      → ((n : Hnode K V) → Occurs n nodes → Done n s)
      → (n : Hnode K V) → Occurs n (node ∷ nodes)
      → Done n s
  extend d rest n (here e) = rw e d
  extend d rest n (there o) = rest n o

  each_node_inv :
      (nodes : List (Hnode K V))
      → ((node : Hnode K V) → Occurs node nodes → (s : S) → P s → (s' : S) × Keeps node s s')
      → (s : S) → P s
      → (s' : S) × (each_node body nodes s ≡ some s')
        × P s'
        × ((n : Hnode K V) → Occurs n nodes → Done n s')
        × ((n : Hnode K V) → Done n s → Done n s')
  unfolding each_node
  each_node_inv [] step s p = (s, refl, p, nothing s, λ n d. d)
  each_node_inv (node ∷ nodes) step s p =
      let (s1, k) = step node (here refl) s p in
      let (s2, run, p2, done, kept) = each_node_inv nodes (λ n o. step n (there o)) s1 k.holds in
      (s2, rw k.runs run, p2, extend (kept node k.done) done, λ n d. kept n (k.keeps n d))

  -- The rule for a loop over an iterator.
  pub for_each_elm_inv :
      (h : Htable K V)
      → length h.ht_table ≡ h.ht_size
      → h.ht_size < size_mod
      → ((node : Hnode K V)
          → Occurs node (visited h.ht_table)
          → (s : S) → P s
          → (s' : S) × Keeps node s s')
      → (s : S) → P s
      → (s' : S) × (for_each_elm h body s ≡ some s')
        × P s'
        × ((n : Hnode K V) → Occurs n (visited h.ht_table) → Done n s')
        × ((n : Hnode K V) → Done n s → Done n s')
  for_each_elm_inv h width sized step s p =
      rw (for_each_elm-visited h width sized body s) (each_node_inv (visited h.ht_table) step s p)
