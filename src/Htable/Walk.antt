-- ===== src/Htable/Walk.antt =====
-- genstructs/htable/htable.c: the functions that walk the whole table with no callback on keys.
use experimentation.Base.{
  ℕ, zero, suc, ◌/◌, ◌-◌, ◌*◌, ◌||◌, flatten, Bool, true, false, Option, none, some, List, [], ◌∷◌,
  ◌++◌, ltb, leb, ◌==◌, if◌then◌else◌, ◌>>=◌, length, get_elem?, replicate, wrap, dec,
}
use experimentation.Htable.Types.{Hnode, Htable, Htret, Iterator, Chain}

-- the bytes of a head of a tail queue, which is two pointers
abbrev pub head_size : ℕ
head_size = 16

module _ {ℓ} {K V : Type ℓ} where
  -- the loop that writes `size` heads into a block with room for `room` of them
  unfoldable pub init_heads : ℕ → ℕ → Option (List (Chain K V))
  init_heads room size = if leb size room then some (replicate size []) else none

  -- The size in bytes is a size_t. `none`: a head is written behind the block.
  unfoldable pub htable_init : Bool → ℕ → ℕ → Option (Htret × Option (Htable K V))
  htable_init got size factor =
      if got
      then (init_heads (wrap (size * head_size) / head_size) size >>= λ heads. some (
        Htret.ok,
        some (record {
          ht_grows = 0;
          ht_size = size;
          ht_used = 0;
          ht_factor = factor;
          ht_limit = wrap (factor * size);
          ht_table = heads;
        }),
      ))
      else some (Htret.nomem, none)

  unfoldable pub htable_get_size : Htable K V → ℕ
  htable_get_size h = h.ht_size

  unfoldable pub htable_get_used : Htable K V → ℕ
  htable_get_used h = h.ht_used

  unfoldable pub htable_stat_get_grows : Htable K V → ℕ
  htable_stat_get_grows h = h.ht_grows

  unfoldable pub htable_stat_get_chain_len : Htable K V → ℕ → Option ℕ
  htable_stat_get_chain_len h at =
      if leb h.ht_size at
      then some 0
      else (get_elem? h.ht_table at >>= λ phead. some (length phead))

  -- the `for` loops of the iterator: `rounds` are left, `i` runs with `pos`
  unfoldable pub next_chain : List (Chain K V) → ℕ → ℕ → Option (Chain K V × ℕ)
  next_chain bs zero i = some ([], i)
  next_chain bs (suc rounds) i =
      let rest = next_chain bs rounds (suc i) in
      get_elem? bs i >>= λ phead. elim phead [ [] ↦ rest | pnode ∷ c ↦ some (pnode ∷ c, suc i) ]

  unfoldable pub htable_iterator_init : Iterator K V
  htable_iterator_init = record { pos = 0; pnode = [] }

  unfoldable pub htable_iterator_get_data : Iterator K V → Option V
  htable_iterator_get_data it = elim it.pnode [ [] ↦ none | pnode ∷ _ ↦ some pnode.hn_data ]

  unfoldable pub htable_iterator_get_key : Iterator K V → Option K
  htable_iterator_get_key it = elim it.pnode [ [] ↦ none | pnode ∷ _ ↦ some pnode.hn_key ]

  abbrev pub tailq_next : Chain K V → Chain K V
  tailq_next [] = []
  tailq_next (_ ∷ c) = c

  abbrev pub is_null : Chain K V → Bool
  is_null [] = true
  is_null (_ ∷ _) = false

  -- the node and the iterator, whose `pnode` is left to the caller
  unfoldable pub htable_get_next_elm : Htable K V → Iterator K V → Option (Chain K V × Iterator K V)
  htable_get_next_elm h it =
      let scan : Option (Chain K V × Iterator K V) =
        next_chain h.ht_table (h.ht_size - it.pos) it.pos >>= λ r.
        some (r.0, record it { pos = r.1 }) in
      if ltb (dec h.ht_size) it.pos
      then some ([], it)
      else if it.pos == 0 || is_null it.pnode
      then scan
      else if is_null (tailq_next it.pnode)
      then scan
      else some (tailq_next it.pnode, it)

  -- `while ((it.pnode = htable_get_next_elm(h, &it)) != NULL) body`, on fuel: `none` is also a
  -- loop that has not ended
  unfoldable pub for_each_loop {κ} :
      {S : Type κ} → ℕ → Htable K V → Iterator K V → (Hnode K V → S → Option S) → S → Option S
  for_each_loop zero h it body s = none
  for_each_loop (suc fuel) h it body s = htable_get_next_elm h it >>= λ r. elim r.0 [
    | [] ↦ some s
    | pnode ∷ c ↦
        body pnode s >>= for_each_loop fuel h (record { pos = r.1.pos; pnode = pnode ∷ c }) body
  ]

  unfoldable pub for_each_elm {κ} :
      {S : Type κ} → Htable K V → (Hnode K V → S → Option S) → S → Option S
  for_each_elm h body s =
      for_each_loop (suc (length (flatten h.ht_table))) h htable_iterator_init body s

  -- `htable_traverse`: what `pfunc` does to a state, over the chains in order
  unfoldable pub traverse_chain {κ} : {S : Type κ} → (V → S → S) → Chain K V → S → S
  traverse_chain pfunc [] s = s
  traverse_chain pfunc (pnode ∷ c) s = traverse_chain pfunc c (pfunc pnode.hn_data s)

  unfoldable pub traverse_chains {κ} : {S : Type κ} → (V → S → S) → List (Chain K V) → S → S
  traverse_chains pfunc [] s = s
  traverse_chains pfunc (c ∷ bs) s = traverse_chains pfunc bs (traverse_chain pfunc c s)

  unfoldable pub htable_traverse {κ} : {S : Type κ} → Htable K V → (V → S → S) → S → S
  htable_traverse h pfunc s = traverse_chains pfunc h.ht_table s

  -- what `htable_print` writes to the standard output, whatever `fp` is
  unfoldable pub print_chain : (K → V → List ℕ) → Chain K V → List ℕ
  print_chain ht_printf [] = []
  print_chain ht_printf (pnode ∷ c) =
      ht_printf pnode.hn_key pnode.hn_data ++ print_chain ht_printf c

  unfoldable pub print_chains : (K → V → List ℕ) → List (Chain K V) → List ℕ
  print_chains ht_printf [] = []
  print_chains ht_printf (c ∷ bs) =
      print_chain ht_printf c
      ++ ((if is_null c then [] else b'\n' ∷ []) ++ print_chains ht_printf bs)

  unfoldable pub htable_print : (K → V → List ℕ) → Htable K V → List ℕ
  htable_print ht_printf h = print_chains ht_printf h.ht_table
