-- ===== src/Htable/Release.antt =====
-- genstructs/htable/htable.c: what the loops over the whole table that use no iterator reach.
use experimentation.Base.{◌≡◌, refl, ap, List, [], ◌∷◌, ◌++◌, flatten, map}
use mathlib.Core.List.{foldl, map-append, foldl-append}
use experimentation.Htable.Types.{Hnode, Chain, Htable, Freed}
use experimentation.Htable.Walk.{traverse_chain, traverse_chains, htable_traverse}
use experimentation.Htable.Memory.{
  free_chain, free_chains, htable_free, free_contents, free_all_chain, free_all_chains,
  htable_free_all_obj,
}

module _ {ℓ} {K V : Type ℓ} where
  -- a table whose nodes, laid end to end, are given
  free_chain-map : (c : Chain K V) → free_chain c ≡ map Freed.node c
  unfolding free_chain
  free_chain-map [] = refl
  free_chain-map (pnode ∷ c) = ap (λ l. Freed.node pnode ∷ l) (free_chain-map c)

  free_chains-flatten : (bs : List (Chain K V)) → free_chains bs ≡ map Freed.node (flatten bs)
  unfolding free_chains flatten
  free_chains-flatten [] = refl
  free_chains-flatten (c ∷ bs) = rw (free_chain-map c, free_chains-flatten bs, map-append)

  -- the key and the data of every node
  pub both_contents : List (Hnode K V) → List (Freed K V)
  both_contents [] = []
  both_contents (pnode ∷ nodes) =
      Freed.key pnode.hn_key ∷ Freed.datum pnode.hn_data ∷ both_contents nodes

  both_contents-append :
      (a b : List (Hnode K V)) → both_contents (a ++ b) ≡ both_contents a ++ both_contents b
  unfolding both_contents
  both_contents-append [] b = refl
  both_contents-append (pnode ∷ a) b = rw (both_contents-append a b)

  free_all_chain-both : (c : Chain K V) → free_all_chain 3 c ≡ both_contents c
  unfolding free_all_chain free_contents both_contents
  free_all_chain-both [] = refl
  free_all_chain-both (pnode ∷ c) = rw (free_all_chain-both c)

  free_all_chains-both : (bs : List (Chain K V)) → free_all_chains 3 bs ≡ both_contents (flatten bs)
  unfolding free_all_chains flatten
  free_all_chains-both [] = unfold both_contents in refl
  free_all_chains-both (c ∷ bs) =
      rw (free_all_chain-both c, free_all_chains-both bs, both_contents-append)

  -- Freeing all objects and then the table gives to free the key and the data of every node once,
  -- in order, then every node once, then the array.
  pub htable_free_complete :
      (h : Htable K V)
      → htable_free_all_obj h 3 ++ htable_free h
        ≡ both_contents (flatten h.ht_table)
          ++ (map Freed.node (flatten h.ht_table) ++ Freed.table ∷ [])
  unfolding htable_free_all_obj htable_free
  htable_free_complete h = rw (free_all_chains-both h.ht_table, free_chains-flatten h.ht_table)

  free_all_chain-keys :
      (c : Chain K V) → free_all_chain 1 c ≡ map (λ (n : Hnode K V). Freed.key n.hn_key) c
  unfolding free_all_chain free_contents
  free_all_chain-keys [] = refl
  free_all_chain-keys (pnode ∷ c) = rw (free_all_chain-keys c)

  free_all_chains-keys :
      (bs : List (Chain K V))
      → free_all_chains 1 bs ≡ map (λ (n : Hnode K V). Freed.key n.hn_key) (flatten bs)
  unfolding free_all_chains flatten
  free_all_chains-keys [] = refl
  free_all_chains-keys (c ∷ bs) = rw (free_all_chain-keys c, free_all_chains-keys bs, map-append)

  -- the same with the keys alone
  pub htable_free_keys :
      (h : Htable K V)
      → htable_free_all_obj h 1 ++ htable_free h
        ≡ map (λ (n : Hnode K V). Freed.key n.hn_key) (flatten h.ht_table)
          ++ (map Freed.node (flatten h.ht_table) ++ Freed.table ∷ [])
  unfolding htable_free_all_obj htable_free
  htable_free_keys h = rw (free_all_chains-keys h.ht_table, free_chains-flatten h.ht_table)

  module _ {κ} {S : Type κ} (pfunc : V → S → S) where
    traverse_chain-foldl :
        (c : Chain K V) (s : S)
        → traverse_chain pfunc c s ≡ foldl (λ t (pnode : Hnode K V). pfunc pnode.hn_data t) s c
    unfolding traverse_chain
    traverse_chain-foldl [] s = refl
    traverse_chain-foldl (pnode ∷ c) s = traverse_chain-foldl c (pfunc pnode.hn_data s)

    traverse_chains-foldl :
        (bs : List (Chain K V)) (s : S)
        → traverse_chains pfunc bs s
          ≡ foldl (λ t (pnode : Hnode K V). pfunc pnode.hn_data t) s (flatten bs)
    unfolding traverse_chains flatten
    traverse_chains-foldl [] s = refl
    traverse_chains-foldl (c ∷ bs) s =
        rw (traverse_chain-foldl c s, foldl-append) (traverse_chains-foldl bs _)

    -- htable_traverse calls its function on the data of every node once, chain by chain.
    pub htable_traverse-foldl :
        (h : Htable K V) (s : S)
        → htable_traverse h pfunc s
          ≡ foldl (λ t (pnode : Hnode K V). pfunc pnode.hn_data t) s (flatten h.ht_table)
    unfolding htable_traverse
    htable_traverse-foldl h s = traverse_chains-foldl h.ht_table s
