-- ===== src/Htable/Memory.antt =====
-- genstructs/htable/htable.c: the functions that free. What is given to `free` is the result, in
-- order.
use experimentation.Base.{ℕ, List, [], ◌∷◌, ◌++◌, ◌==◌, if◌then◌else◌, bit_and}
use experimentation.Htable.Types.{Hnode, Htable, Freed, ht_freekey, ht_freedata, Chain}

module _ {ℓ} {K V : Type ℓ} where
  -- the `while` of `htable_free` over one chain
  unfoldable pub free_chain : Chain K V → List (Freed K V)
  free_chain [] = []
  free_chain (pnode ∷ c) = Freed.node pnode ∷ free_chain c

  unfoldable pub free_chains : List (Chain K V) → List (Freed K V)
  free_chains [] = []
  free_chains (c ∷ bs) = free_chain c ++ free_chains bs

  unfoldable pub htable_free : Htable K V → List (Freed K V)
  htable_free h = free_chains h.ht_table ++ Freed.table ∷ []

  -- the key and the data of a node, as the bits of `htfree` say
  unfoldable pub free_contents : ℕ → Hnode K V → List (Freed K V)
  free_contents htfree pnode =
      (if bit_and htfree ht_freekey == 0 then [] else Freed.key pnode.hn_key ∷ [])
      ++ (if bit_and htfree ht_freedata == 0 then [] else Freed.datum pnode.hn_data ∷ [])

  unfoldable pub free_all_chain : ℕ → Chain K V → List (Freed K V)
  free_all_chain htfree [] = []
  free_all_chain htfree (pnode ∷ c) = free_contents htfree pnode ++ free_all_chain htfree c

  unfoldable pub free_all_chains : ℕ → List (Chain K V) → List (Freed K V)
  free_all_chains htfree [] = []
  free_all_chains htfree (c ∷ bs) = free_all_chain htfree c ++ free_all_chains htfree bs

  unfoldable pub htable_free_all_obj : Htable K V → ℕ → List (Freed K V)
  htable_free_all_obj h htfree = free_all_chains htfree h.ht_table
