-- ===== src/Htable/Table.antt =====
-- genstructs/htable/htable.c: the functions that hash and compare keys. The callbacks are a
-- parameter; what `malloc` answers is an argument. `none` is an access outside the array.
use experimentation.Base.{
  ℕ, ◌+◌, ◌*◌, Bool, Option, none, some, List, [], ◌∷◌, ◌++◌, ltb, not, if◌then◌else◌, ◌>>=◌,
  is_some, get_elem?, set, replicate, wrap, dec, is_zero, bit_and,
}
use experimentation.Htable.Memory.{free_contents}
use experimentation.Htable.Types.{Hnode, Callbacks, Htable, Htret, Freed, Chain}

module _ {ℓ} {K : Type ℓ} (cb : Callbacks K) where
  -- `ht_cmpf(a, b) == 0`
  abbrev pub is_same : K → K → Bool
  is_same a b = is_zero (cb.cmpf a b)

  -- `hash & (ht_size - 1)`
  unfoldable pub slot : K → ℕ → ℕ
  slot k size = bit_and (cb.hashf k) (dec size)

module _ {ℓ} {K V : Type ℓ} where
  -- `TAILQ_INSERT_TAIL` into the chain at `i`
  unfoldable pub insert_tail : ℕ → Hnode K V → List (Chain K V) → Option (List (Chain K V))
  insert_tail i pnode bs = get_elem? bs i >>= λ phead. some (set bs i (phead ++ pnode ∷ []))

module _ {ℓ} {K V : Type ℓ} (cb : Callbacks K) where
  unfoldable pub find : K → Chain K V → Option V
  find k [] = none
  find k (pnode ∷ c) = if is_same cb pnode.hn_key k then some pnode.hn_data else find k c

  -- the first node with the key, and the chain after `TAILQ_REMOVE`
  unfoldable pub unlink : K → Chain K V → Option (Hnode K V × Chain K V)
  unlink k [] = none
  unlink k (pnode ∷ c) =
      if is_same cb pnode.hn_key k
      then some (pnode, c)
      else (unlink k c >>= λ r. some (r.0, pnode ∷ r.1))

  unfoldable pub htable_search : Htable K V → K → Option (Option V)
  htable_search h k = get_elem? h.ht_table (slot cb k h.ht_size) >>= λ phead. some (find k phead)

  unfoldable pub rehash_chain : ℕ → Chain K V → List (Chain K V) → Option (List (Chain K V))
  rehash_chain newsize [] fresh = some fresh
  rehash_chain newsize (pnode ∷ c) fresh =
      insert_tail (slot cb pnode.hn_key newsize) pnode fresh >>= rehash_chain newsize c

  unfoldable pub rehash : ℕ → List (Chain K V) → List (Chain K V) → Option (List (Chain K V))
  rehash newsize [] fresh = some fresh
  rehash newsize (c ∷ bs) fresh = rehash_chain newsize c fresh >>= rehash newsize bs

  unfoldable pub htable_grow : Bool → Htable K V → Option (Htret × Htable K V)
  htable_grow got h =
      let newsize = wrap (h.ht_size * 2) in
      if got
      then (rehash newsize h.ht_table (replicate newsize []) >>= λ pnewhead. some (
        Htret.ok,
        record h {
          ht_table = pnewhead;
          ht_size = newsize;
          ht_limit = wrap (h.ht_factor * newsize);
        },
      ))
      else some (Htret.nomem, h)

  -- the end of `htable_insert`
  unfoldable pub grow_if_full : Bool → Htable K V → Option (Htable K V)
  grow_if_full got h =
      if ltb h.ht_limit h.ht_used
      then (htable_grow got h >>= λ r. some (record (r.1) { ht_grows = wrap (r.1.ht_grows + 1) }))
      else some h

  -- `got_node` and `got_table`: whether the two calls of `malloc` succeed
  unfoldable pub htable_insert : Bool → Bool → Htable K V → K → V → Option (Htret × Htable K V)
  htable_insert got_node got_table h k v = get_elem? h.ht_table (slot cb k h.ht_size) >>= λ phead.
      if is_some (find k phead)
      then some (Htret.exists, h)
      else if not got_node
      then some (Htret.nomem, h)
      else (insert_tail (slot cb k h.ht_size) (record { hn_key = k; hn_data = v }) h.ht_table
          >>= λ bs.
              grow_if_full got_table (record h { ht_table = bs; ht_used = wrap (h.ht_used + 1) })
              >>= λ grown. some (Htret.ok, grown))

  unfoldable pub htable_remove : Htable K V → K → Option (Htret × Htable K V)
  htable_remove h k = get_elem? h.ht_table (slot cb k h.ht_size) >>= λ phead.
      elim (unlink k phead) [
        | none ↦ some (Htret.notfound, h)
        | some (pnode, c) ↦ some (
          Htret.ok,
          record h { ht_table = set h.ht_table (slot cb k h.ht_size) c; ht_used = dec h.ht_used },
        )
      ]

  unfoldable pub htable_free_obj :
      Htable K V → K → ℕ → Option (Htret × Htable K V × List (Freed K V))
  htable_free_obj h k htfree = get_elem? h.ht_table (slot cb k h.ht_size) >>= λ phead.
      elim (unlink k phead) [
        | none ↦ some (Htret.notfound, h, [])
        | some (pnode, c) ↦ some (
          Htret.ok,
          record h { ht_table = set h.ht_table (slot cb k h.ht_size) c; ht_used = dec h.ht_used },
          free_contents htfree pnode ++ Freed.node pnode ∷ [],
        )
      ]
