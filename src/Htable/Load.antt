-- ===== src/Htable/Load.antt =====
-- genstructs/htable/htable.c, `htable_insert`: the bound on the number of nodes for each chain.
use experimentation.Base.{
  ◌∙◌, ◌+◌, ◌*◌, ◌≤◌, ◌<◌, ◌≡◌, true, Bool, some, size_mod, wrap, arith, is_some, inl, inr,
  Bool-cases, ltb, ap,
}
use experimentation.Htable.Types.{Callbacks, Htable, Htret}
use experimentation.Htable.Table.{htable_insert}
use experimentation.Htable.Chains.{CallbackLaws}
use experimentation.Htable.Validity.{IsValid, contents}
use experimentation.Htable.Effect.{htable_insert-Inserted}

module _ {ℓ} {K V : Type ℓ} (cb : Callbacks K) where
  -- If a valid table is within its limit, its factor is positive, there is memory for a doubling,
  -- and the doubled size and limit and one more node fit in a size_t, an insertion leaves it within
  -- its limit, on every branch.
  pub htable_insert-le_limit :
      CallbackLaws cb
      → (got_node : Bool) (h : Htable K V) (k : K) (v : V) → IsValid cb h
      → 0 < h.ht_factor
      → h.ht_factor * (h.ht_size * 2) < size_mod
      → h.ht_size * 2 < size_mod
      → h.ht_used + 1 < size_mod
      → h.ht_used ≤ h.ht_limit
      → (r : Htret × Htable K V) × (htable_insert cb got_node true h k v ≡ some r)
        × (r.1.ht_used ≤ r.1.ht_limit)
  htable_insert-le_limit laws got_node h k v valid pos fits room countable within =
      let (r, run, i) = htable_insert-Inserted cb laws h k v valid room countable got_node true in
      let nonempty : 0 < h.ht_factor * h.ht_size = grind (arith, valid.nonempty) in
      (
        r,
        run,
        elim (Bool-cases (is_some (contents cb h k))) [
          | inl e ↦ rw (i.present e) within
          | inr e ↦ elim (Bool-cases got_node) [
            | inr off ↦ rw (i.exhausted e off) within
            | inl on ↦
                let limit : r.1.ht_limit ≡ wrap (h.ht_factor * r.1.ht_size) =
                  rw i.factor at i.valid.limited in
                elim (Bool-cases (ltb h.ht_limit (h.ht_used + 1))) [
                  | inl full ↦
                      let size : r.1.ht_size ≡ h.ht_size * 2 = rw full at (i.size e on) in
                      let limit' : r.1.ht_limit ≡ wrap (h.ht_factor * (h.ht_size * 2)) =
                        limit ∙ ap (λ n. wrap (h.ht_factor * n)) size in
                      omega (arith, limit', i.used e on, valid.limited)
                  | inr roomy ↦
                      let size : r.1.ht_size ≡ h.ht_size = rw roomy at (i.size e on) in
                      let limit' : r.1.ht_limit ≡ wrap (h.ht_factor * h.ht_size) =
                        limit ∙ ap (λ n. wrap (h.ht_factor * n)) size in
                      let below : h.ht_used + 1 ≤ h.ht_limit = ground arith in
                      omega (arith, limit', i.used e on, valid.limited)
                ]
          ]
        ],
      )
