-- ===== src/Htable/Removal.antt =====
-- genstructs/htable/htable.c, `htable_remove` and `htable_free_obj`: what a removal does.
use experimentation.Base.{
  ap, ◌-◌, length-flatten-set, ◌+◌, ◌<◌, ◌≡◌, refl, sym, ◌∙◌, true, false, none, some, [], ◌∷◌,
  ◌>>=◌, length, size_mod, dec, arith, is_some, set, Option-cases, inl, inr, Option-cases,
}
use experimentation.Htable.Types.{Callbacks, Htable, Htret, Freed}
use experimentation.Htable.Table.{is_same, slot, unlink, htable_remove, htable_free_obj}
use experimentation.Htable.Memory.{free_contents}
use experimentation.Htable.Chains.{CallbackLaws, unlink-find, length-unlink, unlink-same}
use experimentation.Htable.Layout.{view, home, update, unlink-Stores, slot-lt}
use experimentation.Htable.Validity.{IsValid, contents, get_elem?-home}

module _ {ℓ} {K V : Type ℓ} (cb : Callbacks K) where
  -- the outcome of `htable_remove` of `k`
  pub record Removed (h : Htable K V) (k : K) (r : Htret × Htable K V) : Type ℓ where
    pub valid : IsValid cb r.1
    pub missing : is_some (contents cb h k) ≡ false → r ≡ (Htret.notfound, h)
    pub returns : is_some (contents cb h k) ≡ true → r.0 ≡ Htret.ok
    pub used : is_some (contents cb h k) ≡ true → r.1.ht_used + 1 ≡ h.ht_used
    pub size : r.1.ht_size ≡ h.ht_size
    pub reads :
        is_some (contents cb h k) ≡ true
        → (q : K) → contents cb r.1 q ≡ update cb (contents cb h) k none q

  -- On a valid table, with callbacks that compare by an equivalence which the hash respects and a
  -- count that fits in a size_t, htable_remove never leaves the array and keeps the table valid. A
  -- key that is not there gives HT_NOTFOUND and changes nothing; else the table, seen as a map,
  -- loses the key and nothing else, and one node less is counted.
  pub htable_remove-Removed :
      CallbackLaws cb
      → (h : Htable K V) (k : K) → IsValid cb h
      → h.ht_used < size_mod
      → (r : Htret × Htable K V) × (htable_remove cb h k ≡ some r) × Removed h k r
  unfolding htable_remove view
  htable_remove-Removed laws h k valid countable =
      let found = unlink-find cb k (home cb h.ht_table k) in
      elim (Option-cases (unlink cb k (home cb h.ht_table k))) [
        | inl e ↦ (
          (Htret.notfound, h),
          rw (get_elem?-home cb k valid, ◌>>=◌, e),
          record {
            valid = valid;
            missing = λ _. refl;
            returns = λ a. absurd (cc (a, e, found));
            used = λ a. absurd (cc (a, e, found));
            size = refl;
            reads = λ a. absurd (cc (a, e, found));
          },
        )
        | inr (r, e) ↦
            let n = length h.ht_table in
            let inside =
              slot-lt cb k n (omega (arith, valid.nonempty, valid.width))
                (omega (arith, valid.sized, valid.width)) in
            let few = length-flatten-set h.ht_table (slot cb k n) r.1 inside in
            let filled : 0 < h.ht_used =
              omega (arith, few, length-unlink cb k (home cb h.ht_table k) e, valid.counted) in
            let t =
              unlink-Stores cb laws h.ht_table (omega (arith, valid.nonempty, valid.width))
                (omega (arith, valid.sized, valid.width)) valid.placed k {total = h.ht_used - 1}
                (omega (arith, valid.counted)) e in
            let same : slot cb k h.ht_size ≡ slot cb k n = ap (slot cb k) (sym valid.width) in
            (
              (
                Htret.ok,
                record h { ht_table = set h.ht_table (slot cb k n) r.1; ht_used = dec h.ht_used },
              ),
              rw (get_elem?-home cb k valid, ◌>>=◌, e, same),
              record {
                valid = record {
                  nonempty = valid.nonempty;
                  sized = valid.sized;
                  width = t.width ∙ valid.width;
                  counted = omega (arith, t.nodes);
                  limited = valid.limited;
                  placed = t.placed;
                };
                missing = λ a. absurd (cc (a, e, found));
                returns = λ _. refl;
                used = λ _. omega arith;
                size = refl;
                reads = λ _ q. t.reads q;
              },
            )
      ]

  -- On a valid table that has the key, htable_free_obj leaves what htable_remove leaves; asked for
  -- both, it frees the key of the node, its data, and the node, in this order, and nothing else,
  -- and the data are those that a search gave.
  pub htable_free_obj-remove :
      (h : Htable K V) (k : K) (v : V)
      → IsValid cb h
      → contents cb h k ≡ some v
      → (h' : Htable K V) × (key : K) × (htable_remove cb h k ≡ some (Htret.ok, h'))
        × (htable_free_obj cb h k 3
            ≡ some (
              Htret.ok,
              h',
              Freed.key key
                  ∷ Freed.datum v
                  ∷ Freed.node (record { hn_key = key; hn_data = v })
                  ∷ [],
            ))
        × (is_same cb key k ≡ true)
  unfolding htable_free_obj htable_remove view free_contents
  htable_free_obj-remove h k v valid found =
      elim (Option-cases (unlink cb k (home cb h.ht_table k))) [
        | inl e ↦ absurd (cc (e, found, unlink-find cb k (home cb h.ht_table k)))
        | inr (r, e) ↦
            let data_eq : r.0.hn_data ≡ v =
              cc (e, found, unlink-find cb k (home cb h.ht_table k)) in
            (
              record h {
                ht_table = set h.ht_table (slot cb k h.ht_size) r.1;
                ht_used = dec h.ht_used;
              },
              r.0.hn_key,
              rw (get_elem?-home cb k valid, ◌>>=◌, e),
              rw (get_elem?-home cb k valid, ◌>>=◌, e, ← data_eq),
              unlink-same cb k (home cb h.ht_table k) e,
            )
      ]
