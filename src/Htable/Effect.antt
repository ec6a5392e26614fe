-- ===== src/Htable/Effect.antt =====
-- genstructs/htable/htable.c: what an insertion and a removal do on every branch.
use experimentation.Base.{
  ap, ◌&&◌, ◌+◌, ◌*◌, ◌<◌, ◌≡◌, refl, sym, Bool, true, false, none, some, [], ◌∷◌, ◌++◌, ◌>>=◌,
  length, flatten, size_mod, wrap, arith, if◌then◌else◌, ltb, is_some, set, Option-cases,
  Bool-cases, inl, inr, ◌∙◌,
}
use experimentation.Htable.Types.{Callbacks, Htable, Htret}
use experimentation.Htable.Table.{slot, insert_tail, grow_if_full, htable_insert}
use experimentation.Htable.Chains.{CallbackLaws}
use experimentation.Htable.Layout.{view, home, update, Stores, insert_tail-Stores}
use experimentation.Htable.Grow.{insert_tail-home}
use experimentation.Htable.Validity.{IsValid, contents, get_elem?-home, htable_grow-Grown}

module _ {ℓ} {K V : Type ℓ} (cb : Callbacks K) where
  -- a table after the end of an insertion that put the `used`-th node
  record Settled (got : Bool) (h : Htable K V) (r : Htable K V) : Type ℓ where
    valid : IsValid cb r
    used : r.ht_used ≡ h.ht_used
    factor : r.ht_factor ≡ h.ht_factor
    size : r.ht_size ≡ (if ltb h.ht_limit h.ht_used && got then h.ht_size * 2 else h.ht_size)
    grows : r.ht_grows ≡ (if ltb h.ht_limit h.ht_used then wrap (h.ht_grows + 1) else h.ht_grows)
    reads : (q : K) → contents cb r q ≡ contents cb h q

  grow_if_full-Settled :
      CallbackLaws cb
      → (got : Bool) (h : Htable K V) → IsValid cb h
      → h.ht_size * 2 < size_mod
      → (r : Htable K V) × (grow_if_full cb got h ≡ some r) × Settled got h r
  unfolding grow_if_full
  grow_if_full-Settled laws got h valid room = elim (Bool-cases (ltb h.ht_limit h.ht_used)) [
    | inr e ↦ (
      h,
      rw e,
      record {
        valid = valid;
        used = refl;
        factor = refl;
        size = rw e;
        grows = rw e;
        reads = λ q. refl;
      },
    )
    | inl e ↦
        let (r, run, g) = htable_grow-Grown cb laws got h valid room in
        (
          record (r.1) { ht_grows = wrap (r.1.ht_grows + 1) },
          rw (e, run),
          record {
            valid = record {
              nonempty = g.valid.nonempty;
              sized = g.valid.sized;
              width = g.valid.width;
              counted = g.valid.counted;
              limited = g.valid.limited;
              placed = g.valid.placed;
            };
            used = g.used;
            factor = g.factor;
            size = rw e g.size;
            grows = rw (e, g.grows);
            reads = g.reads;
          },
        )
  ]

  -- the outcome of `htable_insert` of `v` under `k`
  pub record Inserted (got_node got_table : Bool) (h : Htable K V) (k : K) (v : V)
      (r : Htret × Htable K V) : Type ℓ where
    pub valid : IsValid cb r.1
    pub factor : r.1.ht_factor ≡ h.ht_factor
    pub present : is_some (contents cb h k) ≡ true → r ≡ (Htret.exists, h)
    pub exhausted : is_some (contents cb h k) ≡ false → got_node ≡ false → r ≡ (Htret.nomem, h)
    pub returns : is_some (contents cb h k) ≡ false → got_node ≡ true → r.0 ≡ Htret.ok
    pub used : is_some (contents cb h k) ≡ false → got_node ≡ true → r.1.ht_used ≡ h.ht_used + 1
    pub size :
        is_some (contents cb h k) ≡ false
        → got_node ≡ true
        → r.1.ht_size
          ≡ (if ltb h.ht_limit (h.ht_used + 1) && got_table then h.ht_size * 2 else h.ht_size)
    pub reads :
        is_some (contents cb h k) ≡ false
        → got_node ≡ true
        → (q : K) → contents cb r.1 q ≡ update cb (contents cb h) k (some v) q

  module _ (laws : CallbackLaws cb) (h : Htable K V) (k : K) (v : V) (valid : IsValid cb h)
      (room : h.ht_size * 2 < size_mod) (countable : h.ht_used + 1 < size_mod) where
    -- the new node is in its chain, and counted
    put : Htable K V
    put = record h {
      ht_table =
          set h.ht_table (slot cb k (length h.ht_table))
            (home cb h.ht_table k ++ record { hn_key = k; hn_data = v } ∷ []);
      ht_used = wrap (h.ht_used + 1);
    }

    put-Stores :
        contents cb h k ≡ none
        → Stores cb
            (length h.ht_table)
            (length (flatten h.ht_table) + 1)
            (update cb (contents cb h) k (some v))
            put.ht_table
    unfolding put
    put-Stores absent =
        insert_tail-Stores cb laws h.ht_table (omega (arith, valid.nonempty, valid.width))
          (omega (arith, valid.sized, valid.width)) valid.placed k v absent

    put-IsValid : contents cb h k ≡ none → IsValid cb put
    unfolding put
    put-IsValid absent =
        let t = put-Stores absent in
        record {
          nonempty = valid.nonempty;
          sized = valid.sized;
          width = t.width ∙ valid.width;
          counted = omega (arith, t.nodes, valid.counted);
          limited = valid.limited;
          placed = t.placed;
        }

    insert_tail-put :
        insert_tail (slot cb k h.ht_size) (record { hn_key = k; hn_data = v }) h.ht_table
        ≡ some put.ht_table
    unfolding put
    insert_tail-put =
        insert_tail-home cb h.ht_size h.ht_table k (record { hn_key = k; hn_data = v })
          (sym valid.width) valid.nonempty valid.sized

    -- On a valid table, with callbacks that compare by an equivalence which the hash respects, and
    -- with room in a size_t for a doubled size and one more node, htable_insert never leaves the
    -- array and keeps the table valid. A key that is there gives HT_EXISTS and no memory for the
    -- node HT_NOMEM, both with the table unchanged; else the table, seen as a map, is updated at
    -- the key and nowhere else, one more node is counted, and the array is doubled exactly if the
    -- count exceeds the limit and there is memory.
    pub htable_insert-Inserted :
        (got_node got_table : Bool)
        → (r : Htret × Htable K V) × (htable_insert cb got_node got_table h k v ≡ some r)
          × Inserted got_node got_table h k v r
    unfolding htable_insert view put
    htable_insert-Inserted got_node got_table = elim (Option-cases (contents cb h k)) [
      | inr (old, e) ↦ (
        (Htret.exists, h),
        rw (get_elem?-home cb k valid, ◌>>=◌, e),
        record {
          valid = valid;
          factor = refl;
          present = λ _. refl;
          exhausted = λ a. absurd (cc (a, e));
          returns = λ a. absurd (cc (a, e));
          used = λ a. absurd (cc (a, e));
          size = λ a. absurd (cc (a, e));
          reads = λ a. absurd (cc (a, e));
        },
      )
      | inl e ↦ elim (Bool-cases got_node) [
        | inr off ↦ (
          (Htret.nomem, h),
          rw (get_elem?-home cb k valid, ◌>>=◌, e, off),
          record {
            valid = valid;
            factor = refl;
            present = λ a. absurd (cc (a, e));
            exhausted = λ _ _. refl;
            returns = λ _ a. absurd (cc (a, off));
            used = λ _ a. absurd (cc (a, off));
            size = λ _ a. absurd (cc (a, off));
            reads = λ _ a. absurd (cc (a, off));
          },
        )
        | inl on ↦
            let whole : wrap (h.ht_used + 1) ≡ h.ht_used + 1 = omega arith in
            let (r, run, g) = grow_if_full-Settled laws got_table put (put-IsValid e) room in
            (
              (Htret.ok, r),
              rw (get_elem?-home cb k valid, ◌>>=◌, e, on, insert_tail-put) (rw run),
              record {
                valid = g.valid;
                factor = g.factor;
                present = λ a. absurd (cc (a, e));
                exhausted = λ _ a. absurd (cc (a, on));
                returns = λ _ _. refl;
                used = λ _ _. omega (arith, g.used);
                size = λ _ _.
                    g.size
                    ∙ ap (λ n. if ltb h.ht_limit n && got_table then h.ht_size * 2 else h.ht_size)
                        whole;
                reads = λ _ _ q. g.reads q ∙ (put-Stores e).reads q;
              },
            )
      ]
    ]
