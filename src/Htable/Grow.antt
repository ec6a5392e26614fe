-- ===== src/Htable/Grow.antt =====
-- genstructs/htable/htable.c, `htable_grow`: doubling moves every node and loses none.
use experimentation.Base.{
  inr, inl, Bool-cases, or_else-none, sym, set, ℕ, ◌+◌, ◌≤◌, ◌<◌, ◌≡◌, refl, false, none, some,
  List, [], ◌∷◌, ◌++◌, ◌>>=◌, bind_assoc, or_else, length, flatten, arith, ◌∙◌, fun_ext, size_mod,
  get_elem?-get_or, replicate,
}
use experimentation.Htable.Types.{Hnode, Callbacks, Chain}
use experimentation.Htable.Table.{is_same, slot, find, insert_tail, rehash_chain, rehash}
use experimentation.Htable.Chains.{CallbackLaws, hits}
use experimentation.Htable.Layout.{
  IsPlaced, view, home, Stores, slot-lt, replicate-Stores, insert_tail-Stores,
}
use experimentation.Htable.Flatten.{flatten-view}

module _ {ℓ} {K V : Type ℓ} (cb : Callbacks K) where
  rehash_chain-append :
      (n : ℕ) (a b : Chain K V) (fresh : List (Chain K V))
      → rehash_chain cb n (a ++ b) fresh ≡ (rehash_chain cb n a fresh >>= rehash_chain cb n b)
  unfolding rehash_chain
  rehash_chain-append n [] b fresh = refl
  rehash_chain-append n (pnode ∷ a) b fresh = simp (bind_assoc, rehash_chain-append n a b)

  -- the two nested loops are one loop over all the nodes
  rehash-flatten :
      (n : ℕ) (bs fresh : List (Chain K V))
      → rehash cb n bs fresh ≡ rehash_chain cb n (flatten bs) fresh
  unfolding rehash flatten
  rehash-flatten n [] fresh = unfold rehash_chain in refl
  rehash-flatten n (c ∷ bs) fresh =
      rw (rehash_chain-append n c (flatten bs) fresh, ← fun_ext (rehash-flatten n bs))

  pub insert_tail-home :
      (n : ℕ) (bs : List (Chain K V)) (k : K) (pnode : Hnode K V)
      → n ≡ length bs
      → 0 < n
      → n < size_mod
      → insert_tail (slot cb k n) pnode bs
        ≡ some (set bs (slot cb k (length bs)) (home cb bs k ++ pnode ∷ []))
  unfolding insert_tail
  insert_tail-home n bs k pnode width pos small =
      let inside : slot cb k n < length bs = rw (← width) (slot-lt cb k n pos small) in
      rw (get_elem?-get_or bs (slot cb k n) [] inside) (rw width)

  module _ (laws : CallbackLaws cb) where
    -- the new array gets the nodes `es` on top of those that it has, if no key is in both
    rehash_chain-Stores :
        (n : ℕ) (es : Chain K V) (fresh : List (Chain K V))
        → n ≡ length fresh
        → 0 < n
        → n < size_mod
        → IsPlaced cb fresh
        → ((q : K) → hits cb q es ≤ 1)
        → ((q : K) → 0 < hits cb q es → view cb fresh q ≡ none)
        → (r : List (Chain K V)) × (rehash_chain cb n es fresh ≡ some r)
          × Stores cb n
              (length (flatten fresh) + length es)
              (λ q. or_else (view cb fresh q) (find cb q es))
              r
    unfolding rehash_chain hits find
    rehash_chain-Stores n [] fresh width pos small placed once apart = (
      fresh,
      refl,
      record {
        width = sym width;
        nodes = omega arith;
        placed = placed;
        reads = λ q. sym (or_else-none (view cb fresh q));
      },
    )
    rehash_chain-Stores n (pnode ∷ es) fresh width pos small placed once apart =
        let key = pnode.hn_key in
        let step =
          insert_tail-Stores cb laws fresh (omega arith) (omega arith) placed key pnode.hn_data
            (apart key (rw laws.same_refl (omega arith))) in
        let fewer : (q : K) → hits cb q es ≤ 1 = λ q. omega (arith, once q) in
        let apart' : (q : K)
            → 0 < hits cb q es
            → view cb (set fresh (slot cb key (length fresh)) (home cb fresh key ++ pnode ∷ [])) q
              ≡ none =
          λ q some_hit.
            let other : is_same cb key q ≡ false = ground (arith, once q) in
            rw (step.reads q, other) (apart q (omega arith)) in
        let (r, run, t) =
          rehash_chain-Stores n es _ (width ∙ sym step.width) pos small step.placed fewer apart' in
        (
          r,
          rw (insert_tail-home n fresh key pnode width pos small) run,
          record {
            width = t.width;
            nodes = omega (arith, t.nodes, step.nodes);
            placed = t.placed;
            reads = λ q.
                rw (t.reads q, step.reads q)
                  (elim (Bool-cases (is_same cb key q)) [
                    | inl e ↦ rw (e, apart q (rw e (omega arith)))
                    | inr e ↦ rw e
                  ]);
          },
        )

    -- `htable_grow` never leaves the array; with memory it doubles the array and keeps every node and
    -- the data of every key, and without it changes nothing
    pub rehash-Stores :
        (n : ℕ) (bs : List (Chain K V))
        → 0 < n
        → n < size_mod
        → IsPlaced cb bs
        → (r : List (Chain K V)) × (rehash cb n bs (replicate n []) ≡ some r)
          × Stores cb n (length (flatten bs)) (view cb bs) r
    rehash-Stores n bs pos small placed =
        let start = replicate-Stores {K = K} {V = V} cb n in
        let (r, run, t) =
          rehash_chain-Stores n (flatten bs) (replicate n []) (sym start.width) pos small
            start.placed (λ q. (flatten-view cb bs q placed).1) (λ q _. start.reads q) in
        (
          r,
          rw (rehash-flatten n bs (replicate n [])) run,
          record {
            width = t.width;
            nodes = omega (arith, t.nodes, start.nodes);
            placed = t.placed;
            reads = λ q. rw (t.reads q, start.reads q) (flatten-view cb bs q placed).0;
          },
        )
