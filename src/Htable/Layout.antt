-- ===== src/Htable/Layout.antt =====
-- genstructs/htable/htable.c: where the nodes stand, what the table means as a map, and one write.
use experimentation.Base.{
  Bool-cases, inl, inr, ◌==◌, ℕ, ◌+◌, ◌≤◌, ◌<◌, ◌≡◌, ◌≢◌, refl, true, false, Option, none, some,
  List, [], ◌∷◌, ◌++◌, if◌then◌else◌, length, get_or, set, max, size_mod, dec, bit_and-le,
  get_or-set, length-set, length-append, length-flatten-set, flatten, replicate, length-replicate,
  get_or-replicate, flatten-replicate, arith, ap,
}
use experimentation.Htable.Types.{Hnode, Callbacks, Chain}
use experimentation.Htable.Table.{is_same, slot, find, unlink}
use experimentation.Htable.Chains.{
  CallbackLaws, to_nat, hits, find-eq-none, hits-append, find-append, length-unlink, hits-eq-zero,
  hits-unlink, find-unlink, find_congr,
}

module _ {ℓ} {K : Type ℓ} (cb : Callbacks K) where
  -- a masked hash is a place of the array, whether or not the size is a power of 2
  pub slot-lt : (k : K) (n : ℕ) → 0 < n → n < size_mod → slot cb k n < n
  unfolding slot
  slot-lt k n p q = omega (arith, bit_and-le (cb.hashf k) (dec n))

  pub slot_congr :
      CallbackLaws cb → (a b : K) (n : ℕ) → is_same cb a b ≡ true → slot cb a n ≡ slot cb b n
  unfolding slot
  slot_congr laws a b n e = rw (laws.hash-same a b e)

module _ {ℓ} {K V : Type ℓ} (cb : Callbacks K) where
  -- the chain that the code searches for the key
  abbrev pub home : List (Chain K V) → K → Chain K V
  home bs k = get_or bs (slot cb k (length bs)) []

  -- a key is in the table at most once, and only in its home chain
  abbrev pub IsPlaced : List (Chain K V) → Type ℓ
  IsPlaced bs =
      (q : K) (i : ℕ)
      → (hits cb q (get_or bs i []) ≤ 1)
        × (slot cb q (length bs) ≢ i → hits cb q (get_or bs i []) ≡ 0)

  -- the table as a map from keys to data
  unfoldable pub view : List (Chain K V) → K → Option V
  view bs q = find cb q (home bs q)

  -- keys that compare equal read the same data
  pub view_congr :
      CallbackLaws cb
      → (bs : List (Chain K V)) (a b : K) → is_same cb a b ≡ true
      → view bs a ≡ view bs b
  unfolding view
  view_congr laws bs a b e =
      rw (slot_congr cb laws a b (length bs) e) (find_congr cb laws a b (home bs b) e)

  abbrev pub update : (K → Option V) → K → Option V → K → Option V
  update f k v q = if is_same cb k q then v else f q

  -- `bs` has `n` chains and `total` nodes, every node in its place, and reads as `f`
  pub record Stores (n total : ℕ) (f : K → Option V) (bs : List (Chain K V)) : Type ℓ where
    pub width : length bs ≡ n
    pub nodes : length (flatten bs) ≡ total
    pub placed : IsPlaced bs
    pub reads : (q : K) → view bs q ≡ f q

  pub replicate-Stores : (n : ℕ) → Stores n 0 (λ _. none) (replicate n [])
  unfolding view hits find
  replicate-Stores n = record {
    width = length-replicate n [];
    nodes = ap length (flatten-replicate n);
    placed = λ q i. rw get_or-replicate (omega arith, λ _. refl);
    reads = λ q. rw get_or-replicate;
  }

  module _ (laws : CallbackLaws cb) (bs : List (Chain K V)) (pos : 0 < length bs)
      (small : length bs < size_mod) (placed : IsPlaced bs) (k : K) where
    -- every write replaces the home chain of a key
    pub set-Stores :
        (v : Option V) (c : Chain K V) (total : ℕ)
        → total + length (home bs k) ≡ length (flatten bs) + length c
        → ((q : K) → hits cb q c ≤ max (to_nat (is_same cb k q)) (hits cb q (home bs k)))
        → ((q : K) → find cb q c ≡ (if is_same cb k q then v else find cb q (home bs k)))
        → Stores (length bs) total (update (view bs) k v) (set bs (slot cb k (length bs)) c)
    unfolding view
    set-Stores v c total size few reads = record {
      width = length-set bs _ c;
      nodes = omega (arith, length-flatten-set bs _ c inside);
      placed = λ q j.
          rw (length-set, get_or-set bs (slot cb k (length bs)) j c [] inside)
            (ground (arith, placed q j, few q, slot_congr cb laws k q (length bs)));
      reads = λ q.
          rw (length-set, get_or-set bs (slot cb k (length bs)) (slot cb q (length bs)) c [] inside)
            (elim (Bool-cases (slot cb k (length bs) == slot cb q (length bs))) [
              | inl e ↦
                  let same_slot : slot cb k (length bs) ≡ slot cb q (length bs) = ground arith in
                  rw e (rw (← same_slot) (reads q))
              | inr e ↦
                  let other : is_same cb k q ≡ false =
                    ground (arith, slot_congr cb laws k q (length bs)) in
                  rw (e, other)
            ]);
    }
      where
        inside : slot cb k (length bs) < length bs
        inside = slot-lt cb k (length bs) pos small

    pub insert_tail-Stores :
        (v : V)
        → view bs k ≡ none
        → Stores
            (length bs)
            (length (flatten bs) + 1)
            (update (view bs) k (some v))
            (set bs (slot cb k (length bs)) (home bs k ++ record { hn_key = k; hn_data = v } ∷ []))
    unfolding view hits find
    insert_tail-Stores v absent =
        let old = home bs k in
        set-Stores (some v) _ _ (rw length-append (omega arith))
          (λ q. rw hits-append (ground (arith, hits-eq-zero cb laws k q old)))
          (λ q.
            let absent' : is_same cb k q ≡ true → find cb q old ≡ none =
              λ e. find-eq-none cb q old (hits-eq-zero cb laws k q old absent e) in
            rw find-append (ground arith))

    pub unlink-Stores :
        {r : Hnode K V × Chain K V} {total : ℕ}
        → total + 1 ≡ length (flatten bs)
        → unlink cb k (home bs k) ≡ some r
        → Stores (length bs) total (update (view bs) k none) (set bs (slot cb k (length bs)) r.1)
    unfolding view
    unlink-Stores {r} size e =
        let old = home bs k in
        set-Stores none r.1 _ (omega (arith, length-unlink cb k old e))
          (λ q. omega (arith, hits-unlink cb laws k q old e))
          (λ q. find-unlink cb laws k q old (placed q _).0 e)
