-- ===== src/Htable/Chains.antt =====
-- genstructs/htable/htable.c: one chain, and what the table asks of its callbacks.
use experimentation.Base.{
  inr, inl, Option-cases, ℕ, ◌+◌, ◌≤◌, ◌≡◌, refl, Bool, true, false, none, some, [], ◌∷◌, ◌++◌,
  if◌then◌else◌, ◌>>=◌, or_else, length, arith,
}
use experimentation.Htable.Types.{Hnode, Callbacks, Chain}
use experimentation.Htable.Table.{is_same, find, unlink}

-- `ht_cmpf` answers 0 on an equivalence, and keys that it identifies have one hash
pub record CallbackLaws {ℓ} {K : Type ℓ} (cb : Callbacks K) : Type ℓ where
  pub same_refl : (a : K) → is_same cb a a ≡ true
  pub same_symm : (a b : K) → is_same cb a b ≡ is_same cb b a
  pub same_trans :
      (a b c : K) → is_same cb a b ≡ true → is_same cb b c ≡ true → is_same cb a c ≡ true
  pub hash-same : (a b : K) → is_same cb a b ≡ true → cb.hashf a ≡ cb.hashf b

abbrev pub to_nat : Bool → ℕ
to_nat true = 1
to_nat false = 0

module _ {ℓ} {K : Type ℓ} {cb : Callbacks K} (laws : CallbackLaws cb) where
  pub same_congr : (a b q : K) → is_same cb a b ≡ true → is_same cb a q ≡ is_same cb b q
  same_congr a b q e =
      ground (arith, laws.same_symm a b, laws.same_trans a b q, laws.same_trans b a q)

-- how many nodes of a chain have the key
module _ {ℓ} {K V : Type ℓ} (cb : Callbacks K) where
  unfoldable pub hits : K → Chain K V → ℕ
  hits q [] = 0
  hits q (pnode ∷ c) = to_nat (is_same cb pnode.hn_key q) + hits q c

  pub find-eq-none : (q : K) (c : Chain K V) → hits q c ≡ 0 → find cb q c ≡ none
  unfolding hits find
  find-eq-none q [] h = refl
  find-eq-none q (pnode ∷ c) h = ground (arith, find-eq-none q c)

  -- behind the node that a chain has once under the key there is no other
  find-tail :
      (q : K) (pnode : Hnode K V) (c : Chain K V)
      → hits q (pnode ∷ c) ≤ 1
      → is_same cb pnode.hn_key q ≡ true
      → find cb q c ≡ none
  unfolding hits
  find-tail q pnode c once e =
      let zero_hits : hits q c ≡ 0 = ground arith in find-eq-none q c zero_hits

  pub hits-append : (q : K) (a b : Chain K V) → hits q (a ++ b) ≡ hits q a + hits q b
  unfolding hits
  hits-append q [] b = omega arith
  hits-append q (pnode ∷ a) b = omega (arith, hits-append q a b)

  pub find-append :
      (q : K) (a b : Chain K V) → find cb q (a ++ b) ≡ or_else (find cb q a) (find cb q b)
  unfolding find
  find-append q [] b = refl
  find-append q (pnode ∷ a) b = ground (arith, find-append q a b)

  -- the loop of a removal finds a node exactly where the loop of a search finds its data
  pub unlink-find :
      (k : K) (c : Chain K V) → find cb k c ≡ (unlink cb k c >>= λ r. some r.0.hn_data)
  unfolding find unlink
  unlink-find k [] = refl
  unlink-find k (pnode ∷ c) = ground (arith, unlink-find k c)

  pub length-unlink :
      (k : K) (c : Chain K V) {r : Hnode K V × Chain K V}
      → unlink cb k c ≡ some r
      → length r.1 + 1 ≡ length c
  unfolding unlink
  length-unlink k [] h = ground arith
  length-unlink k (pnode ∷ c) h = elim (Option-cases (unlink cb k c)) [
    | inl e ↦ ground arith
    | inr (r', e) ↦ ground (arith, length-unlink k c e)
  ]

  pub unlink-same :
      (k : K) (c : Chain K V) {r : Hnode K V × Chain K V}
      → unlink cb k c ≡ some r
      → is_same cb r.0.hn_key k ≡ true
  unfolding unlink
  unlink-same k [] h = ground arith
  unlink-same k (pnode ∷ c) h = elim (Option-cases (unlink cb k c)) [
    | inl e ↦ ground arith
    | inr (r', e) ↦ ground (arith, unlink-same k c e)
  ]

  module _ (laws : CallbackLaws cb) where
    pub find_congr : (a b : K) (c : Chain K V) → is_same cb a b ≡ true → find cb a c ≡ find cb b c
    unfolding find
    find_congr a b [] e = refl
    find_congr a b (pnode ∷ c) e = ground (
      arith,
      find_congr a b c e,
      laws.same_symm a b,
      laws.same_trans pnode.hn_key a b,
      laws.same_trans pnode.hn_key b a,
    )

    pub hits-eq-zero :
        (k q : K) (c : Chain K V) → find cb k c ≡ none → is_same cb k q ≡ true → hits q c ≡ 0
    unfolding hits find
    hits-eq-zero k q [] h e = refl
    hits-eq-zero k q (pnode ∷ c) h e =
        ground (arith, hits-eq-zero k q c, laws.same_symm k q, laws.same_trans pnode.hn_key q k)

    pub hits-unlink :
        (k q : K) (c : Chain K V) {r : Hnode K V × Chain K V}
        → unlink cb k c ≡ some r
        → hits q r.1 + to_nat (is_same cb k q) ≡ hits q c
    unfolding hits unlink
    hits-unlink k q [] h = ground arith
    hits-unlink k q (pnode ∷ c) h = elim (Option-cases (unlink cb k c)) [
      | inl e ↦ ground (arith, same_congr laws pnode.hn_key k q)
      | inr (r', e) ↦ ground (arith, hits-unlink k q c e, same_congr laws pnode.hn_key k q)
    ]

    -- in a chain that has the key once, removing it hides it and nothing else
    pub find-unlink :
        (k q : K) (c : Chain K V) {r : Hnode K V × Chain K V}
        → hits q c ≤ 1
        → unlink cb k c ≡ some r
        → find cb q r.1 ≡ (if is_same cb k q then none else find cb q c)
    unfolding find unlink hits
    find-unlink k q [] once h = ground arith
    find-unlink k q (pnode ∷ c) once h =
        let same = same_congr laws pnode.hn_key k q in
        let absent = find-tail q pnode c once in
        let fewer : hits q c ≤ 1 = omega arith in
        elim (Option-cases (unlink cb k c)) [
          | inl e ↦ ground (arith, same, absent)
          | inr (r', e) ↦ ground (
            arith,
            same,
            absent,
            find-unlink k q c fewer e,
            laws.same_symm k q,
            laws.same_trans pnode.hn_key q k,
          )
        ]
