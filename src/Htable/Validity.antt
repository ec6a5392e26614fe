-- ===== src/Htable/Validity.antt =====
-- genstructs/htable/htable.c: what holds of a table between two calls, and what a search and a
-- doubling do to it.
use experimentation.Base.{
  none, ◌>>=◌, replicate, leb, ◌/◌, ◌^◌, ◌∙◌, ℕ, ◌*◌, ◌<◌, ◌≡◌, refl, Bool, true, false, Option,
  some, [], length, get_elem?, flatten, size_mod, wrap, arith, get_elem?-get_or, if◌then◌else◌,
}
use experimentation.Htable.Types.{Callbacks, Htable, Htret}
use experimentation.Htable.Table.{slot, htable_search, htable_grow}
use experimentation.Htable.Walk.{htable_init, init_heads, head_size}
use experimentation.Htable.Chains.{CallbackLaws}
use experimentation.Htable.Layout.{IsPlaced, view, home, slot-lt, replicate-Stores}
use experimentation.Htable.Grow.{rehash-Stores}

module _ {ℓ} {K V : Type ℓ} (cb : Callbacks K) where
  pub record IsValid (h : Htable K V) : Type ℓ where
    pub nonempty : 0 < h.ht_size
    pub sized : h.ht_size < size_mod
    pub width : length h.ht_table ≡ h.ht_size
    pub counted : length (flatten h.ht_table) ≡ h.ht_used
    pub limited : h.ht_limit ≡ wrap (h.ht_factor * h.ht_size)
    pub placed : IsPlaced cb h.ht_table

  -- the map that a table stands for
  abbrev pub contents : Htable K V → K → Option V
  contents h = view cb h.ht_table

  pub init_heads-replicate :
      (size : ℕ)
      → size < 2 ^ 60
      → init_heads {K = K} {V = V} (wrap (size * head_size) / head_size) size
        ≡ some (replicate size [])
  unfolding init_heads
  init_heads-replicate size small =
      let on : leb size (wrap (size * head_size) / head_size) ≡ true = ground arith in rw on refl

  -- a table of empty chains
  abbrev pub fresh_table : ℕ → ℕ → Htable K V
  fresh_table size factor = record {
    ht_grows = 0;
    ht_size = size;
    ht_used = 0;
    ht_factor = factor;
    ht_limit = wrap (factor * size);
    ht_table = replicate size [];
  }

  pub htable_init-fresh_table :
      (size factor : ℕ)
      → size < 2 ^ 60
      → htable_init true size factor ≡ some (Htret.ok, some (fresh_table size factor))
  unfolding htable_init
  htable_init-fresh_table size factor small = rw (init_heads-replicate size small, ◌>>=◌) refl

  pub htable_init-nomem :
      (size factor : ℕ) → htable_init {K = K} {V = V} false size factor ≡ some (Htret.nomem, none)
  unfolding htable_init
  htable_init-nomem size factor = refl

  pub fresh_table-IsValid :
      (size factor : ℕ) → 0 < size → size < 2 ^ 60 → IsValid (fresh_table size factor)
  fresh_table-IsValid size factor positive small =
      let t = replicate-Stores {K = K} {V = V} cb size in
      record {
        nonempty = positive;
        sized = omega arith;
        width = t.width;
        counted = t.nodes;
        limited = refl;
        placed = t.placed;
      }

  pub get_elem?-home :
      {h : Htable K V} (k : K)
      → IsValid h
      → get_elem? h.ht_table (slot cb k h.ht_size) ≡ some (home cb h.ht_table k)
  get_elem?-home {h} k valid = rw (← valid.width) (
      get_elem?-get_or h.ht_table (slot cb k (length h.ht_table)) [] (
        slot-lt cb k (length h.ht_table) (rw valid.width valid.nonempty)
          (rw valid.width valid.sized)))

  -- `htable_search` of a valid table stays in the array, and reads the map
  pub htable_search-contents :
      {h : Htable K V} (k : K) → IsValid h → htable_search cb h k ≡ some (contents h k)
  unfolding htable_search view
  htable_search-contents k valid = rw (get_elem?-home k valid)

  -- a doubling, or one for which there was no memory
  pub record Grown (got : Bool) (h : Htable K V) (r : Htret × Htable K V) : Type ℓ where
    pub returns : r.0 ≡ (if got then Htret.ok else Htret.nomem)
    pub valid : IsValid r.1
    pub size : r.1.ht_size ≡ (if got then h.ht_size * 2 else h.ht_size)
    pub used : r.1.ht_used ≡ h.ht_used
    pub factor : r.1.ht_factor ≡ h.ht_factor
    pub grows : r.1.ht_grows ≡ h.ht_grows
    pub reads : (q : K) → contents r.1 q ≡ contents h q

  -- On a valid table, with callbacks that agree and a doubled size that fits in a size_t,
  -- htable_grow never leaves the array, keeps the table valid, and keeps every key with its data.
  -- With memory it doubles the array and answers HT_OK; without it answers HT_NOMEM and leaves the
  -- size.
  pub htable_grow-Grown :
      CallbackLaws cb
      → (got : Bool) (h : Htable K V) → IsValid h
      → h.ht_size * 2 < size_mod
      → (r : Htret × Htable K V) × (htable_grow cb got h ≡ some r) × Grown got h r
  unfolding htable_grow
  htable_grow-Grown laws false h valid room = (
    (Htret.nomem, h),
    refl,
    record {
      returns = refl;
      valid = valid;
      size = refl;
      used = refl;
      factor = refl;
      grows = refl;
      reads = λ q. refl;
    },
  )
  htable_grow-Grown laws true h valid room =
      let n = wrap (h.ht_size * 2) in
      let doubled : wrap (h.ht_size * 2) ≡ h.ht_size * 2 = omega arith in
      let (bs, run, t) =
        rehash-Stores cb laws n h.ht_table (omega (arith, valid.nonempty)) (omega arith)
          valid.placed in
      (
        (Htret.ok, record h { ht_table = bs; ht_size = n; ht_limit = wrap (h.ht_factor * n) }),
        rw run,
        record {
          returns = refl;
          valid = record {
            nonempty = omega (arith, valid.nonempty);
            sized = omega arith;
            width = t.width;
            counted = t.nodes ∙ valid.counted;
            limited = refl;
            placed = t.placed;
          };
          size = doubled;
          used = refl;
          factor = refl;
          grows = refl;
          reads = t.reads;
        },
      )
