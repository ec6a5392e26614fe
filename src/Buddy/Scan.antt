-- ===== src/Buddy/Scan.antt =====
-- buddy/mpool.c, `mpool_alloc`: which block the search chooses.
use experimentation.Base.{
  Bool-cases, List, Option, Option-cases, [], arith, false, inl, inr, leb, ltb, max, none, refl,
  some, suc, true, ℕ, ◌&&◌, ◌+◌, ◌<◌, ◌>>=◌, ◌^◌, ◌∷◌, ◌≡◌, ◌≢◌, ◌≤◌, ◌⊎◌,
}
use experimentation.Buddy.Blocks.{remove_node, remove_row}
use experimentation.Buddy.Levels.{Levels, OnLevel}
use experimentation.Buddy.Pool.{first_avail, scan}
use experimentation.Buddy.Sums.{
  begins, remove_row-none, remove_row-skip, row_sum, row_sum-remove_row, total, total-remove_node,
}
use experimentation.Buddy.Types.{Blknode}
use experimentation.Buddy.Unlink.{remove_node-here, remove_node-next}
use experimentation.Buddy.Valid.{shift-lt, total_mono}
use experimentation.Htable.Chains.{to_nat}
use mathlib.Core.Path.{subst}

-- whether a block is available and large enough
abbrev pub fitting : ℕ → Blknode → ℕ
fitting size n = to_nat (n.avail && leb size (2 ^ n.logsize))

-- whether it is that, and smaller than `2 ^ l`
abbrev pub tighter : ℕ → ℕ → Blknode → ℕ
tighter size l n = to_nat (n.avail && leb size (2 ^ n.logsize) && ltb n.logsize l)

-- an available block of the lists that is large enough, and the smallest of these
pub record Chosen (size : ℕ) (bs : List (List Blknode)) (p : Blknode) : Type 0 where
  pub listed : (s : List (List Blknode)) × (remove_node p.addr bs ≡ some (p, s))
  pub avail : p.avail ≡ true
  pub fits : size ≤ 2 ^ p.logsize
  pub best : total (tighter size p.logsize) bs ≡ 0

module _ (size max i : ℕ) where
  row_tighter :
      (l : ℕ) (c : List Blknode) → OnLevel max i c → l + i ≤ max → row_sum (tighter size l) c ≡ 0
  unfolding row_sum
  row_tighter l [] lv e = refl
  row_tighter l (n ∷ c) lv e = ground (arith, lv.0, row_tighter l c lv.1 e)

  row_small :
      (k : ℕ) (c : List Blknode)
      → OnLevel max i c
      → k + i ≡ max
      → leb size (2 ^ k) ≡ false
      → row_sum (fitting size) c ≡ 0
  unfolding row_sum
  row_small k [] lv e off = refl
  row_small k (n ∷ c) lv e off =
      let same : n.logsize ≡ k = omega (arith, lv.0) in
      rw same (ground (arith, row_small k c lv.1 e off))

  first_avail-none : (c : List Blknode) → first_avail c ≡ none → row_sum (fitting size) c ≡ 0
  unfolding row_sum first_avail
  first_avail-none [] e = refl
  first_avail-none (n ∷ c) e = ground (arith, first_avail-none c)

  first_avail-some :
      (c : List Blknode) {p : Blknode}
      → OnLevel max i c
      → ((a : ℕ) → row_sum (begins a) c ≤ 1)
      → first_avail c ≡ some p
      → ((s : List Blknode) × (remove_row p.addr c ≡ some (p, s)))
        × (p.avail ≡ true)
        × (p.logsize + i ≡ max)
  unfolding row_sum first_avail remove_row
  first_avail-some [] lv once e = absurd (cc e)
  first_avail-some (n ∷ c) {p} lv once e = elim (Bool-cases n.avail) [
    | inl on ↦
        let same : n ≡ p = ground arith in
        subst
          (λ x.
            ((s : List Blknode) × (remove_row x.addr (n ∷ c) ≡ some (x, s)))
            × (x.avail ≡ true)
            × (x.logsize + i ≡ max))
          same ((c, ground arith), on, lv.0)
    | inr off ↦
        let e' : first_avail c ≡ some p = rw off at e in
        let ((s, run), av, level) = first_avail-some c lv.1 (λ a. omega (arith, once a)) e' in
        let there = row_sum-remove_row (begins p.addr) p.addr c run in
        let other : n.addr ≢ p.addr = λ q. absurd (ground (arith, once p.addr)) in
        ((n ∷ s, remove_row-skip p.addr n c other run), av, level)
  ]

  -- a choice in the later lists is one in all
  deeper :
      (c : List Blknode) (bs : List (List Blknode)) (p : Blknode)
      → OnLevel max i c
      → ((a : ℕ) → total (begins a) (c ∷ bs) ≤ 1)
      → p.logsize + i ≤ max
      → Chosen size bs p
      → Chosen size (c ∷ bs) p
  unfolding total
  deeper c bs p lv once low ch =
      let (s, run) = ch.listed in
      let there = total-remove_node (begins p.addr) p.addr bs run in
      let gone : row_sum (begins p.addr) c ≡ 0 = ground (arith, once p.addr) in
      record {
        listed = (c ∷ s, remove_node-next p.addr c bs (remove_row-none p.addr c gone) run);
        avail = ch.avail;
        fits = ch.fits;
        best = omega (arith, ch.best, row_tighter p.logsize c lv low);
      }

  -- a choice from the first list, behind which nothing fits
  last :
      (c : List Blknode) (bs : List (List Blknode)) (p : Blknode)
      → OnLevel max i c
      → ((a : ℕ) → total (begins a) (c ∷ bs) ≤ 1)
      → first_avail c ≡ some p
      → size ≤ 2 ^ p.logsize
      → total (fitting size) bs ≡ 0
      → Chosen size (c ∷ bs) p
  unfolding total
  last c bs p lv once e fits rest =
      let ((s, run), av, level) = first_avail-some c lv (λ a. omega (arith, once a)) e in
      record {
        listed = (s ∷ bs, remove_node-here p.addr c bs run);
        avail = av;
        fits = fits;
        best = omega (
          arith,
          row_tighter p.logsize c lv (omega arith),
          total_mono (tighter size p.logsize) (fitting size) (λ n. ground arith) bs,
        );
      }

-- what a scan gives: what it had, where nothing fits, or a choice
abbrev pub Scanned : ℕ → ℕ → ℕ → List (List Blknode) → Option Blknode → Type 0
Scanned size max i bs best =
    ((scan size bs best ≡ some best) × (total (fitting size) bs ≡ 0))
    ⊎ ((p : Blknode) × (scan size bs best ≡ some (some p))
        × Chosen size bs p
        × (p.logsize + i ≤ max))

pub scan-Scanned :
    (size max i : ℕ) (bs : List (List Blknode)) (best : Option Blknode)
    → max < 31
    → Levels max i bs
    → ((a : ℕ) → total (begins a) bs ≤ 1)
    → Scanned size max i bs best
unfolding scan total row_sum
scan-Scanned size max i [] best small lv once = inl (refl, refl)
scan-Scanned size max i ([] ∷ bs) best small lv once =
    elim (scan-Scanned size max (suc i) bs best small lv.1 (λ a. omega (arith, once a))) [
      | inl (run, none_fits) ↦ inl (run, omega arith)
      | inr (p, run, ch, low) ↦
          inr (p, run, deeper size max i [] bs p tt once (omega arith) ch, omega arith)
    ]
scan-Scanned size max i ((n ∷ c) ∷ bs) best small lv once =
    let shifted = shift-lt n.logsize (omega (arith, lv.0.0)) in
    let once' : (a : ℕ) → total (begins a) bs ≤ 1 = λ a. omega (arith, once a) in
    let later : (o : Option Blknode) → Scanned size max (suc i) bs o =
      λ o. scan-Scanned size max (suc i) bs o small lv.1 once' in
    elim (Bool-cases (leb size (2 ^ n.logsize))) [
      | inr off ↦ elim (later best) [
        | inl (run, none_fits) ↦ inl (
          rw (shifted, ◌>>=◌, off) run,
          omega (arith, row_small size max i n.logsize (n ∷ c) lv.0 lv.0.0 off),
        )
        | inr (p, run, ch, low) ↦ inr (
          p,
          rw (shifted, ◌>>=◌, off) run,
          deeper size max i (n ∷ c) bs p lv.0 once (omega arith) ch,
          omega arith,
        )
      ]
      | inl on ↦ elim (Option-cases (first_avail (n ∷ c))) [
        | inl e ↦ elim (later best) [
          | inl (run, none_fits) ↦
              inl (
                rw (shifted, ◌>>=◌, on, e) run,
                omega (arith, first_avail-none size max i (n ∷ c) e),
              )
          | inr (p, run, ch, low) ↦ inr (
            p,
            rw (shifted, ◌>>=◌, on, e) run,
            deeper size max i (n ∷ c) bs p lv.0 once (omega arith) ch,
            omega arith,
          )
        ]
        | inr (q, e) ↦ elim (later (some q)) [
          | inl (run, none_fits) ↦
              let (listed, av, level) =
                first_avail-some size max i (n ∷ c) lv.0 (λ a. omega (arith, once a)) e in
              let same : q.logsize ≡ n.logsize = omega (arith, lv.0.0) in
              inr (
                q,
                rw (shifted, ◌>>=◌, on, e) run,
                last size max i (n ∷ c) bs q lv.0 once e (rw same (ground arith)) none_fits,
                omega arith,
              )
          | inr (p, run, ch, low) ↦ inr (
            p,
            rw (shifted, ◌>>=◌, on, e) run,
            deeper size max i (n ∷ c) bs p lv.0 once (omega arith) ch,
            omega arith,
          )
        ]
      ]
    ]
