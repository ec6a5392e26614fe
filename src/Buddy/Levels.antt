-- ===== src/Buddy/Levels.antt =====
-- buddy/mpool.c: the list at a position has the blocks of one size.
use experimentation.Base.{
  Bool, List, [], arith, get_or, inl, inr, length, max, refl, set, some, suc, zero, ℕ, ◌+◌, ◌<◌,
  ◌∷◌, ◌≡◌,
}
use experimentation.Buddy.Blocks.{mark, mark_row, remove_node, remove_row}
use experimentation.Buddy.Types.{Blknode}
use experimentation.Buddy.Unlink.{remove_node-cases, remove_row-cases}
use experimentation.Htable.Removal.{}

abbrev pub OnLevel : ℕ → ℕ → List Blknode → Type 0
OnLevel max i [] = Unit {0}
OnLevel max i (n ∷ c) = (n.logsize + i ≡ max) × OnLevel max i c

abbrev pub Levels : ℕ → ℕ → List (List Blknode) → Type 0
Levels max i [] = Unit {0}
Levels max i (c ∷ bs) = OnLevel max i c × Levels max (suc i) bs

OnLevel-remove_row :
    (max i a : ℕ) (c : List Blknode) {r : Blknode × List Blknode}
    → OnLevel max i c
    → remove_row a c ≡ some r
    → OnLevel max i r.1 × (r.0.logsize + i ≡ max)
unfolding remove_row
OnLevel-remove_row max i a [] lv e = absurd (cc e)
OnLevel-remove_row max i a (n ∷ c) lv e = elim (remove_row-cases a n c e) [
  | inl (hit, q) ↦ rw q (lv.1, lv.0)
  | inr (miss, s, e', q) ↦
      let (rest, level) = OnLevel-remove_row max i a c lv.1 e' in rw q ((lv.0, rest), level)
]

-- what a removal at an address leaves, and the position from which it took
pub record Taken (max i : ℕ) (bs : List (List Blknode)) (r : Blknode × List (List Blknode))
    : Type 0 where
  pub levels : Levels max i r.1
  pub width : length r.1 ≡ length bs
  pub position : ℕ
  pub inside : position < length bs
  pub level : r.0.logsize + (i + position) ≡ max

pub remove_node-Taken :
    (max i a : ℕ) (bs : List (List Blknode)) {r : Blknode × List (List Blknode)}
    → Levels max i bs
    → remove_node a bs ≡ some r
    → Taken max i bs r
unfolding remove_node
remove_node-Taken max i a [] lv e = absurd (cc e)
remove_node-Taken max i a (c ∷ bs) lv e = elim (remove_node-cases a c bs e) [
  | inl (s, e', q) ↦
      let (rest, level) = OnLevel-remove_row max i a c lv.0 e' in
      rw q (record {
        levels = (rest, lv.1);
        width = refl;
        position = 0;
        inside = omega arith;
        level = omega arith;
      })
  | inr (gone, s, e', q) ↦
      let t = remove_node-Taken max (suc i) a bs lv.1 e' in
      rw q (record {
        levels = (lv.0, t.levels);
        width = omega (arith, t.width);
        position = suc t.position;
        inside = omega (arith, t.inside);
        level = omega (arith, t.level);
      })
]

pub Levels-set :
    (max i j : ℕ) (n : Blknode) (bs : List (List Blknode))
    → Levels max i bs
    → j < length bs
    → n.logsize + (i + j) ≡ max
    → Levels max i (set bs j (n ∷ get_or bs j []))
Levels-set max i j n [] lv l e = absurd (omega arith)
Levels-set max i zero n (c ∷ bs) lv l e = ((omega arith, lv.0), lv.1)
Levels-set max i (suc j) n (c ∷ bs) lv l e =
    (lv.0, Levels-set max (suc i) j n bs lv.1 (omega arith) (omega arith))

OnLevel-mark_row :
    (max i a : ℕ) (v : Bool) (c : List Blknode) → OnLevel max i c → OnLevel max i (mark_row a v c)
unfolding mark_row
OnLevel-mark_row max i a v [] lv = tt
OnLevel-mark_row max i a v (n ∷ c) lv = (ground (arith, lv.0), OnLevel-mark_row max i a v c lv.1)

pub Levels-mark :
    (max i a : ℕ) (v : Bool) (bs : List (List Blknode))
    → Levels max i bs
    → Levels max i (mark a v bs) × (length (mark a v bs) ≡ length bs)
unfolding mark
Levels-mark max i a v [] lv = (tt, refl)
Levels-mark max i a v (c ∷ bs) lv =
    let (rest, size) = Levels-mark max (suc i) a v bs lv.1 in
    ((OnLevel-mark_row max i a v c lv.0, rest), omega arith)
