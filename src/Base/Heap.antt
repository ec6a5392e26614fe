-- ===== src/Base/Heap.antt =====
-- Calls of `malloc` and `free` in the order in which a function makes them, and what they leave.
use Prim.Native.Nat.{ℕ}
use mathlib.Core.List.{List, [], ◌∷◌}
use mathlib.Core.Option.{Option, none, some}
use experimentation.Base.Logic.{◌==◌, if◌then◌else◌, ◌>>=◌}

-- `malloc` has given a block, `free` gets a block, or NULL
pub data HeapCall (B : Type 0) : Type 0 where
  malloced : B → HeapCall B
  freed : B → HeapCall B
  freed_null : HeapCall B

module _ {B : Type 0} (code : B → ℕ) where
  -- a block leaves the blocks that are held; `none`: it was not among them
  abbrev pub release : B → List B → Option (List B)
  release b [] = none
  release b (x ∷ held) =
      let rest = release b held in
      if code x == code b then some held else rest >>= (λ held'. some (x ∷ held'))

  -- the blocks that are held after some calls; `none`: a block is freed that was not held
  abbrev pub replay : List B → List (HeapCall B) → Option (List B)
  replay held [] = some held
  replay held (malloced b ∷ calls) = replay (b ∷ held) calls
  replay held (freed b ∷ calls) = release b held >>= λ held'. replay held' calls
  replay held (freed_null ∷ calls) = replay held calls
