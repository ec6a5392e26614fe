-- ===== src/Fsm/Registry.antt =====
-- fsm/fsm.c, `fsm_add_state`: the table of states when a state is written and then inserted.
use experimentation.Base.{
  ℕ, zero, suc, ◌≡◌, refl, ap, ◌∙◌, Bool, false, List, [], ◌∷◌, if◌then◌else◌, length, get_or, ◌==◌,
  arith,
}
use experimentation.Htable.Types.{Chain, Htable}
use experimentation.Htable.Table.{is_same, slot, find}
use experimentation.Htable.Chains.{hits}
use experimentation.Htable.Layout.{view}
use experimentation.Htable.Validity.{IsValid}
use experimentation.Fsm.Types.{Memory, KeyPtr, stack, st_key_of, write, deref, fsm_callbacks}
use experimentation.Fsm.Keys.{fsm_callbacks-same}

-- a key pointer is into the state `p`
abbrev pub points_to : ℕ → KeyPtr → Bool
points_to p (stack key) = false
points_to p (st_key_of q) = p == q

-- no node of the chain has its key in the state `p`
abbrev pub Spares : ℕ → Chain KeyPtr ℕ → Type 0
Spares p [] = Unit {0}
Spares p (n ∷ c) = (points_to p n.hn_key ≡ false) × Spares p c

abbrev pub AllSpare : ℕ → List (Chain KeyPtr ℕ) → Type 0
AllSpare p [] = Unit {0}
AllSpare p (c ∷ bs) = Spares p c × AllSpare p bs

module _ (m : Memory) (p key : ℕ) where
  -- the memory after `*pstate->st_key = key`
  abbrev pub rekeyed : Memory
  rekeyed = write m p (record (m p) { st_key = key })

  -- the key that a pointer has afterwards, as a pointer that had it before
  abbrev pub before : KeyPtr → KeyPtr
  before k = if points_to p k then stack key else k

  deref-before : (k : KeyPtr) → deref rekeyed k ≡ deref m (before k)
  unfolding deref
  deref-before (stack k) = refl
  deref-before (st_key_of q) = ground arith

  deref-spared : (k : KeyPtr) → points_to p k ≡ false → deref rekeyed k ≡ deref m k
  deref-spared k e = deref-before k ∙ ap (deref m) (rw e)

  slot-before :
      (k : KeyPtr) (n : ℕ) → slot (fsm_callbacks rekeyed) k n ≡ slot (fsm_callbacks m) (before k) n
  unfolding slot fsm_callbacks
  slot-before k n = rw (deref-before k)

  same-before :
      (a q : KeyPtr)
      → points_to p a ≡ false
      → is_same (fsm_callbacks rekeyed) a q ≡ is_same (fsm_callbacks m) a (before q)
  same-before a q e = rw (
    fsm_callbacks-same rekeyed a q,
    fsm_callbacks-same m a (before q),
    deref-before q,
    deref-spared a e,
  )

  hits-before :
      (q : KeyPtr) (c : Chain KeyPtr ℕ)
      → Spares p c
      → hits (fsm_callbacks rekeyed) q c ≡ hits (fsm_callbacks m) (before q) c
  unfolding hits
  hits-before q [] s = refl
  hits-before q (n ∷ c) s = rw (same-before n.hn_key q s.0, hits-before q c s.1)

  find-before :
      (q : KeyPtr) (c : Chain KeyPtr ℕ)
      → Spares p c
      → find (fsm_callbacks rekeyed) q c ≡ find (fsm_callbacks m) (before q) c
  unfolding find
  find-before q [] s = refl
  find-before q (n ∷ c) s = rw (same-before n.hn_key q s.0, find-before q c s.1)

  get_or-Spares : (bs : List (Chain KeyPtr ℕ)) (i : ℕ) → AllSpare p bs → Spares p (get_or bs i [])
  get_or-Spares [] i s = tt
  get_or-Spares (c ∷ bs) zero s = s.0
  get_or-Spares (c ∷ bs) (suc i) s = get_or-Spares bs i s.1

  -- A table that has no key in the written state keeps its order, and reads at each pointer what it
  -- read at the key that the pointer has now.
  pub view-before :
      (bs : List (Chain KeyPtr ℕ)) (q : KeyPtr)
      → AllSpare p bs
      → view (fsm_callbacks rekeyed) bs q ≡ view (fsm_callbacks m) bs (before q)
  unfolding view
  view-before bs q s = rw (slot-before q (length bs)) (find-before q _ (get_or-Spares bs _ s))

  pub IsValid-rekeyed :
      (h : Htable KeyPtr ℕ)
      → AllSpare p h.ht_table
      → IsValid (fsm_callbacks m) h
      → IsValid (fsm_callbacks rekeyed) h
  IsValid-rekeyed h s valid = record {
    nonempty = valid.nonempty;
    sized = valid.sized;
    width = valid.width;
    counted = valid.counted;
    limited = valid.limited;
    placed = λ q i.
        rw
          (
            hits-before q (get_or h.ht_table i []) (get_or-Spares h.ht_table i s),
            slot-before q (length h.ht_table),
          )
          (valid.placed (before q) i);
  }
