-- ===== src/Htable/Members.antt =====
-- genstructs/htable/htable.c: what a search finds stands in the table.
use experimentation.Base.{
  arith, ℕ, zero, suc, ◌≡◌, refl, true, some, List, [], ◌∷◌, get_or, flatten, inl, inr, Bool-cases,
  length,
}
use experimentation.Htable.Types.{Hnode, Callbacks, Chain}
use experimentation.Htable.Table.{is_same, slot, find}
use experimentation.Htable.Layout.{view}
use experimentation.Htable.Loops.{Occurs, here, there, Occurs-append_left, Occurs-append_right}

module _ {ℓ} {K V : Type ℓ} where
  find-Occurs :
      (cb : Callbacks K) (k : K) (c : Chain K V) {v : V}
      → find cb k c ≡ some v
      → (n : Hnode K V) × Occurs n c × (n.hn_data ≡ v) × (is_same cb n.hn_key k ≡ true)
  unfolding find
  find-Occurs cb k [] e = absurd (cc e)
  find-Occurs cb k (n ∷ c) e = elim (Bool-cases (is_same cb n.hn_key k)) [
    | inl hit ↦ (n, here refl, ground arith, hit)
    | inr miss ↦ let (n', o, d, s) = find-Occurs cb k c (rw miss at e) in (n', there o, d, s)
  ]

  get_or-Occurs :
      (x : Hnode K V) (bs : List (Chain K V)) (i : ℕ)
      → Occurs x (get_or bs i [])
      → Occurs x (flatten bs)
  unfolding flatten
  get_or-Occurs x [] i o = elim o [ ]
  get_or-Occurs x (c ∷ bs) zero o = Occurs-append_left x c (flatten bs) o
  get_or-Occurs x (c ∷ bs) (suc i) o = Occurs-append_right x c (flatten bs) (get_or-Occurs x bs i o)

  pub view-Occurs :
      (cb : Callbacks K) (bs : List (Chain K V)) (k : K) {v : V}
      → view cb bs k ≡ some v
      → (n : Hnode K V) × Occurs n (flatten bs) × (n.hn_data ≡ v) × (is_same cb n.hn_key k ≡ true)
  unfolding view
  view-Occurs cb bs k e =
      let i = slot cb k (length bs) in
      let (n, o, d, s) = find-Occurs cb k (get_or bs i []) e in (n, get_or-Occurs n bs i o, d, s)
