-- ===== src/Fsm/AddState.antt =====
-- fsm/fsm.c, `fsm_add_state`: what is registered, and what the caller is told.
use experimentation.Base.{
  ℕ, ◌+◌, ◌*◌, ◌<◌, ◌≡◌, refl, ap, ◌∙◌, Bool, true, false, Option, some, if◌then◌else◌, ◌==◌, arith,
  size_mod, is_some,
}
use experimentation.Htable.Table.{is_same}
use experimentation.Htable.Validity.{IsValid, contents}
use experimentation.Htable.Effect.{htable_insert-Inserted}
use experimentation.Fsm.Types.{stack, st_key_of, Fsm, Fsmret, deref, fsm_callbacks}
use experimentation.Fsm.Keys.{fsm_callbacks-same, fsm_callbacks-CallbackLaws}
use experimentation.Fsm.Machine.{add_ret, fsm_add_state}
use experimentation.Fsm.Registry.{AllSpare, rekeyed, view-before, IsValid-rekeyed}

-- the state that is registered under a key
abbrev pub registered : Fsm → ℕ → Option ℕ
registered f key = contents (fsm_callbacks f.memory) f.sttable (stack key)

-- the outcome of `fsm_add_state` of `p` under `key`
pub record Added (got_node : Bool) (f : Fsm) (key p : ℕ) (r : Fsmret × Fsm) : Type 0 where
  pub valid : IsValid (fsm_callbacks r.1.memory) r.1.sttable
  pub memory : r.1.memory ≡ rekeyed f.memory p key
  pub taken : is_some (registered f key) ≡ true → (r.0 ≡ Fsmret.eexists) × (r.1.sttable ≡ f.sttable)
  pub lost :
      is_some (registered f key) ≡ false
      → got_node ≡ false
      → (r.0 ≡ Fsmret.ok) × (r.1.sttable ≡ f.sttable)
  pub stored :
      is_some (registered f key) ≡ false
      → got_node ≡ true
      → (r.0 ≡ Fsmret.ok)
        × ((k : ℕ) → registered r.1 k ≡ (if key == k then some p else registered f k))

module _ (got_node got_table : Bool) (f : Fsm) (key p : ℕ)
    (valid : IsValid (fsm_callbacks f.memory) f.sttable) (room : f.sttable.ht_size * 2 < size_mod)
    (countable : f.sttable.ht_used + 1 < size_mod) (fresh : AllSpare p f.sttable.ht_table) where
  -- On a valid table of states with room for a doubled size and one more node, where no node has
  -- its key in the state that is added, fsm_add_state never leaves the array and always writes the
  -- key into the state. A key that is taken gives FSM_EEXISTS and leaves the table alone. With
  -- memory for the node the key leads to the state, and every other key to what it did. Without,
  -- the table is left alone, and the answer is FSM_OK all the same.
  pub fsm_add_state-Added :
      (r : Fsmret × Fsm) × (fsm_add_state got_node got_table f key p ≡ some r)
      × Added got_node f key p r
  unfolding fsm_add_state
  fsm_add_state-Added =
      let m = rekeyed f.memory p key in
      let valid' = IsValid-rekeyed f.memory p key f.sttable fresh valid in
      let (r, run, i) =
        htable_insert-Inserted (fsm_callbacks m) (fsm_callbacks-CallbackLaws m) f.sttable
          (st_key_of p) p valid' room countable got_node got_table in
      let here : contents (fsm_callbacks m) f.sttable (st_key_of p) ≡ registered f key =
        view-before f.memory p key f.sttable.ht_table (st_key_of p) fresh
        ∙ ap (contents (fsm_callbacks f.memory) f.sttable) (ground arith) in
      let there : (k : ℕ) → contents (fsm_callbacks m) f.sttable (stack k) ≡ registered f k =
        λ k. view-before f.memory p key f.sttable.ht_table (stack k) fresh in
      let same : (k : ℕ) → is_same (fsm_callbacks m) (st_key_of p) (stack k) ≡ key == k =
        λ k. fsm_callbacks-same m (st_key_of p) (stack k) ∙ (unfold deref in ground arith) in
      (
        (add_ret r.0, record f { memory = m; sttable = r.1 }),
        rw run,
        record {
          valid = i.valid;
          memory = refl;
          taken =
              λ e. (let q = i.present (rw here e) in (ap (λ x. add_ret x.0) q, ap (λ x. x.1) q));
          lost = λ e off.
              (let q = i.exhausted (rw here e) off in (ap (λ x. add_ret x.0) q, ap (λ x. x.1) q));
          stored = λ e on. (
            ap add_ret (i.returns (rw here e) on),
            λ k. i.reads (rw here e) on (stack k) ∙ rw (same k, there k),
          );
        },
      )
