-- ===== src/Fsm/Events.antt =====
-- fsm/states.c, `state_add_evt` and `state_rem_evt`: the events that a state handles.
use experimentation.Base.{
  ℕ, ◌+◌, ◌*◌, ◌<◌, ◌≡◌, refl, sym, ap, ◌∙◌, Bool, true, false, ◌&&◌, Option, none, some, List, [],
  ◌∷◌, if◌then◌else◌, ◌==◌, inl, inr, is_some, arith, size_mod, Bool-cases,
}
use mathlib.Core.Path.{subst}
use experimentation.Htable.Types.{Htret, Freed}
use experimentation.Htable.Validity.{IsValid, contents}
use experimentation.Htable.Effect.{htable_insert-Inserted}
use experimentation.Htable.Removal.{htable_remove-Removed, htable_free_obj-remove}
use experimentation.Fsm.Types.{Event, State, Stret, max_evt_desc, state_callbacks}
use experimentation.Fsm.Keys.{state_callbacks-same, state_callbacks-CallbackLaws}
use experimentation.Fsm.States.{strncpy, add_ret, state_add_evt, state_rem_evt}

-- the event of a state under a key
abbrev pub event_of : State → ℕ → Option Event
event_of s key = contents state_callbacks s.evttable key

abbrev pub event : List ℕ → Option ℕ → Option ℕ → Event
event pdesc pactionf pnewstate = record {
  evt_desc = strncpy max_evt_desc pdesc;
  evt_actionf = pactionf;
  evt_newstate = pnewstate;
}

-- the outcome of `state_add_evt` of `e` under `key`
pub record EventAdded (got_key got_evt got_node : Bool) (s : State) (key : ℕ) (e : Event)
    (r : Stret × State) : Type 0 where
  pub valid : IsValid state_callbacks r.1.evttable
  pub exhausted : (got_key && got_evt) ≡ false → r ≡ (Stret.nomem, s)
  pub taken : (got_key && got_evt) ≡ true → is_some (event_of s key) ≡ true → r ≡ (Stret.exists, s)
  pub lost :
      (got_key && got_evt) ≡ true
      → is_some (event_of s key) ≡ false
      → got_node ≡ false
      → r ≡ (Stret.ok, s)
  pub stored :
      (got_key && got_evt) ≡ true
      → is_some (event_of s key) ≡ false
      → got_node ≡ true
      → (r.0 ≡ Stret.ok)
        × (r.1.evttable.ht_used ≡ s.evttable.ht_used + 1)
        × ((k : ℕ) → event_of r.1 k ≡ (if key == k then some e else event_of s k))

module _ (s : State) (key : ℕ) (pdesc : List ℕ) (pactionf pnewstate : Option ℕ)
    (valid : IsValid state_callbacks s.evttable) (room : s.evttable.ht_size * 2 < size_mod)
    (countable : s.evttable.ht_used + 1 < size_mod) where
  -- With a valid table of events that has room for a doubled size and one more node, state_add_evt
  -- never leaves the array and keeps the table valid. No memory for the key or the event gives
  -- ST_NOMEM and a key that is taken ST_EXISTS, both with the state unchanged. Else the key leads
  -- to the event and every other key to what it did; but without memory for the node of the table
  -- the state is unchanged, and the answer is ST_OK all the same.
  pub state_add_evt-EventAdded :
      (got_key got_evt got_node got_table : Bool)
      → (r : Stret × State) × (state_add_evt got_key got_evt got_node got_table s key pdesc pactionf
            pnewstate
          ≡ some r)
        × EventAdded got_key got_evt got_node s key (event pdesc pactionf pnewstate) r
  unfolding state_add_evt
  state_add_evt-EventAdded got_key got_evt got_node got_table =
      let e = event pdesc pactionf pnewstate in
      let (r, run, i) =
        htable_insert-Inserted state_callbacks state_callbacks-CallbackLaws s.evttable key e valid
          room countable got_node got_table in
      elim (Bool-cases (got_key && got_evt)) [
        | inr off ↦ (
          (Stret.nomem, s),
          ground arith,
          record {
            valid = valid;
            exhausted = λ _. refl;
            taken = λ on. absurd (cc (on, off));
            lost = λ on. absurd (cc (on, off));
            stored = λ on. absurd (cc (on, off));
          },
        )
        | inl on ↦
            let key_on : got_key ≡ true = ground arith in
            let evt_on : got_evt ≡ true = ground arith in
            (
              (add_ret r.0, record s { evttable = r.1 }),
              rw (key_on, evt_on, run),
              record {
                valid = i.valid;
                exhausted = λ off. absurd (cc (on, off));
                taken = λ _ t.
                    ap
                      (λ x. let y : Stret × State = (add_ret x.0, record s { evttable = x.1 }) in y)
                      (i.present t);
                lost = λ _ t off.
                    ap
                      (λ x. let y : Stret × State = (add_ret x.0, record s { evttable = x.1 }) in y)
                      (i.exhausted t off);
                stored = λ _ t node. (
                  ap add_ret (i.returns t node),
                  i.used t node,
                  λ k. i.reads t node k ∙ rw (state_callbacks-same key k),
                );
              },
            )
      ]

  -- In a state with a valid table that has room, an event that is added under a free key, with
  -- memory, can be removed by that key: the state then handles what it handled before, and one copy
  -- of the key, the event and its node are freed.
  pub state_rem_evt-state_add_evt :
      (got_table : Bool)
      → event_of s key ≡ none
      → (t : State) × (u : State) × (key' : ℕ) × (state_add_evt true true true got_table s key pdesc
            pactionf pnewstate
          ≡ some (Stret.ok, t))
        × (state_rem_evt t key
            ≡ some (
              Stret.ok,
              u,
              Freed.key key'
                  ∷ Freed.datum (event pdesc pactionf pnewstate)
                  ∷ Freed.node (record { hn_key = key'; hn_data = event pdesc pactionf pnewstate })
                  ∷ [],
            ))
        × (key' ≡ key)
        × ((k : ℕ) → event_of u k ≡ event_of s k)
  unfolding state_rem_evt
  state_rem_evt-state_add_evt got_table free =
      let e = event pdesc pactionf pnewstate in
      let absent : is_some (event_of s key) ≡ false = rw free in
      let ((ret, t), run, a) = state_add_evt-EventAdded true true true got_table in
      let (ret_ok, counted, reads) = a.stored refl absent refl in
      let here : event_of t key ≡ some e = reads key ∙ ground arith in
      let (h, key', removed, freed, same) =
        htable_free_obj-remove state_callbacks t.evttable key e a.valid here in
      let (r, run', d) =
        htable_remove-Removed state_callbacks state_callbacks-CallbackLaws t.evttable key a.valid
          (omega arith) in
      let u = record t { evttable = h } in
      let r_eq : r ≡ (Htret.ok, h) = cc (run', removed) in
      (
        t,
        u,
        key',
        rw run (ap (λ x. some (x, t)) ret_ok),
        rw freed,
        (let keys : key' == key ≡ true = sym (state_callbacks-same key' key) ∙ same in
            ground arith),
        λ k.
            let gone : is_some (event_of t key) ≡ true = rw here in
            let after : event_of u k ≡ (if key == k then none else event_of t k) =
              ap (λ x. contents state_callbacks (x.1) k) (sym r_eq)
              ∙ (d.reads gone k ∙ rw (state_callbacks-same key k)) in
            after ∙ (elim (Bool-cases (key == k)) [
              | inl e' ↦
                  let key_eq : key ≡ k = ground arith in
                  rw e' (sym (subst (λ x. event_of s x ≡ none) key_eq free))
              | inr e' ↦ rw e' (reads k ∙ rw e')
            ]),
      )
