-- ===== src/Fsm/Start.antt =====
-- fsm/fsm.c, `fsm_init`, and fsm/states.c, `state_init`: what is set up, and what is lost.
use experimentation.Base.{
  replay, Bool, [], ◌∷◌, ap, false, flatten-replicate, length, length-replicate, none, refl, some,
  true, ℕ, ◌&&◌, ◌<◌, ◌^◌, ◌∙◌, ◌≡◌, ◌>>=◌, if◌then◌else◌,
}
use experimentation.Fsm.AddState.{registered}
use experimentation.Fsm.Events.{event_of}
use experimentation.Fsm.Machine.{fsm_get_queued_events, fsm_validate}
use experimentation.Fsm.Queue.{fsm_get_queued_events-length}
use experimentation.Fsm.Setup.{
  FsmBlock, FsmStart, fsm_block, sttable_block, pqtable_block, mobj_block, fsm_init,
}
use experimentation.Fsm.States.{
  StateBlock, StateStart, state_block, evttable_block, st_key_block, state_init,
}
use experimentation.Fsm.Types.{
  Event, Fsm, Fsmret, KeyPtr, Memory, State, Stret, fsm_callbacks, stack, state_callbacks,
}
use experimentation.Htable.Layout.{replicate-Stores}
use experimentation.Htable.Validity.{
  IsValid, fresh_table-IsValid, htable_init-fresh_table, htable_init-nomem,
}
use experimentation.Htable.Walk.{htable_get_used}

-- a number for each block of `fsm_init`
abbrev pub fsm_code : FsmBlock → ℕ
fsm_code fsm_block = 0
fsm_code sttable_block = 1
fsm_code pqtable_block = 2
fsm_code mobj_block = 3
fsm_code FsmBlock.ht_table_block = 4

-- a number for each block of `state_init`
abbrev pub state_code : StateBlock → ℕ
state_code state_block = 0
state_code evttable_block = 1
state_code StateBlock.ht_table_block = 2
state_code st_key_block = 3

-- the outcome of `fsm_init`, where `d` is whether there was memory for `mobj`
pub record Started (a b c d e : Bool) (nqueues : ℕ) (r : FsmStart) : Type 0 where
  pub failed :
      a && (b && (c && (d && e))) ≡ false
      → (r.ret ≡ Fsmret.enomem)
        × (r.pfsm ≡ none)
        × (replay fsm_code [] r.calls
            ≡ some (if a && (b && c) then (if d then mobj_block else pqtable_block) ∷ [] else []))
  pub started :
      a && (b && (c && (d && e))) ≡ true
      → (f : Fsm) × (r.ret ≡ Fsmret.ok)
        × (r.pfsm ≡ some f)
        × (replay fsm_code [] r.calls
            ≡ some (
                FsmBlock.ht_table_block ∷ mobj_block ∷ pqtable_block ∷ sttable_block ∷ fsm_block
                ∷ []))
        × IsValid (fsm_callbacks f.memory) f.sttable
        × (length f.pqtable ≡ nqueues)
        × (f.nqueues ≡ nqueues)
        × (fsm_get_queued_events f ≡ 0)
        × (fsm_validate f ≡ Fsmret.empty)
        × ((key : ℕ) → registered f key ≡ none)

module _ (memory : Memory) (size factor nqueues : ℕ) (nonempty : 0 < size)
    (sized : size < 2 ^ 60) where
  -- fsm_init with a positive number of lists whose heads take fewer than 2 ^ 64 bytes: no call of
  -- free gets a block that is not held. If one of the five allocations fails it answers FSM_ENOMEM
  -- and no machine, and all blocks are freed but the queues where there was no memory for the
  -- mutex, and the mutex where there was none for the lists. Else all five blocks are held, and the
  -- machine has a valid table with no state, and as many queues as asked for, with no event.
  pub fsm_init-Started :
      (a b c d e : Bool)
      → (r : FsmStart) × (fsm_init a b c d e memory size factor nqueues ≡ some r)
        × Started a b c d e nqueues r
  unfolding fsm_init
  fsm_init-Started false b c d e =
      (_, refl, record { failed = λ _. (refl, refl, refl); started = λ on. absurd (cc on) })
  fsm_init-Started true false c d e =
      (_, refl, record { failed = λ _. (refl, refl, refl); started = λ on. absurd (cc on) })
  fsm_init-Started true true false d e =
      (_, refl, record { failed = λ _. (refl, refl, refl); started = λ on. absurd (cc on) })
  fsm_init-Started true true true false e =
      (_, refl, record { failed = λ _. (refl, refl, refl); started = λ on. absurd (cc on) })
  fsm_init-Started true true true true false =
      rw (htable_init-nomem (fsm_callbacks memory) size factor, ◌>>=◌)
        (_, refl, record { failed = λ _. (refl, refl, refl); started = λ on. absurd (cc on) })
  fsm_init-Started true true true true true =
      let cb = fsm_callbacks memory in
      rw (htable_init-fresh_table cb size factor sized, ◌>>=◌)
        (
          _,
          refl,
          record {
            failed = λ off. absurd (cc off);
            started = λ _. (
              _,
              refl,
              refl,
              refl,
              fresh_table-IsValid cb size factor nonempty sized,
              length-replicate nqueues [],
              refl,
              fsm_get_queued_events-length _ ∙ ap length (flatten-replicate nqueues),
              unfold fsm_validate htable_get_used in refl,
              λ key. (replicate-Stores {K = KeyPtr} {V = ℕ} cb size).reads (stack key),
            );
          },
        )

-- the outcome of `state_init`
pub record StateStarted (a b c d : Bool) (r : StateStart) : Type 0 where
  pub failed :
      a && (b && (c && d)) ≡ false
      → (r.ret ≡ Stret.nomem)
        × (r.ppstate ≡ none)
        × (replay state_code [] r.calls
            ≡ some (if a && (b && c) then StateBlock.ht_table_block ∷ [] else []))
  pub started :
      a && (b && (c && d)) ≡ true
      → (s : State) × (r.ret ≡ Stret.ok)
        × (r.ppstate ≡ some s)
        × (replay state_code [] r.calls
            ≡ some (st_key_block ∷ StateBlock.ht_table_block ∷ evttable_block ∷ state_block ∷ []))
        × IsValid state_callbacks s.evttable
        × (s.flag ≡ false)
        × ((key : ℕ) → event_of s key ≡ none)

-- state_init with a positive number of lists whose heads take fewer than 2 ^ 64 bytes: no call of
-- free gets a block that is not held. If one of the four allocations fails it answers ST_NOMEM and
-- no state, and all blocks are freed but the lists where there was no memory for the key. Else all
-- four blocks are held, and the state has a valid table with no event, and is not marked.
pub state_init-StateStarted :
    (a b c d : Bool) (key size factor : ℕ)
    → 0 < size
    → size < 2 ^ 60
    → (r : StateStart) × (state_init a b c d key size factor ≡ some r) × StateStarted a b c d r
unfolding state_init
state_init-StateStarted false b c d key size factor nonempty sized =
    (_, refl, record { failed = λ _. (refl, refl, refl); started = λ on. absurd (cc on) })
state_init-StateStarted true false c d key size factor nonempty sized =
    (_, refl, record { failed = λ _. (refl, refl, refl); started = λ on. absurd (cc on) })
state_init-StateStarted true true false d key size factor nonempty sized =
    rw (htable_init-nomem state_callbacks size factor, ◌>>=◌)
      (_, refl, record { failed = λ _. (refl, refl, refl); started = λ on. absurd (cc on) })
state_init-StateStarted true true true false key size factor nonempty sized =
    rw (htable_init-fresh_table state_callbacks size factor sized, ◌>>=◌)
      (_, refl, record { failed = λ _. (refl, refl, refl); started = λ on. absurd (cc on) })
state_init-StateStarted true true true true key size factor nonempty sized =
    rw (htable_init-fresh_table state_callbacks size factor sized, ◌>>=◌)
      (
        _,
        refl,
        record {
          failed = λ off. absurd (cc off);
          started = λ _. (
            _,
            refl,
            refl,
            refl,
            fresh_table-IsValid state_callbacks size factor nonempty sized,
            refl,
            λ k. (replicate-Stores {K = ℕ} {V = Event} state_callbacks size).reads k,
          );
        },
      )
