-- ===== src/Tests/Machines.antt =====
-- fsm: runs of a machine and its theorems, at two states of which each event leads to the first.
use experimentation.Base.{
  [], ap, arith, false, flatten, none, refl, replicate, some, true, ℕ, ◌∷◌, ◌≡◌,
}
use experimentation.Fsm.AddState.{Added, fsm_add_state-Added, registered}
use experimentation.Fsm.Keys.{fsm_callbacks-CallbackLaws, state_callbacks-CallbackLaws}
use experimentation.Fsm.Machine.{
  dequeue_from, enter_state, fsm_add_state, fsm_dequeue_event, fsm_get_current_state,
  fsm_mark_reachable_states, fsm_process_event, fsm_queue_event, fsm_set_state, mark_as_reachable,
  mark_events, remove_head, run_action, serve,
}
use experimentation.Fsm.Reachability.{IsLinked, Marks, fsm_mark_reachable_states-Marks}
use experimentation.Fsm.Registry.{rekeyed}
use experimentation.Fsm.SetState.{Set, fsm_set_state-Set, fsm_set_state-fsm_add_state}
use experimentation.Fsm.States.{state_add_evt, state_rem_evt, strncpy}
use experimentation.Fsm.Types.{
  Event, Fsm, Fsmret, KeyPtr, Memory, deref, fsm_callbacks, key_cmpf, st_key_of, state_callbacks,
}
use experimentation.Htable.Chains.{CallbackLaws}
use experimentation.Htable.Effect.{htable_insert-Inserted}
use experimentation.Htable.Iteration.{visited}
use experimentation.Htable.Layout.{replicate-Stores}
use experimentation.Htable.Loops.{Occurs, here, there}
use experimentation.Htable.Memory.{free_contents}
use experimentation.Htable.Table.{
  find, grow_if_full, htable_free_obj, htable_grow, htable_insert, htable_remove, htable_search,
  insert_tail, rehash, rehash_chain, slot, unlink,
}
use experimentation.Htable.Types.{Hnode, Htable, Htret}
use experimentation.Htable.Validity.{IsValid}
use experimentation.Htable.Walk.{
  for_each_elm, for_each_loop, htable_get_next_elm, htable_iterator_init, next_chain,
}
use mathlib.Core.Path.{subst}

unfoldable pub program : Unit {0}
unfolding key_cmpf state_callbacks deref fsm_callbacks slot insert_tail find unlink htable_search
    rehash_chain rehash htable_grow grow_if_full htable_insert htable_remove htable_free_obj
    next_chain htable_iterator_init htable_get_next_elm for_each_loop for_each_elm free_contents
    flatten strncpy state_add_evt state_rem_evt fsm_add_state mark_as_reachable mark_events
    fsm_mark_reachable_states fsm_set_state fsm_get_current_state fsm_queue_event enter_state
    run_action fsm_process_event remove_head serve dequeue_from fsm_dequeue_event
program = tt

abbrev pub bare : {V : Type 0} → Htable ℕ V
bare = record {
  ht_grows = 0;
  ht_size = 2;
  ht_used = 0;
  ht_factor = 1;
  ht_limit = 2;
  ht_table = replicate 2 [];
}

pub bare-IsValid : IsValid state_callbacks (bare {V = Event})
bare-IsValid =
    let t = replicate-Stores {K = ℕ} {V = Event} state_callbacks 2 in
    record {
      nonempty = omega arith;
      sized = omega arith;
      width = t.width;
      counted = t.nodes;
      limited = refl;
      placed = t.placed;
    }

abbrev turn : Event
turn = record { evt_desc = []; evt_actionf = some 0; evt_newstate = some 1 }

abbrev arrows : Htable ℕ Event
arrows = record (bare) {
  ht_used = 1;
  ht_table = [] ∷ (record { hn_key = 3; hn_data = turn } ∷ []) ∷ [];
}

arrows_runs : htable_insert state_callbacks true true bare 3 turn ≡ some (Htret.ok, arrows)
unfolding program
arrows_runs = refl

pub arrows-IsValid : IsValid state_callbacks arrows
arrows-IsValid =
    let (r, run, i) =
      htable_insert-Inserted state_callbacks state_callbacks-CallbackLaws bare 3 turn bare-IsValid
        (omega arith) (omega arith) true true in
    let same : r ≡ (Htret.ok, arrows) = cc (run, arrows_runs) in
    subst (λ x. IsValid state_callbacks (x.1)) same i.valid

abbrev pub cells : Memory
cells p = record { evttable = arrows; st_key = p; flag = false }

abbrev machine : Fsm
machine = record {
  memory = cells;
  sttable = record {
    ht_grows = 0;
    ht_size = 2;
    ht_used = 0;
    ht_factor = 1;
    ht_limit = 2;
    ht_table = [] ∷ [] ∷ [];
  };
  cstate = none;
  nqueues = 2;
  pqtable = [] ∷ [] ∷ [];
}

machine-IsValid : IsValid (fsm_callbacks cells) machine.sttable
machine-IsValid =
    let t = replicate-Stores {K = KeyPtr} {V = ℕ} (fsm_callbacks cells) 2 in
    record {
      nonempty = omega arith;
      sized = omega arith;
      width = t.width;
      counted = t.nodes;
      limited = refl;
      placed = t.placed;
    }

none-registered : registered machine 7 ≡ none
none-registered = (replicate-Stores {K = KeyPtr} {V = ℕ} (fsm_callbacks cells) 2).reads _

fsm_callbacks-CallbackLaws_example : CallbackLaws (fsm_callbacks cells)
fsm_callbacks-CallbackLaws_example = fsm_callbacks-CallbackLaws cells

fsm_add_state-Added_example :
    (r : Fsmret × Fsm) × (fsm_add_state true true machine 7 1 ≡ some r) × Added true machine 7 1 r
fsm_add_state-Added_example =
    fsm_add_state-Added true true machine 7 1 machine-IsValid (omega arith) (omega arith)
      (tt, (tt, tt))

-- the machine after its first state has come under the key 7
abbrev pub joined : Fsm
joined = record machine {
  memory = rekeyed cells 1 7;
  sttable = record (machine.sttable) {
    ht_used = 1;
    ht_table = [] ∷ (record { hn_key = st_key_of 1; hn_data = 1 } ∷ []) ∷ [];
  };
}

joined_runs : fsm_add_state true true machine 7 1 ≡ some (Fsmret.ok, joined)
unfolding program
joined_runs = refl

pub joined-IsValid : IsValid (fsm_callbacks joined.memory) joined.sttable
joined-IsValid =
    let (r, run, a) = fsm_add_state-Added_example in
    let same : r ≡ (Fsmret.ok, joined) = cc (run, joined_runs) in
    subst (λ x. IsValid (fsm_callbacks x.1.memory) (x.1.sttable)) same a.valid

pub joined-evttable : (p : ℕ) → (joined.memory p).evttable ≡ arrows
joined-evttable p = ground arith

arrows_linked :
    (enode : Hnode ℕ Event)
    → Occurs enode (visited arrows.ht_table)
    → (q : ℕ) × (enode.hn_data.evt_newstate ≡ some q)
unfolding visited
arrows_linked enode (here e) = (1, ap (λ n. n.hn_data.evt_newstate) e)
arrows_linked enode (there o) = elim o [ ]

machine-IsLinked : IsLinked machine
machine-IsLinked = record {
  width = refl;
  sized = omega arith;
  evt_width = λ p. refl;
  evt_sized = λ p. omega arith;
  linked = λ p. arrows_linked;
}

joined-IsLinked : IsLinked joined
joined-IsLinked = record {
  width = refl;
  sized = omega arith;
  evt_width = λ p. rw (joined-evttable p) refl;
  evt_sized = λ p. rw (joined-evttable p) (omega arith);
  linked = λ p enode o.
      arrows_linked enode (subst (λ t. Occurs enode (visited t.ht_table)) (joined-evttable p) o);
}

fsm_set_state-Set_example : (r : Fsmret × Fsm) × (fsm_set_state joined 7 ≡ some r) × Set joined 7 r
fsm_set_state-Set_example = fsm_set_state-Set joined 7 joined-IsValid joined-IsLinked

fsm_set_state-fsm_add_state_example :
    (g h : Fsm) × (fsm_add_state true true machine 7 1 ≡ some (Fsmret.ok, g))
    × (fsm_set_state g 7 ≡ some (Fsmret.ok, h))
    × (h.cstate ≡ some 1)
    × (fsm_get_current_state h ≡ some 7)
fsm_set_state-fsm_add_state_example =
    fsm_set_state-fsm_add_state true machine 7 1 machine-IsValid (omega arith) (omega arith)
      (tt, (tt, tt)) machine-IsLinked none-registered

fsm_mark_reachable_states-Marks_example :
    (m : Memory) × (fsm_mark_reachable_states joined ≡ some (record joined { memory = m }))
    × Marks joined.memory m
    × ((snode : Hnode KeyPtr ℕ) (enode : Hnode ℕ Event) (q : ℕ)
        → Occurs snode (visited joined.sttable.ht_table)
        → Occurs enode (visited (joined.memory snode.hn_data).evttable.ht_table)
        → (joined.memory snode.hn_data).flag ≡ true
        → enode.hn_data.evt_newstate ≡ some q
        → (m q).flag ≡ true)
fsm_mark_reachable_states-Marks_example = fsm_mark_reachable_states-Marks joined joined-IsLinked
