-- ===== src/Fsm/Machine.antt =====
-- fsm/fsm.c: states, events and queues of a machine. What the functions named by `evt_actionf` do to
-- the machine is the parameter `act`. `none` is a read through a pointer that was never written or is
-- NULL, or an access outside `pqtable`. A call runs alone, without the lock of the queues.
use experimentation.Base.{
  ℕ, zero, suc, ◌+◌, ◌-◌, ◌%◌, ◌^◌, Bool, true, Option, none, some, List, [], ◌∷◌, ◌++◌, ◌>>=◌, leb,
  if◌then◌else◌, get_elem?, set, ◌==◌,
}
use experimentation.Htable.Types.{Hnode, Htret}
use experimentation.Htable.Table.{htable_insert, htable_search}
use experimentation.Htable.Walk.{for_each_elm, htable_get_used}
use experimentation.Fsm.Types.{
  Event, Pqnode, Memory, stack, st_key_of, Fsm, Fsmret, write, fsm_callbacks, state_callbacks,
}

-- the result of `htable_insert` is tested for HT_EXISTS alone
abbrev pub add_ret : Htret → Fsmret
add_ret Htret.exists = Fsmret.eexists
add_ret Htret.ok = Fsmret.ok
add_ret Htret.nomem = Fsmret.ok
add_ret Htret.notfound = Fsmret.ok

unfoldable pub fsm_add_state : Bool → Bool → Fsm → ℕ → ℕ → Option (Fsmret × Fsm)
fsm_add_state got_node got_table pfsm key pstate =
    let m = write pfsm.memory pstate (record (pfsm.memory pstate) { st_key = key }) in
    htable_insert (fsm_callbacks m) got_node got_table pfsm.sttable (st_key_of pstate) pstate
    >>= λ r. some (add_ret r.0, record pfsm { memory = m; sttable = r.1 })

-- STATE_MARK_AS_REACHABLE
unfoldable pub mark_as_reachable : ℕ → Memory → Memory
mark_as_reachable p m = write m p (record (m p) { flag = true })

-- the inner loop's body: an event of the state `pstate`, if that state is marked, marks another
abbrev pub mark_event : ℕ → Hnode ℕ Event → Memory → Option Memory
mark_event pstate enode m =
    if (m pstate).flag
    then (enode.hn_data.evt_newstate >>= λ q. some (mark_as_reachable q m))
    else some m

unfoldable pub mark_events : ℕ → Memory → Option Memory
mark_events pstate m = for_each_elm (m pstate).evttable (mark_event pstate) m

unfoldable pub fsm_mark_reachable_states : Fsm → Option Fsm
fsm_mark_reachable_states pfsm =
    for_each_elm pfsm.sttable (λ snode m. mark_events snode.hn_data m) pfsm.memory >>= λ m.
    some (record pfsm { memory = m })

unfoldable pub fsm_set_state : Fsm → ℕ → Option (Fsmret × Fsm)
fsm_set_state pfsm stkey =
    htable_search (fsm_callbacks pfsm.memory) pfsm.sttable (stack stkey) >>= λ found. elim found [
      | none ↦ some (Fsmret.enotfound, pfsm)
      | some pstate ↦
          fsm_mark_reachable_states (record pfsm { memory = mark_as_reachable pstate pfsm.memory })
          >>= λ marked. some (Fsmret.ok, record marked { cstate = some pstate })
    ]

unfoldable pub fsm_get_current_state : Fsm → Option ℕ
fsm_get_current_state pfsm = pfsm.cstate >>= λ p. some (pfsm.memory p).st_key

-- `got_node` and `got_data`: whether the two calls of `malloc` succeed
unfoldable pub fsm_queue_event : Bool → Bool → Fsm → ℕ → List ℕ → ℕ → Option (Fsmret × Fsm)
fsm_queue_event got_node got_data pfsm evtkey pdata prio =
    if leb pfsm.nqueues prio
    then some (Fsmret.eprio, pfsm)
    else if got_node
    then (if got_data
        then (get_elem? pfsm.pqtable prio >>= λ phead. some (
          Fsmret.ok,
          record pfsm {
            pqtable =
                set pfsm.pqtable prio
                  (phead ++ record { evtdata = pdata; evtkey = evtkey; prio = prio } ∷ []);
          },
        ))
        else some (Fsmret.enomem, pfsm))
    else some (Fsmret.enomem, pfsm)

unfoldable pub count_queue : List Pqnode → ℕ → ℕ
count_queue [] total = total
count_queue (pnode ∷ q) total = count_queue q (total + 1)

unfoldable pub count_queues : List (List Pqnode) → ℕ → ℕ
count_queues [] total = total
count_queues (q ∷ qs) total = count_queues qs (count_queue q total)

unfoldable pub fsm_get_queued_events : Fsm → ℕ
fsm_get_queued_events pfsm = count_queues pfsm.pqtable 0

unfoldable pub fsm_validate : Fsm → Fsmret
fsm_validate pfsm = if htable_get_used pfsm.sttable == 0 then Fsmret.empty else Fsmret.clean

-- `STAILQ_REMOVE_HEAD` on a queue that has a head
unfoldable pub remove_head : List Pqnode → Option (List Pqnode)
remove_head [] = none
remove_head (pnode ∷ q) = some q

-- the end of `fsm_process_event`
unfoldable pub enter_state : Option ℕ → Fsm → Option (Fsmret × Fsm)
enter_state none pfsm = some (Fsmret.enotfound, pfsm)
enter_state (some newstate) pfsm =
    htable_search (fsm_callbacks pfsm.memory) pfsm.sttable (st_key_of newstate) >>= λ found.
    elim found [
      | none ↦ some (Fsmret.enotfound, pfsm)
      | some _ ↦ some (Fsmret.ok, record pfsm { cstate = some newstate })
    ]

module _ (act : ℕ → List ℕ → Fsm → Fsm) where
  -- the action of an event, if it has one
  unfoldable pub run_action : Option ℕ → List ℕ → Fsm → Fsm
  run_action none evtdata pfsm = pfsm
  run_action (some actionf) evtdata pfsm = act actionf evtdata pfsm

  unfoldable pub fsm_process_event : Fsm → ℕ → List ℕ → Option (Fsmret × Fsm)
  fsm_process_event pfsm evtkey evtdata = pfsm.cstate >>= λ cstate.
      htable_search state_callbacks (pfsm.memory cstate).evttable evtkey >>= λ found. elim found [
        | none ↦ some (Fsmret.enotfound, pfsm)
        | some pevt ↦ enter_state pevt.evt_newstate (run_action pevt.evt_actionf evtdata pfsm)
      ]

  -- the queue is looked up again after the event has been processed
  unfoldable pub serve : ℕ → Pqnode → Fsm → Option (Fsmret × Fsm)
  serve i pnode pfsm = fsm_process_event pfsm pnode.evtkey pnode.evtdata >>= λ r.
      get_elem? r.1.pqtable i >>= λ phead. remove_head phead >>= λ rest.
      some (Fsmret.ok, record (r.1) { pqtable = set r.1.pqtable i rest })

  -- the `do` loop, from queue `i` downwards
  unfoldable pub dequeue_from : ℕ → Fsm → Option (Fsmret × Fsm)
  dequeue_from zero pfsm = get_elem? pfsm.pqtable 0 >>= λ phead. elim phead [
    | [] ↦ some (Fsmret.empty, pfsm)
    | pnode ∷ _ ↦ serve 0 pnode pfsm
  ]
  dequeue_from (suc i) pfsm =
      let below = dequeue_from i pfsm in
      get_elem? pfsm.pqtable (suc i) >>= λ phead. elim phead [
        | [] ↦ below
        | pnode ∷ _ ↦ serve (suc i) pnode pfsm
      ]

  -- `nqueues - 1` is an `unsigned int`
  unfoldable pub fsm_dequeue_event : Fsm → Option (Fsmret × Fsm)
  fsm_dequeue_event pfsm = dequeue_from ((pfsm.nqueues + 2 ^ 32 - 1) % 2 ^ 32) pfsm
