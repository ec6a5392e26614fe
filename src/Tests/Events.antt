-- ===== src/Tests/Events.antt =====
-- fsm: events that are registered, queued and processed, runs of them and their theorems.
use experimentation.Base.{
  zero, suc, List, Option, Option-cases, [], ap, append-nil, arith, false, get_or, inl, inr, none,
  refl, some, sym, true, ℕ, ◌++◌, ◌∙◌, ◌∷◌, ◌≡◌,
}
use experimentation.Fsm.Dequeue.{Dequeued, Processed, fsm_dequeue_event-Dequeued}
use experimentation.Fsm.Events.{
  EventAdded, event, event_of, state_add_evt-EventAdded, state_rem_evt-state_add_evt,
}
use experimentation.Fsm.Finish.{fsm_free-states_freed, states_freed, sttable_blocks, queue_blocks}
use experimentation.Fsm.Machine.{fsm_dequeue_event, fsm_process_event, fsm_queue_event, run_action}
use experimentation.Fsm.Process.{IsSound, Stepped, fsm_process_event-Stepped, handled}
use experimentation.Fsm.Served.{with_event, Handed, fsm_dequeue_event-fsm_queue_event}
use experimentation.Fsm.Queue.{queue, Queued, fsm_queue_event-Queued}
use experimentation.Fsm.Setup.{FsmStart, FsmFreed, fsm_free, fsm_init}
use experimentation.Fsm.Start.{Started, StateStarted, fsm_init-Started, state_init-StateStarted}
use experimentation.Fsm.States.{StateStart, state_add_evt, state_init, state_rem_evt}
use experimentation.Fsm.Types.{Event, Fsm, Fsmret, Pqnode, State, Stret, state_callbacks}
use experimentation.Htable.Iteration.{visited}
use experimentation.Htable.Layout.{replicate-Stores}
use experimentation.Htable.Types.{Freed}
use experimentation.Tests.Machines.{
  program, bare, cells, joined, bare-IsValid, arrows-IsValid, joined-IsValid, joined-evttable,
}

-- a machine in its first state, with one event waiting in the lower queue
abbrev running : Fsm
running = record joined {
  cstate = some 1;
  pqtable = (record { evtdata = []; evtkey = 3; prio = 0 } ∷ []) ∷ [] ∷ [];
}

running-IsSound : IsSound running
running-IsSound = record {
  states = joined-IsValid;
  events = λ p. rw (joined-evttable p) arrows-IsValid;
}

-- an action without effect
abbrev idle : ℕ → List ℕ → Fsm → Fsm
idle a evtdata f = f

run_action-idle : (a : Option ℕ) (evtdata : List ℕ) (f : Fsm) → run_action idle a evtdata f ≡ f
unfolding run_action
run_action-idle none evtdata f = refl
run_action-idle (some a) evtdata f = refl

fsm_process_event-Stepped_example :
    (r : Fsmret × Fsm) × (fsm_process_event idle running 3 [] ≡ some r)
    × Stepped idle running 1 3 [] r
fsm_process_event-Stepped_example =
    fsm_process_event-Stepped idle running 1 3 [] refl running-IsSound
      (λ a. rw (run_action-idle a [] running) running-IsSound)

fsm_queue_event-Queued_example :
    (r : Fsmret × Fsm) × (fsm_queue_event true true running 3 (1 ∷ []) 1 ≡ some r)
    × Queued true true running 3 (1 ∷ []) 1 r
fsm_queue_event-Queued_example = fsm_queue_event-Queued true true running 3 (1 ∷ []) 1 refl

running_processes :
    (pnode : Pqnode) → (ret : Fsmret) × (g : Fsm) × Processed idle running pnode ret g
running_processes pnode =
    let (r, run, s) =
      fsm_process_event-Stepped idle running 1 pnode.evtkey pnode.evtdata refl running-IsSound
        (λ a. rw (run_action-idle a pnode.evtdata running) running-IsSound) in
    let same : (r.1.pqtable ≡ running.pqtable) =
      elim (Option-cases (handled running.memory 1 pnode.evtkey)) [
        | inl e ↦ ap (λ x. x.1.pqtable) (s.unhandled e)
        | inr (pevt, e) ↦
            let keep =
              ap (λ x. x.pqtable) (run_action-idle pevt.evt_actionf pnode.evtdata running) in
            elim (s.acted pevt e) [
              | inl stays ↦ ap (λ x. x.1.pqtable) stays.0 ∙ keep
              | inr (q, to, reg, tr, eq) ↦ ap (λ x. x.1.pqtable) eq ∙ keep
            ]
      ] in
    (
      r.0,
      r.1,
      record {
        runs = run;
        width = rw same refl;
        appends = λ i. ([], ap (λ x. get_or x i []) same ∙ sym (append-nil _));
      },
    )

fsm_dequeue_event-Dequeued_example :
    (r : Fsmret × Fsm) × (fsm_dequeue_event idle running ≡ some r) × Dequeued idle running r
fsm_dequeue_event-Dequeued_example =
    fsm_dequeue_event-Dequeued idle running refl running_processes (omega arith) (omega arith)

-- the machine before its event came
abbrev calm : Fsm
calm = record running { pqtable = [] ∷ [] ∷ [] }

calm_waits : (j : ℕ) → queue calm j ≡ []
calm_waits zero = refl
calm_waits (suc zero) = refl
calm_waits (suc (suc j)) = refl

fsm_dequeue_event-fsm_queue_event_example :
    (fsm_queue_event true true calm 3 [] 0 ≡ some (Fsmret.ok, with_event calm 3 [] 0))
    × (r : Fsmret × Fsm) × (fsm_dequeue_event idle (with_event calm 3 [] 0) ≡ some r)
    × Handed calm 3 [] 0 idle r
fsm_dequeue_event-fsm_queue_event_example =
    fsm_dequeue_event-fsm_queue_event calm 3 [] 0 refl (omega arith) calm_waits idle (omega arith)
      running_processes

-- the waiting event is served and leads back to the state
served :
    fsm_dequeue_event idle running ≡ some (Fsmret.ok, record running { pqtable = [] ∷ [] ∷ [] })
unfolding program
served = refl

-- without a queue no priority is in range
queueless :
    fsm_queue_event true true (record running { nqueues = 0; pqtable = [] }) 3 [] 0
    ≡ some (Fsmret.eprio, record running { nqueues = 0; pqtable = [] })
unfolding program
queueless = refl

abbrev lone : State
lone = record { evttable = bare; st_key = 0; flag = false }

state_add_evt-EventAdded_example :
    (r : Stret × State) × (state_add_evt true true true true lone 3 (98 ∷ []) none (some 1)
      ≡ some r)
    × EventAdded true true true lone 3 (event (98 ∷ []) none (some 1)) r
state_add_evt-EventAdded_example =
    state_add_evt-EventAdded lone 3 (98 ∷ []) none (some 1) bare-IsValid (omega arith) (omega arith)
      true true true true

state_rem_evt-state_add_evt_example :
    (t : State) × (u : State) × (key' : ℕ) × (state_add_evt true true true true lone 3
        (98 ∷ [])
        none
        (some 1)
      ≡ some (Stret.ok, t))
    × (state_rem_evt t 3
        ≡ some (
          Stret.ok,
          u,
          Freed.key key'
              ∷ Freed.datum (event (98 ∷ []) none (some 1))
              ∷ Freed.node (record { hn_key = key'; hn_data = event (98 ∷ []) none (some 1) })
              ∷ [],
        ))
    × (key' ≡ 3)
    × ((k : ℕ) → event_of u k ≡ event_of lone k)
state_rem_evt-state_add_evt_example =
    state_rem_evt-state_add_evt lone 3 (98 ∷ []) none (some 1) bare-IsValid (omega arith)
      (omega arith) true ((replicate-Stores {K = ℕ} {V = Event} state_callbacks 2).reads 3)

fsm_init-Started_example :
    (r : FsmStart) × (fsm_init true true true false true cells 2 1 2 ≡ some r)
    × Started true true true false true 2 r
fsm_init-Started_example =
    fsm_init-Started cells 2 1 2 (omega arith) (omega arith) true true true false true

state_init-StateStarted_example :
    (r : StateStart) × (state_init true true true false 0 2 1 ≡ some r)
    × StateStarted true true true false r
state_init-StateStarted_example =
    state_init-StateStarted true true true false 0 2 1 (omega arith) (omega arith)

fsm_free-states_freed_example :
    fsm_free running
    ≡ some (
      Fsmret.ok,
      states_freed running.memory (visited running.sttable.ht_table)
          ++ (sttable_blocks running
              ++ (FsmFreed.sttable
                  ∷ (queue_blocks running
                      ++ FsmFreed.pqtable ∷ FsmFreed.mobj ∷ FsmFreed.fsm ∷ []))),
    )
fsm_free-states_freed_example = fsm_free-states_freed running refl (omega arith)
