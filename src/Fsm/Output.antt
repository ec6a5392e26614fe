-- ===== src/Fsm/Output.antt =====
-- fsm/fsm.c: the functions that print a machine, and those of the minimisation, which does nothing yet.
use experimentation.Base.{ℕ, Bool, Option, some, List, [], ◌∷◌, ◌++◌, ◌>>=◌, if◌then◌else◌, not}
use experimentation.Htable.Walk.{for_each_elm}
use experimentation.Fsm.Types.{Event, Fsm, deref}
use experimentation.Fsm.States.{state_print_evts}

-- `fprintf(fp, …)`, and `printf`, which does not go to `fp`
pub data Stream : Type 0 where
  to_fp to_stdout : Stream

-- the lines of a graph; an edge has the keys of its states and of its event
pub data Line : Type 0 where
  digraph close : Line
  edge : ℕ → ℕ → ℕ → Line

-- the inner loop over the events of one state
unfoldable pub export_events : Fsm → ℕ → ℕ → List (Stream × Line) → Option (List (Stream × Line))
export_events pfsm skey pstate out =
    for_each_elm (pfsm.memory pstate).evttable
      (λ enode out'. enode.hn_data.evt_newstate >>= λ q.
        some (out' ++ (to_stdout, edge skey (pfsm.memory q).st_key enode.hn_key) ∷ []))
      out

unfoldable pub fsm_export_to_dot : Fsm → Option (List (Stream × Line))
fsm_export_to_dot pfsm =
    for_each_elm pfsm.sttable
      (λ snode out. export_events pfsm (deref pfsm.memory snode.hn_key) snode.hn_data out)
      ((to_fp, digraph) ∷ [])
    >>= λ out. some (out ++ (to_fp, close) ∷ [])

-- one line of `fsm_print_states`, which goes to `fp`, and the events of the state, which do not
pub data StateLine : Type 0 where
  state_line : ℕ → Bool → StateLine
  events : List ℕ → StateLine

unfoldable pub fsm_print_states : (ℕ → Event → List ℕ) → Fsm → Option (List (Stream × StateLine))
fsm_print_states printf pfsm =
    for_each_elm pfsm.sttable
      (λ snode out.
        let pstate = pfsm.memory snode.hn_data in
        some (
          out
          ++ (to_fp, state_line pstate.st_key pstate.flag)
            ∷ (to_stdout, events (state_print_evts printf pstate))
            ∷ []))
      []

unfoldable pub fsm_remove_unreachable_state : Fsm → ℕ → Fsm
fsm_remove_unreachable_state pfsm pstate = pfsm

unfoldable pub fsm_minimize : Fsm → Option Fsm
fsm_minimize pfsm =
    for_each_elm pfsm.sttable
      (λ snode f.
        if not (f.memory snode.hn_data).flag
        then some (fsm_remove_unreachable_state f snode.hn_data)
        else some f)
      pfsm
