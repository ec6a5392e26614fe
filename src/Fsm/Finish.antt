-- ===== src/Fsm/Finish.antt =====
-- fsm/fsm.c, `fsm_free`: what is given to `free`.
use mathlib.Core.List.{map-append}
use experimentation.Base.{
  map, append_assoc, List, [], ap, append-nil, flatten, length, refl, size_mod, some, sym, ℕ, ◌++◌,
  ◌<◌, ◌∙◌, ◌∷◌, ◌≡◌,
}
use experimentation.Fsm.Setup.{
  FsmFreed, free_queue, free_queues, free_states, fsm_free, of_states, of_sttables, of_state,
  of_sttable,
}
use experimentation.Fsm.States.{state_free, of_evttables, StateFreed}
use experimentation.Fsm.Types.{Event, Fsm, Fsmret, KeyPtr, Memory, Pqnode, State}
use experimentation.Htable.Iteration.{each_node, for_each_elm-visited, visited}
use experimentation.Htable.Memory.{htable_free, htable_free_all_obj}
use experimentation.Htable.Release.{both_contents, htable_free_complete, htable_free_keys}
use experimentation.Htable.Types.{Freed, Hnode}

-- the key and the event of every node of a state's table, the nodes, the array, the table, the state
pub state_blocks : State → List StateFreed
state_blocks s =
    let enodes = flatten s.evttable.ht_table in
    map StateFreed.of_evttable (both_contents enodes ++ (map Freed.node enodes ++ Freed.table ∷ []))
    ++ StateFreed.evttable ∷ StateFreed.state ∷ []

-- the key of every state, the nodes, and the array of the table of states
pub sttable_blocks : Fsm → List FsmFreed
sttable_blocks f =
    let snodes = flatten f.sttable.ht_table in
    map of_sttable (
      map (λ (n : Hnode KeyPtr ℕ). Freed.key n.hn_key) snodes
      ++ (map Freed.node snodes ++ Freed.table ∷ []))

-- the data and the node of every waiting event
pub queue_blocks : Fsm → List FsmFreed
queue_blocks f =
    flatten
      (map (λ (n : Pqnode). FsmFreed.pqdata n.evtdata ∷ FsmFreed.pqnode n ∷ []) (flatten f.pqtable))

-- the blocks of the states that the nodes point to
pub states_freed : Memory → List (Hnode KeyPtr ℕ) → List FsmFreed
states_freed m nodes =
    flatten
      (map (λ (n : Hnode KeyPtr ℕ). map (of_state n.hn_data) (state_blocks (m n.hn_data))) nodes)

of_evttables-map : (xs : List (Freed ℕ Event)) → of_evttables xs ≡ map StateFreed.of_evttable xs
unfolding of_evttables
of_evttables-map [] = refl
of_evttables-map (x ∷ xs) = rw (of_evttables-map xs) refl

of_sttables-map : (xs : List (Freed KeyPtr ℕ)) → of_sttables xs ≡ map of_sttable xs
unfolding of_sttables
of_sttables-map [] = refl
of_sttables-map (x ∷ xs) = rw (of_sttables-map xs) refl

of_states-map : (p : ℕ) (xs : List StateFreed) → of_states p xs ≡ map (of_state p) xs
unfolding of_states
of_states-map p [] = refl
of_states-map p (x ∷ xs) = rw (of_states-map p xs) refl

state_free-blocks : (s : State) → state_free s ≡ state_blocks s
unfolding state_free state_blocks
state_free-blocks s =
    let all = htable_free_all_obj s.evttable 3 in
    let shell = htable_free s.evttable in
    rw (of_evttables-map all, of_evttables-map shell)
      (sym (append_assoc (map StateFreed.of_evttable all) (map StateFreed.of_evttable shell) _)
        ∙ ap (λ l. l ++ StateFreed.evttable ∷ StateFreed.state ∷ [])
            (sym (map-append StateFreed.of_evttable all shell)
              ∙ ap (map StateFreed.of_evttable) (htable_free_complete s.evttable)))

sttable-blocks :
    (f : Fsm)
    → of_sttables (htable_free_all_obj f.sttable 1) ++ of_sttables (htable_free f.sttable)
      ≡ sttable_blocks f
unfolding sttable_blocks
sttable-blocks f =
    let all = htable_free_all_obj f.sttable 1 in
    let shell = htable_free f.sttable in
    rw (of_sttables-map all, of_sttables-map shell)
      (sym (map-append of_sttable all shell) ∙ ap (map of_sttable) (htable_free_keys f.sttable))

free_queue-append : (a b : List Pqnode) → free_queue (a ++ b) ≡ free_queue a ++ free_queue b
unfolding free_queue
free_queue-append [] b = refl
free_queue-append (n ∷ a) b = rw (free_queue-append a b) refl

free_queues-flatten : (qs : List (List Pqnode)) → free_queues qs ≡ free_queue (flatten qs)
unfolding free_queues free_queue flatten
free_queues-flatten [] = refl
free_queues-flatten (q ∷ qs) = rw (free_queues-flatten qs, free_queue-append q (flatten qs)) refl

free_queue-blocks :
    (q : List Pqnode)
    → free_queue q
      ≡ flatten (map (λ (n : Pqnode). FsmFreed.pqdata n.evtdata ∷ FsmFreed.pqnode n ∷ []) q)
unfolding free_queue flatten
free_queue-blocks [] = refl
free_queue-blocks (n ∷ q) = rw (free_queue-blocks q) refl

each_node-states_freed :
    (m : Memory) (nodes : List (Hnode KeyPtr ℕ)) (out : List FsmFreed)
    → each_node
        (λ snode o. some (o ++ of_states snode.hn_data (state_free (m snode.hn_data))))
        nodes
        out
      ≡ some (out ++ states_freed m nodes)
unfolding each_node states_freed flatten
each_node-states_freed m [] out = ap some (sym (append-nil out))
each_node-states_freed m (snode ∷ nodes) out =
    let p = snode.hn_data in
    each_node-states_freed m nodes _
    ∙ ap some (
        append_assoc out (of_states p (state_free (m p))) (states_freed m nodes)
        ∙ ap (λ l. out ++ (l ++ states_freed m nodes))
            (of_states-map p (state_free (m p)) ∙ ap (map (of_state p)) (state_free-blocks (m p))))

-- Where the array of states has the size that it says, below 2 ^ 64, fsm_free ends. It gives to
-- free, for each state that a loop over an iterator of their table visits, and for no other, the
-- key and the event of every node of its table, the nodes, the array, the table and the state; then
-- the keys of all states, their nodes, the array and the table; then the data and the node of every
-- event in a queue, one after the other; then the blocks of the machine.
pub fsm_free-states_freed :
    (f : Fsm)
    → length f.sttable.ht_table ≡ f.sttable.ht_size
    → f.sttable.ht_size < size_mod
    → fsm_free f
      ≡ some (
        Fsmret.ok,
        states_freed f.memory (visited f.sttable.ht_table)
            ++ (sttable_blocks f
                ++ (FsmFreed.sttable
                    ∷ (queue_blocks f ++ FsmFreed.pqtable ∷ FsmFreed.mobj ∷ FsmFreed.fsm ∷ []))),
      )
unfolding fsm_free free_states queue_blocks
fsm_free-states_freed f width sized =
    let loop =
      for_each_elm-visited f.sttable width sized
        (λ snode o. some (o ++ of_states snode.hn_data (state_free (f.memory snode.hn_data)))) []
      ∙ each_node-states_freed f.memory (visited f.sttable.ht_table) [] in
    let queues = free_queues-flatten f.pqtable ∙ free_queue-blocks (flatten f.pqtable) in
    let out = states_freed f.memory (visited f.sttable.ht_table) in
    let last : List FsmFreed =
      FsmFreed.sttable ∷ (queue_blocks f ++ FsmFreed.pqtable ∷ FsmFreed.mobj ∷ FsmFreed.fsm ∷ []) in
    rw (loop, queues)
      (ap (λ l. some (Fsmret.ok, out ++ l))
        (sym (
            append_assoc (of_sttables (htable_free_all_obj f.sttable 1))
              (of_sttables (htable_free f.sttable)) last)
          ∙ ap (λ l. l ++ last) (sttable-blocks f)))
