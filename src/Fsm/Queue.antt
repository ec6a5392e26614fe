-- ===== src/Fsm/Queue.antt =====
-- fsm/fsm.c: the queues of events, by priority.
use experimentation.Base.{
  ℕ, ◌+◌, ◌≤◌, ◌<◌, ◌≡◌, inl, inr, refl, Bool, true, false, ◌&&◌, some, List, [], ◌∷◌, ◌++◌, leb,
  if◌then◌else◌, length, length-append, flatten, get_or, get_elem?-get_or, get_or-set, set,
  length-flatten-set, ◌==◌, arith, Bool-cases,
}
use experimentation.Fsm.Types.{Pqnode, Fsm, Fsmret}
use experimentation.Fsm.Machine.{fsm_queue_event, count_queue, count_queues, fsm_get_queued_events}

-- the events of priority `i`, oldest first
abbrev pub queue : Fsm → ℕ → List Pqnode
queue f i = get_or f.pqtable i []

count_queue-length : (q : List Pqnode) (total : ℕ) → count_queue q total ≡ total + length q
unfolding count_queue
count_queue-length [] total = omega arith
count_queue-length (pnode ∷ q) total = omega (arith, count_queue-length q (total + 1))

count_queues-length :
    (qs : List (List Pqnode)) (total : ℕ) → count_queues qs total ≡ total + length (flatten qs)
unfolding count_queues flatten
count_queues-length [] total = omega arith
count_queues-length (q ∷ qs) total = omega (
  arith,
  count_queues-length qs (count_queue q total),
  count_queue-length q total,
  length-append q (flatten qs),
)

pub fsm_get_queued_events-length : (f : Fsm) → fsm_get_queued_events f ≡ length (flatten f.pqtable)
unfolding fsm_get_queued_events
fsm_get_queued_events-length f = omega (arith, count_queues-length f.pqtable 0)

-- the outcome of `fsm_queue_event`
pub record Queued (got_node got_data : Bool) (f : Fsm) (evtkey : ℕ) (pdata : List ℕ) (p : ℕ)
    (r : Fsmret × Fsm) : Type 0 where
  pub refused : f.nqueues ≤ p → r ≡ (Fsmret.eprio, f)
  pub exhausted : p < f.nqueues → (got_node && got_data) ≡ false → r ≡ (Fsmret.enomem, f)
  pub returns : p < f.nqueues → (got_node && got_data) ≡ true → r.0 ≡ Fsmret.ok
  pub queues :
      p < f.nqueues
      → (got_node && got_data) ≡ true
      → (i : ℕ)
      → queue r.1 i ≡ (
          if p == i
          then queue f p ++ record { evtdata = pdata; evtkey = evtkey; prio = p } ∷ []
          else queue f i)
  pub counted :
      p < f.nqueues
      → (got_node && got_data) ≡ true
      → fsm_get_queued_events r.1 ≡ fsm_get_queued_events f + 1

-- On a machine that has the queues it counts fsm_queue_event never leaves their array. A priority
-- out of range gives FSM_EPRIO and no memory FSM_ENOMEM, both with nothing changed; else the event
-- is the last of its queue, the other queues are as before, and fsm_get_queued_events counts one
-- more.
pub fsm_queue_event-Queued :
    (got_node got_data : Bool) (f : Fsm) (evtkey : ℕ) (pdata : List ℕ) (p : ℕ)
    → length f.pqtable ≡ f.nqueues
    → (r : Fsmret × Fsm) × (fsm_queue_event got_node got_data f evtkey pdata p ≡ some r)
      × Queued got_node got_data f evtkey pdata p r
unfolding fsm_queue_event
fsm_queue_event-Queued got_node got_data f evtkey pdata p width =
    elim (Bool-cases (leb f.nqueues p)) [
      | inl e ↦ (
        (Fsmret.eprio, f),
        rw e,
        record {
          refused = λ _. refl;
          exhausted = λ l. absurd (ground arith);
          returns = λ l. absurd (ground arith);
          queues = λ l. absurd (ground arith);
          counted = λ l. absurd (ground arith);
        },
      )
      | inr e ↦ elim (Bool-cases (got_node && got_data)) [
        | inr off ↦ (
          (Fsmret.enomem, f),
          ground arith,
          record {
            refused = λ l. absurd (ground arith);
            exhausted = λ _ _. refl;
            returns = λ _ on. absurd (ground arith);
            queues = λ _ on. absurd (ground arith);
            counted = λ _ on. absurd (ground arith);
          },
        )
        | inl on ↦
            let new : Pqnode = record { evtdata = pdata; evtkey = evtkey; prio = p } in
            let inside : p < length f.pqtable = ground arith in
            (
              (Fsmret.ok, record f { pqtable = set f.pqtable p (queue f p ++ new ∷ []) }),
              ground (arith, get_elem?-get_or f.pqtable p [] inside),
              record {
                refused = λ l. absurd (ground arith);
                exhausted = λ _ off. absurd (ground arith);
                returns = λ _ _. refl;
                queues = λ _ _ i. get_or-set f.pqtable p i _ [] inside;
                counted = λ _ _. rw (fsm_get_queued_events-length) (
                    omega (
                      arith,
                      fsm_get_queued_events-length f,
                      length-flatten-set f.pqtable p (queue f p ++ new ∷ []) inside,
                      length-append (queue f p) (new ∷ []),
                    ));
              },
            )
      ]
    ]
