-- ===== src/Fsm/Served.antt =====
-- fsm/fsm.c: an event that is queued while no other waits is the one that is served.
use mathlib.Core.Path.{subst}
use native.Mathlib.Decide.{ℕ_discrete}
use experimentation.Base.{
  sym, ℕ, ◌^◌, ◌<◌, ◌≡◌, ◌≢◌, inl, inr, refl, ap, ◌∙◌, ◌>>=◌, true, false, some, List, [], ◌∷◌,
  ◌++◌, length, get_or-set, get_elem?-get_or, set, leb, ◌==◌, if◌then◌else◌, length-set, arith,
}
use experimentation.Fsm.Types.{Pqnode, Fsm, Fsmret}
use experimentation.Fsm.Machine.{fsm_queue_event, fsm_dequeue_event}
use experimentation.Fsm.Queue.{queue}
use experimentation.Fsm.Dequeue.{Processed, Served, Dequeued, fsm_dequeue_event-Dequeued}

module _ (f : Fsm) (evtkey : ℕ) (pdata : List ℕ) (p : ℕ) where
  -- the event that is queued
  abbrev pub event : Pqnode
  event = record { evtdata = pdata; evtkey = evtkey; prio = p }

  -- the machine with the event in its queue
  abbrev pub with_event : Fsm
  with_event = record f { pqtable = set f.pqtable p (queue f p ++ event ∷ []) }

  -- the event was processed and taken out of the queues
  pub record Handed (act : ℕ → List ℕ → Fsm → Fsm) (r : Fsmret × Fsm) : Type 0 where
    pub ret : Fsmret
    pub after : Fsm
    pub processed : Processed act with_event event ret after
    pub returns : r.0 ≡ Fsmret.ok
    pub taken : queue after p ≡ event ∷ queue r.1 p
    pub others : (j : ℕ) → p ≢ j → queue r.1 j ≡ queue after j

  module _ (width : length f.pqtable ≡ f.nqueues) (inside : p < f.nqueues)
      (waiting : (j : ℕ) → queue f j ≡ []) where
    queue_event-runs : fsm_queue_event true true f evtkey pdata p ≡ some (Fsmret.ok, with_event)
    unfolding fsm_queue_event
    queue_event-runs =
        let off : leb f.nqueues p ≡ false = ground arith in
        rw (off, get_elem?-get_or f.pqtable p [] (omega (arith, width)), ◌>>=◌) refl

    queue-with_event : (i : ℕ) → queue with_event i ≡ (if p == i then event ∷ [] else [])
    queue-with_event i =
        get_or-set f.pqtable p i (queue f p ++ event ∷ []) [] (omega (arith, width))
        ∙ (rw (waiting p, waiting i) refl)

    only-event :
        (i : ℕ) (pnode : Pqnode) (rest : List Pqnode)
        → queue with_event i ≡ pnode ∷ rest
        → (p ≡ i) × (pnode ≡ event)
    only-event i pnode rest e = elim (ℕ_discrete p i) [
      | yes same ↦
          let on : p == i ≡ true = ground arith in
          let one : queue with_event i ≡ event ∷ [] = queue-with_event i ∙ (rw on refl) in
          (same, cc (one, e))
      | no apart ↦
          let off : p == i ≡ false = ground arith in
          let none_waits : queue with_event i ≡ [] = queue-with_event i ∙ (rw off refl) in
          absurd (cc (none_waits, e))
    ]

    handed :
        (act : ℕ → List ℕ → Fsm → Fsm) (r : Fsmret × Fsm) (i : ℕ) (pnode : Pqnode) (ret : Fsmret)
        (g : Fsm)
        → p ≡ i
        → pnode ≡ event
        → Processed act with_event pnode ret g
        → Served act with_event i pnode g r
        → Handed act r
    handed act r i pnode ret g at this done served = record {
      ret = ret;
      after = g;
      processed = subst (λ x. Processed act with_event x ret g) this done;
      returns = served.returns;
      taken =
          subst (λ k. queue g k ≡ event ∷ queue r.1 k) (sym at)
            (served.taken ∙ ap (λ x. x ∷ queue r.1 i) this);
      others = λ j apart. served.others j (λ same. apart (at ∙ same));
    }

    -- On a machine that has the queues it counts, fewer than 2 ^ 32, where no event waits and where
    -- processing an event ends and only adds events behind those that wait: with memory and a
    -- priority in range, fsm_queue_event and then fsm_dequeue_event both answer FSM_OK. The event
    -- that was queued is processed, with its key and its data, while it waits, and is then taken
    -- alone out of the queues as processing left them.
    pub fsm_dequeue_event-fsm_queue_event :
        (act : ℕ → List ℕ → Fsm → Fsm)
        → f.nqueues < 2 ^ 32
        → ((pnode : Pqnode) → (ret : Fsmret) × (g : Fsm) × Processed act with_event pnode ret g)
        → (fsm_queue_event true true f evtkey pdata p ≡ some (Fsmret.ok, with_event))
          × (r : Fsmret × Fsm) × (fsm_dequeue_event act with_event ≡ some r)
          × Handed act r
    unfolding Dequeued
    fsm_dequeue_event-fsm_queue_event act small process =
        let wide : length (with_event.pqtable) ≡ f.nqueues =
          length-set f.pqtable p (queue f p ++ event ∷ []) ∙ width in
        let on : p == p ≡ true = ground arith in
        let one_waits : queue with_event p ≡ event ∷ [] = queue-with_event p ∙ (rw on refl) in
        let (r, run, d) =
          fsm_dequeue_event-Dequeued act with_event wide process (omega arith) small in
        (
          queue_event-runs,
          r,
          run,
          elim d [
            | inl (quiet, same) ↦ absurd (cc (quiet p inside, one_waits))
            | inr (i, pnode, ret, g, done, served) ↦
                let (rest, e) = served.oldest in
                let (at, this) = only-event i pnode rest e in
                handed act r i pnode ret g at this done served
          ],
        )
