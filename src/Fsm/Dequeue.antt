-- ===== src/Fsm/Dequeue.antt =====
-- fsm/fsm.c, `fsm_dequeue_event`: which event is served, and what is left.
use experimentation.Base.{
  ap, sym, zero, ◌%◌, ◌-◌, suc, ◌==◌, ◌+◌, Bool-cases, ◌^◌, ℕ, ◌<◌, ◌≡◌, ◌≢◌, ◌⊎◌, inl, inr, refl,
  ◌∙◌, some, List, [], ◌∷◌, ◌++◌, length, get_elem?-get_or, get_or-set, set, arith,
}
use experimentation.Fsm.Types.{Pqnode, Fsm, Fsmret}
use experimentation.Fsm.Machine.{
  remove_head, dequeue_from, fsm_dequeue_event, serve, fsm_process_event,
}
use experimentation.Fsm.Queue.{queue}

List-cases {ℓ} : {A : Type ℓ} (q : List A) → (q ≡ []) ⊎ ((x : A) × (rest : List A) × (q ≡ x ∷ rest))
List-cases [] = inl refl
List-cases (x ∷ rest) = inr (x, rest, refl)

module _ (act : ℕ → List ℕ → Fsm → Fsm) (f : Fsm) where
  -- processing an event ends, and may add events behind those that wait
  pub record Processed (pnode : Pqnode) (ret : Fsmret) (g : Fsm) : Type 0 where
    pub runs : fsm_process_event act f pnode.evtkey pnode.evtdata ≡ some (ret, g)
    pub width : length g.pqtable ≡ length f.pqtable
    pub appends : (i : ℕ) → (more : List Pqnode) × (queue g i ≡ queue f i ++ more)

  -- the event `pnode` was served from queue `i`, the highest that was not empty
  pub record Served (i : ℕ) (pnode : Pqnode) (g : Fsm) (r : Fsmret × Fsm) : Type 0 where
    pub inside : i < f.nqueues
    pub highest : (j : ℕ) → i < j → j < f.nqueues → queue f j ≡ []
    pub oldest : (rest : List Pqnode) × (queue f i ≡ pnode ∷ rest)
    pub taken : queue g i ≡ pnode ∷ queue r.1 i
    pub others : (j : ℕ) → i ≢ j → queue r.1 j ≡ queue g j
    pub returns : r.0 ≡ Fsmret.ok
    pub machine : (r.1.cstate ≡ g.cstate) × (r.1.memory ≡ g.memory) × (r.1.sttable ≡ g.sttable)

  -- the outcome of `fsm_dequeue_event`
  unfoldable pub Dequeued : Fsmret × Fsm → Type 0
  Dequeued r =
      (((j : ℕ) → j < f.nqueues → queue f j ≡ []) × (r ≡ (Fsmret.empty, f)))
      ⊎ ((i : ℕ) × (pnode : Pqnode) × (ret : Fsmret) × (g : Fsm) × Processed pnode ret g
          × Served i pnode g r)

  module _ (width : length f.pqtable ≡ f.nqueues)
      (process : (pnode : Pqnode) → (ret : Fsmret) × (g : Fsm) × Processed pnode ret g) where
    serve-Served :
        (i : ℕ) (pnode : Pqnode) (rest : List Pqnode)
        → i < f.nqueues
        → queue f i ≡ pnode ∷ rest
        → ((j : ℕ) → i < j → j < f.nqueues → queue f j ≡ [])
        → (ret : Fsmret) × (g : Fsm) × (r : Fsmret × Fsm) × Processed pnode ret g
          × (serve act i pnode f ≡ some r)
          × Served i pnode g r
    unfolding serve remove_head
    serve-Served i pnode rest inside e above =
        let (ret, g, d) = process pnode in
        let (more, eq) = d.appends i in
        let inside' : i < length g.pqtable = omega (arith, d.width) in
        let eq' : queue g i ≡ pnode ∷ (rest ++ more) = rw e at eq in
        let after : queue (record g { pqtable = set g.pqtable i (rest ++ more) }) i ≡ rest ++ more =
          get_or-set g.pqtable i i _ [] inside' ∙ ground arith in
        (
          ret,
          g,
          (Fsmret.ok, record g { pqtable = set g.pqtable i (rest ++ more) }),
          d,
          rw (d.runs, get_elem?-get_or g.pqtable i [] inside', eq'),
          record {
            inside = inside;
            highest = above;
            oldest = (rest, e);
            taken = eq' ∙ ap (λ q. pnode ∷ q) (sym after);
            others = λ j n. get_or-set g.pqtable i j _ [] inside' ∙ ground arith;
            returns = refl;
            machine = (refl, refl, refl);
          },
        )

    dequeue_from-Dequeued :
        (i : ℕ)
        → i < f.nqueues
        → ((j : ℕ) → i < j → j < f.nqueues → queue f j ≡ [])
        → (r : Fsmret × Fsm) × (dequeue_from act i f ≡ some r) × Dequeued r
    unfolding dequeue_from Dequeued
    dequeue_from-Dequeued zero inside above = elim (List-cases (queue f 0)) [
      | inl e ↦ (
        (Fsmret.empty, f),
        rw (get_elem?-get_or f.pqtable 0 [] (omega arith), e),
        inl (
          λ j l. elim (Bool-cases (j == 0)) [
            | inl z ↦ (let z' : j ≡ 0 = ground arith in rw z' e)
            | inr nz ↦ above j (ground arith) l
          ],
          refl,
        ),
      )
      | inr (pnode, rest, e) ↦
          let (ret, g, r, d, run, s) = serve-Served 0 pnode rest inside e above in
          (
            r,
            rw (get_elem?-get_or f.pqtable 0 [] (omega arith), e) run,
            inr (0, pnode, ret, g, d, s),
          )
    ]
    dequeue_from-Dequeued (suc i) inside above = elim (List-cases (queue f (suc i))) [
      | inl e ↦
          let (r, run, d) = dequeue_from-Dequeued i (omega arith) λ j l m.
            elim (Bool-cases (j == suc i)) [
              | inl z ↦ (let z' : j ≡ suc i = ground arith in rw z' e)
              | inr nz ↦ above j (ground arith) m
            ] in
          (r, rw (get_elem?-get_or f.pqtable (suc i) [] (omega arith), e) run, d)
      | inr (pnode, rest, e) ↦
          let (ret, g, r, d, run, s) = serve-Served (suc i) pnode rest inside e above in
          (
            r,
            rw (get_elem?-get_or f.pqtable (suc i) [] (omega arith), e) run,
            inr (suc i, pnode, ret, g, d, s),
          )
    ]

    -- On a machine that has the queues it counts, at least one and fewer than 2 ^ 32,
    -- fsm_dequeue_event never leaves their array, provided that processing an event ends and only
    -- adds events behind those that wait. If all queues are empty it answers FSM_EMPTY and changes
    -- nothing; else it processes the oldest event of the highest priority, and then takes that
    -- event alone out of the queues as processing left them.
    pub fsm_dequeue_event-Dequeued :
        0 < f.nqueues
        → f.nqueues < 2 ^ 32
        → (r : Fsmret × Fsm) × (fsm_dequeue_event act f ≡ some r) × Dequeued r
    unfolding fsm_dequeue_event
    fsm_dequeue_event-Dequeued pos small =
        let start : (f.nqueues + 2 ^ 32 - 1) % 2 ^ 32 ≡ f.nqueues - 1 = omega arith in
        rw start
          (dequeue_from-Dequeued (f.nqueues - 1) (omega arith) (λ j l m. absurd (omega arith)))
