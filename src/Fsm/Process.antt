-- ===== src/Fsm/Process.antt =====
-- fsm/fsm.c, `fsm_process_event`: the transition that an event makes.
use experimentation.Base.{
  ◌⊎◌, ℕ, ◌≡◌, refl, sym, ◌∙◌, true, Option, none, some, List, Option-cases, inl, inr, is_some,
  arith,
}
use mathlib.Core.Path.{subst}
use experimentation.Htable.Validity.{IsValid, contents, htable_search-contents}
use experimentation.Htable.Layout.{view_congr}
use experimentation.Htable.Members.{view-Occurs}
use experimentation.Fsm.Types.{
  Event, Memory, stack, st_key_of, Fsm, Fsmret, deref, fsm_callbacks, state_callbacks,
}
use experimentation.Fsm.Keys.{fsm_callbacks-same, fsm_callbacks-CallbackLaws}
use experimentation.Fsm.Machine.{run_action, enter_state, fsm_process_event}
use experimentation.Fsm.AddState.{registered}
use experimentation.Fsm.Reachability.{Transition}

-- the event that the state handles under a key
abbrev pub handled : Memory → ℕ → ℕ → Option Event
handled m p evtkey = contents state_callbacks (m p).evttable evtkey

-- every table of the machine is valid
pub record IsSound (f : Fsm) : Type 0 where
  pub states : IsValid (fsm_callbacks f.memory) f.sttable
  pub events : (p : ℕ) → IsValid state_callbacks (f.memory p).evttable

-- some state, which need not be this one, is in the table under the key that this state has
abbrev pub HasKnownKey : Fsm → ℕ → Type 0
HasKnownKey f q = is_some (registered f (f.memory q).st_key) ≡ true

at_key :
    (f : Fsm) (q : ℕ)
    → contents (fsm_callbacks f.memory) f.sttable (st_key_of q) ≡ registered f (f.memory q).st_key
at_key f q =
    view_congr (fsm_callbacks f.memory) (fsm_callbacks-CallbackLaws f.memory) f.sttable.ht_table
      (st_key_of q) (stack (f.memory q).st_key)
      (fsm_callbacks-same f.memory (st_key_of q) (stack (f.memory q).st_key)
        ∙ (unfold deref in ground arith))

enter_state-HasKnownKey :
    (g : Fsm) (o : Option ℕ)
    → IsSound g
    → (r : Fsmret × Fsm) × (enter_state o g ≡ some r)
      × (((r ≡ (Fsmret.enotfound, g)) × ((q : ℕ) → o ≡ some q → ¬ HasKnownKey g q))
          ⊎ ((q : ℕ) × (o ≡ some q)
              × HasKnownKey g q
              × (r ≡ (Fsmret.ok, record g { cstate = some q }))))
unfolding enter_state
enter_state-HasKnownKey g none sound =
    ((Fsmret.enotfound, g), refl, inl (refl, λ q e. absurd (cc e)))
enter_state-HasKnownKey g (some q) sound =
    let search = htable_search-contents (fsm_callbacks g.memory) (st_key_of q) sound.states in
    elim (Option-cases (registered g (g.memory q).st_key)) [
      | inl e ↦ (
        (Fsmret.enotfound, g),
        rw (search, at_key g q, e),
        inl (
          refl,
          λ q' e' reg.
              (let same : q ≡ q' = ground arith in
                absurd (cc (e, subst (λ x. HasKnownKey g x) (sym same) reg))),
        ),
      )
      | inr (p, e) ↦ (
        (Fsmret.ok, record g { cstate = some q }),
        rw (search, at_key g q, e),
        inr (q, refl, rw e, refl),
      )
    ]

module _ (act : ℕ → List ℕ → Fsm → Fsm) where
  -- what a handled event does: it enters its new state, or stays where its action left the machine
  abbrev pub Acts : Fsm → ℕ → List ℕ → Fsmret × Fsm → Event → Type 0
  Acts f p evtdata r e =
      let g = run_action act e.evt_actionf evtdata f in
      ((r ≡ (Fsmret.enotfound, g)) × ((q : ℕ) → e.evt_newstate ≡ some q → ¬ HasKnownKey g q))
      ⊎ ((q : ℕ) × (e.evt_newstate ≡ some q)
          × HasKnownKey g q
          × Transition f.memory p q
          × (r ≡ (Fsmret.ok, record g { cstate = some q })))

  -- the outcome of `fsm_process_event` in the state `p`
  pub record Stepped (f : Fsm) (p evtkey : ℕ) (evtdata : List ℕ) (r : Fsmret × Fsm) : Type 0 where
    pub unhandled : handled f.memory p evtkey ≡ none → r ≡ (Fsmret.enotfound, f)
    pub acted : (e : Event) → handled f.memory p evtkey ≡ some e → Acts f p evtdata r e

  -- In a current state, with valid tables before and after the action, fsm_process_event never
  -- leaves an array. An event that the state does not handle changes nothing and gives
  -- FSM_ENOTFOUND. Else its action runs first; then, if the event has a new state and some state,
  -- this one or another, is registered under its key, the machine enters the new state, by a
  -- transition of the old one, and answers FSM_OK; if not, it stays where the action left it and
  -- answers FSM_ENOTFOUND.
  pub fsm_process_event-Stepped :
      (f : Fsm) (p evtkey : ℕ) (evtdata : List ℕ)
      → f.cstate ≡ some p
      → IsSound f
      → ((a : Option ℕ) → IsSound (run_action act a evtdata f))
      → (r : Fsmret × Fsm) × (fsm_process_event act f evtkey evtdata ≡ some r)
        × Stepped f p evtkey evtdata r
  unfolding fsm_process_event
  fsm_process_event-Stepped f p evtkey evtdata current sound after =
      let search = htable_search-contents state_callbacks evtkey (sound.events p) in
      elim (Option-cases (handled f.memory p evtkey)) [
        | inl e ↦ (
          (Fsmret.enotfound, f),
          simp (current, search, e),
          record { unhandled = λ _. refl; acted = λ pevt e'. absurd (cc (e, e')) },
        )
        | inr (pevt, e) ↦
            let (r, run, cases) =
              enter_state-HasKnownKey (run_action act pevt.evt_actionf evtdata f) pevt.evt_newstate
                (after pevt.evt_actionf) in
            let (enode, o, d, same) =
              view-Occurs state_callbacks (f.memory p).evttable.ht_table evtkey e in
            let acts : Acts f p evtdata r pevt = elim cases [
              | inl stays ↦ inl stays
              | inr (q, to, reg, eq) ↦ inr (q, to, reg, (enode, o, rw d to), eq)
            ] in
            (
              r,
              simp (current, search, e) run,
              record {
                unhandled = λ e'. absurd (cc (e, e'));
                acted = λ pevt' e'.
                    (let same' : pevt ≡ pevt' = cc (e, e') in
                      subst (λ x. Acts f p evtdata r x) same' acts);
              },
            )
      ]
