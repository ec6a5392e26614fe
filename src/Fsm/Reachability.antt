-- ===== src/Fsm/Reachability.antt =====
-- fsm/fsm.c, `fsm_mark_reachable_states`: what the marks mean.
use experimentation.Base.{
  ℕ, ◌<◌, ◌≡◌, refl, true, some, length, flatten, ◌==◌, arith, Bool-cases, inl, inr, size_mod,
}
use mathlib.Core.Path.{subst}
use experimentation.Htable.Types.{Hnode}
use experimentation.Htable.Iteration.{visited}
use experimentation.Htable.Loops.{Occurs, Occurs-visited, Keeps, for_each_elm_inv}
use experimentation.Fsm.Types.{Event, Memory, KeyPtr, Fsm}
use experimentation.Fsm.Machine.{
  mark_as_reachable, mark_event, mark_events, fsm_mark_reachable_states,
}

-- some event of the state `p` leads to the state `q`
abbrev pub Transition : Memory → ℕ → ℕ → Type 0
Transition m p q =
    (enode : Hnode ℕ Event) × Occurs enode (flatten (m p).evttable.ht_table)
    × (enode.hn_data.evt_newstate ≡ some q)

-- the states that transitions lead to from the marked ones
pub data Reachable (m : Memory) : ℕ → Type 0 where
  marked : {p : ℕ} → (m p).flag ≡ true → Reachable m p
  via : {p q : ℕ} → Reachable m p → Transition m p q → Reachable m q

-- the tables have the size that they say, and no event that a loop sees lacks its new state
pub record IsLinked (f : Fsm) : Type 0 where
  pub width : length f.sttable.ht_table ≡ f.sttable.ht_size
  pub sized : f.sttable.ht_size < size_mod
  pub evt_width : (p : ℕ) → length (f.memory p).evttable.ht_table ≡ (f.memory p).evttable.ht_size
  pub evt_sized : (p : ℕ) → (f.memory p).evttable.ht_size < size_mod
  pub linked :
      (p : ℕ) (enode : Hnode ℕ Event)
      → Occurs enode (visited (f.memory p).evttable.ht_table)
      → (q : ℕ) × (enode.hn_data.evt_newstate ≡ some q)

-- `m'` has the tables and keys of `m`, the marks of `m`, and others on reachable states only
pub record Marks (m m' : Memory) : Type 0 where
  pub tables : (p : ℕ) → (m' p).evttable ≡ (m p).evttable
  pub keys : (p : ℕ) → (m' p).st_key ≡ (m p).st_key
  pub sound : (p : ℕ) → (m' p).flag ≡ true → Reachable m p
  pub kept : (p : ℕ) → (m p).flag ≡ true → (m' p).flag ≡ true

Marks-refl : (m : Memory) → Marks m m
Marks-refl m = record {
  tables = λ p. refl;
  keys = λ p. refl;
  sound = λ p e. marked e;
  kept = λ p e. e;
}

flag-mark : (q p : ℕ) (m : Memory) → (m p).flag ≡ true → (mark_as_reachable q m p).flag ≡ true
unfolding mark_as_reachable
flag-mark q p m e = ground arith

pub flag-mark_self : (q : ℕ) (m : Memory) → (mark_as_reachable q m q).flag ≡ true
unfolding mark_as_reachable
flag-mark_self q m = ground arith

Marks-mark : (m m' : Memory) (q : ℕ) → Marks m m' → Reachable m q → Marks m (mark_as_reachable q m')
unfolding mark_as_reachable
Marks-mark m m' q k reach = record {
  tables = λ p. ground (arith, k.tables p);
  keys = λ p. ground (arith, k.keys p);
  sound = λ p e. elim (Bool-cases (q == p)) [
    | inl same ↦ (let e' : q ≡ p = ground arith in rw (← e') reach)
    | inr other ↦ k.sound p (ground arith)
  ];
  kept = λ p e. flag-mark q p m' (k.kept p e);
}

module _ (f : Fsm) (good : IsLinked f) where
  -- the event was followed, if its state had a mark at the start
  Followed : ℕ → Hnode ℕ Event → Memory → Type 0
  Followed p enode m =
      (f.memory p).flag ≡ true → (q : ℕ) → enode.hn_data.evt_newstate ≡ some q → (m q).flag ≡ true

  -- what holds in the inner loop that began at `m`
  Since : Memory → Memory → Type 0
  Since m m' = Marks f.memory m' × ((q : ℕ) → (m q).flag ≡ true → (m' q).flag ≡ true)

  mark_event-Keeps :
      (p : ℕ) (m : Memory) (enode : Hnode ℕ Event)
      → Occurs enode (visited (f.memory p).evttable.ht_table)
      → (s : Memory) → Since m s
      → (s' : Memory) × Keeps (mark_event p) (Since m) (Followed p) enode s s'
  unfolding Since Followed
  mark_event-Keeps p m enode o s (k, mono) = elim (Bool-cases (s p).flag) [
    | inr off ↦ (
      s,
      record {
        runs = rw off;
        holds = (k, mono);
        done = λ e q to. absurd (cc (off, k.kept p e));
        keeps = λ n d. d;
      },
    )
    | inl on ↦
        let (q, to) = good.linked p enode o in
        let reach =
          via (k.sound p on) (enode, Occurs-visited enode (f.memory p).evttable.ht_table o, to) in
        (
          mark_as_reachable q s,
          record {
            runs = rw (on, to);
            holds = (Marks-mark f.memory s q k reach, λ x e. flag-mark q x s (mono x e));
            done = λ e q' to'.
                (let same : q ≡ q' = cc (to, to') in
                  subst (λ x. (mark_as_reachable q s x).flag ≡ true) same (flag-mark_self q s));
            keeps = λ n d e x to'. flag-mark q x s (d e x to');
          },
        )
  ]

  mark_events-Marks :
      (p : ℕ) (m : Memory)
      → Marks f.memory m
      → (m' : Memory) × (mark_events p m ≡ some m')
        × Marks f.memory m'
        × ((enode : Hnode ℕ Event)
            → Occurs enode (visited (f.memory p).evttable.ht_table)
            → Followed p enode m')
        × ((q : ℕ) → (m q).flag ≡ true → (m' q).flag ≡ true)
  unfolding mark_events Since
  mark_events-Marks p m k =
      let (m', run, (k', mono), done, kept) =
        for_each_elm_inv (mark_event p) (Since m) (Followed p) (f.memory p).evttable
          (good.evt_width p) (good.evt_sized p)
          (λ enode o s since. mark_event-Keeps p m enode o s since) m (k, λ q e. e) in
      (m', rw (k.tables p) run, k', done, mono)

  -- every event that the inner loop sees was followed
  FollowedAll : Hnode KeyPtr ℕ → Memory → Type 0
  FollowedAll snode m =
      (enode : Hnode ℕ Event)
      → Occurs enode (visited (f.memory snode.hn_data).evttable.ht_table)
      → Followed snode.hn_data enode m

  -- On a machine whose tables have the size they say and whose events all have a new state,
  -- fsm_mark_reachable_states ends with every table and key as it was. It keeps all marks, puts new
  -- ones only on states that transitions reach from the marked ones, and marks every state to which
  -- an event of a marked state leads, where its loops see the state and the event.
  pub fsm_mark_reachable_states-Marks :
      (m : Memory) × (fsm_mark_reachable_states f ≡ some (record f { memory = m }))
      × Marks f.memory m
      × ((snode : Hnode KeyPtr ℕ) (enode : Hnode ℕ Event) (q : ℕ)
          → Occurs snode (visited f.sttable.ht_table)
          → Occurs enode (visited (f.memory snode.hn_data).evttable.ht_table)
          → (f.memory snode.hn_data).flag ≡ true
          → enode.hn_data.evt_newstate ≡ some q
          → (m q).flag ≡ true)
  unfolding fsm_mark_reachable_states FollowedAll Followed
  fsm_mark_reachable_states-Marks =
      let (m, run, k, done, kept) =
        for_each_elm_inv (λ snode m. mark_events snode.hn_data m) (Marks f.memory) FollowedAll
          f.sttable good.width good.sized
          (λ snode o s k.
            let (s', run, k', done, mono) = mark_events-Marks snode.hn_data s k in
            (
              s',
              record {
                runs = run;
                holds = k';
                done = done;
                keeps = λ n d enode o' e q to. mono q (d enode o' e q to);
              },
            ))
          f.memory (Marks-refl f.memory) in
      (m, rw run, k, λ snode enode q os oe e to. done snode os enode oe e q to)
