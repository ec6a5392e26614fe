-- ===== src/Fsm/SetState.antt =====
-- fsm/fsm.c, `fsm_set_state` and `fsm_get_current_state`: how a machine is put into a state.
use experimentation.Base.{
  ℕ, ◌+◌, ◌*◌, ◌<◌, ◌≡◌, refl, ap, ◌∙◌, Bool, true, false, none, some, Option-cases, inl, inr,
  is_some, arith, size_mod,
}
use mathlib.Core.Path.{subst}
use experimentation.Htable.Iteration.{visited}
use experimentation.Htable.Loops.{Occurs}
use experimentation.Htable.Validity.{IsValid, htable_search-contents}
use experimentation.Fsm.Types.{Memory, stack, Fsm, Fsmret, fsm_callbacks}
use experimentation.Fsm.Machine.{
  mark_as_reachable, fsm_set_state, fsm_get_current_state, fsm_add_state,
}
use experimentation.Fsm.Registry.{AllSpare, rekeyed}
use experimentation.Fsm.AddState.{registered, fsm_add_state-Added}
use experimentation.Fsm.Reachability.{
  IsLinked, Marks, flag-mark_self, fsm_mark_reachable_states-Marks,
}

-- a memory whose states have the same tables of events is linked alike
IsLinked-frame :
    (f : Fsm) (m : Memory)
    → ((p : ℕ) → (m p).evttable ≡ (f.memory p).evttable)
    → IsLinked f
    → IsLinked (record f { memory = m })
IsLinked-frame f m same good = record {
  width = good.width;
  sized = good.sized;
  evt_width = λ p. rw (same p) (good.evt_width p);
  evt_sized = λ p. rw (same p) (good.evt_sized p);
  linked =
      λ p enode o. good.linked p enode (subst (λ t. Occurs enode (visited t.ht_table)) (same p) o);
}

evttable-mark : (p : ℕ) (m : Memory) (q : ℕ) → (mark_as_reachable p m q).evttable ≡ (m q).evttable
unfolding mark_as_reachable
evttable-mark p m q = ground arith

st_key-mark : (p : ℕ) (m : Memory) (q : ℕ) → (mark_as_reachable p m q).st_key ≡ (m q).st_key
unfolding mark_as_reachable
st_key-mark p m q = ground arith

-- the outcome of `fsm_set_state`
pub record Set (f : Fsm) (key : ℕ) (r : Fsmret × Fsm) : Type 0 where
  pub missing : registered f key ≡ none → r ≡ (Fsmret.enotfound, f)
  pub returns : (p : ℕ) → registered f key ≡ some p → r.0 ≡ Fsmret.ok
  pub entered : (p : ℕ) → registered f key ≡ some p → r.1.cstate ≡ some p
  pub flagged : (p : ℕ) → registered f key ≡ some p → (r.1.memory p).flag ≡ true
  pub marks : (p : ℕ) → registered f key ≡ some p → Marks (mark_as_reachable p f.memory) r.1.memory
  pub table : r.1.sttable ≡ f.sttable
  pub keys : (q : ℕ) → (r.1.memory q).st_key ≡ (f.memory q).st_key

-- On a valid and linked machine fsm_set_state never leaves an array. A key with no state gives
-- FSM_ENOTFOUND and changes nothing; else the machine is in the state of the key, which is marked,
-- and all further marks are on states that transitions reach from this one and the ones marked
-- before.
pub fsm_set_state-Set :
    (f : Fsm) (key : ℕ)
    → IsValid (fsm_callbacks f.memory) f.sttable
    → IsLinked f
    → (r : Fsmret × Fsm) × (fsm_set_state f key ≡ some r) × Set f key r
unfolding fsm_set_state
fsm_set_state-Set f key valid good =
    let search = htable_search-contents (fsm_callbacks f.memory) (stack key) valid in
    elim (Option-cases (registered f key)) [
      | inl e ↦ (
        (Fsmret.enotfound, f),
        rw (search, e),
        record {
          missing = λ _. refl;
          returns = λ p e'. absurd (cc (e, e'));
          entered = λ p e'. absurd (cc (e, e'));
          flagged = λ p e'. absurd (cc (e, e'));
          marks = λ p e'. absurd (cc (e, e'));
          table = refl;
          keys = λ q. refl;
        },
      )
      | inr (p, e) ↦
          let m = mark_as_reachable p f.memory in
          let good' = IsLinked-frame f m (evttable-mark p f.memory) good in
          let (m', run, k, followed) =
            fsm_mark_reachable_states-Marks (record f { memory = m }) good' in
          let p_eq : (q : ℕ) → registered f key ≡ some q → p ≡ q = λ q e'. cc (e, e') in
          (
            (Fsmret.ok, record f { memory = m'; cstate = some p }),
            rw (search, e, run),
            record {
              missing = λ e'. absurd (cc (e, e'));
              returns = λ q e'. refl;
              entered = λ q e'. ap some (p_eq q e');
              flagged = λ q e'.
                  subst (λ x. (m' x).flag ≡ true) (p_eq q e')
                    (k.kept p (flag-mark_self p f.memory));
              marks = λ q e'. subst (λ x. Marks (mark_as_reachable x f.memory) m') (p_eq q e') k;
              table = refl;
              keys = λ q. k.keys q ∙ st_key-mark p f.memory q;
            },
          )
    ]

IsLinked-added :
    (f g : Fsm) (key p : ℕ)
    → IsLinked f
    → IsValid (fsm_callbacks g.memory) g.sttable
    → g.memory ≡ rekeyed f.memory p key
    → IsLinked g
IsLinked-added f g key p good valid e =
    let tables : (q : ℕ) → (g.memory q).evttable ≡ (f.memory q).evttable =
      λ q. rw e (ground arith) in
    record {
      width = valid.width;
      sized = valid.sized;
      evt_width = λ q. rw (tables q) (good.evt_width q);
      evt_sized = λ q. rw (tables q) (good.evt_sized q);
      linked = λ q enode o.
          good.linked q enode (subst (λ t. Occurs enode (visited t.ht_table)) (tables q) o);
    }

-- On a valid and linked machine with room, a state that is not yet in the table and is added under
-- a free key, with memory, and then set by that key is the current state, and its key is the
-- current key.
pub fsm_set_state-fsm_add_state :
    (got_table : Bool) (f : Fsm) (key p : ℕ)
    → IsValid (fsm_callbacks f.memory) f.sttable
    → f.sttable.ht_size * 2 < size_mod
    → f.sttable.ht_used + 1 < size_mod
    → AllSpare p f.sttable.ht_table
    → IsLinked f
    → registered f key ≡ none
    → (g h : Fsm) × (fsm_add_state true got_table f key p ≡ some (Fsmret.ok, g))
      × (fsm_set_state g key ≡ some (Fsmret.ok, h))
      × (h.cstate ≡ some p)
      × (fsm_get_current_state h ≡ some key)
unfolding fsm_get_current_state
fsm_set_state-fsm_add_state got_table f key p valid room countable fresh good free =
    let ((ret, g), run, a) =
      fsm_add_state-Added true got_table f key p valid room countable fresh in
    let absent : is_some (registered f key) ≡ false = rw free in
    let (ret_ok, stored) = a.stored absent refl in
    let here : registered g key ≡ some p = stored key ∙ ground arith in
    let ((ret', h), run', s) =
      fsm_set_state-Set g key a.valid (IsLinked-added f g key p good a.valid a.memory) in
    (
      g,
      h,
      rw run (ap (λ x. some (x, g)) ret_ok),
      rw run' (ap (λ x. some (x, h)) (s.returns p here)),
      s.entered p here,
      rw (s.entered p here) (ap some (s.keys p ∙ rw a.memory (ground arith))),
    )
