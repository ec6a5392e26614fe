-- ===== src/Fsm/Setup.antt =====
-- fsm/fsm.c, `fsm_init` and `fsm_free`: what is allocated and what is freed.
use experimentation.Base.{
  HeapCall, malloced, freed, freed_null, Bool, List, Option, [], if◌then◌else◌, none, replicate,
  some, ℕ, ◌++◌, ◌>>=◌, ◌∷◌,
}
use experimentation.Fsm.SetState.{}
use experimentation.Fsm.States.{StateFreed, state_free}
use experimentation.Fsm.Types.{Fsm, Fsmret, KeyPtr, Memory, Pqnode}
use experimentation.Htable.Effect.{}
use experimentation.Htable.Memory.{htable_free, htable_free_all_obj}
use experimentation.Htable.Types.{Freed}
use experimentation.Htable.Walk.{for_each_elm, htable_init}

-- what `fsm_init` allocates
pub data FsmBlock : Type 0 where
  fsm_block sttable_block pqtable_block mobj_block ht_table_block : FsmBlock

-- what `fsm_init` answers, the machine that it sets up, and its calls of `malloc` and `free`
pub record FsmStart : Type 0 where
  pub ret : Fsmret
  pub pfsm : Option Fsm
  pub calls : List (HeapCall FsmBlock)

abbrev fails : List (HeapCall FsmBlock) → Option FsmStart
fails calls = some (record { ret = Fsmret.enomem; pfsm = none; calls = calls })

abbrev after_malloc : FsmBlock → Option FsmStart → Option FsmStart
after_malloc b o = o >>= λ s. some (record s { calls = malloced b ∷ s.calls })

-- The arguments are the answers of the five calls of `malloc`, in order, and the memory; the last
-- call is that of `htable_init`. A number of queues is an unsigned int, so that their size in bytes
-- does not wrap around.
unfoldable pub fsm_init : Bool → Bool → Bool → Bool → Bool → Memory → ℕ → ℕ → ℕ → Option FsmStart
fsm_init got_fsm got_sttable got_pqtable got_mobj got_table memory size factor nqueues =
    if got_fsm
    then after_malloc fsm_block (
        if got_sttable
        then after_malloc sttable_block (
            if got_pqtable
            then after_malloc pqtable_block (
                if got_mobj
                then after_malloc mobj_block (
                    htable_init got_table size factor >>= λ r. elim (r.1) [
                      | none ↦
                          fails (freed pqtable_block ∷ freed sttable_block ∷ freed fsm_block ∷ [])
                      | some h ↦ after_malloc ht_table_block (
                          some (record {
                            ret = Fsmret.ok;
                            pfsm = some (record {
                              memory = memory;
                              sttable = h;
                              cstate = none;
                              nqueues = nqueues;
                              pqtable = replicate nqueues [];
                            });
                            calls = [];
                          }))
                    ])
                else fails (freed_null ∷ freed sttable_block ∷ freed fsm_block ∷ []))
            else fails (freed sttable_block ∷ freed fsm_block ∷ []))
        else fails (freed fsm_block ∷ []))
    else fails []

-- an argument of `free` in `fsm_free`
pub data FsmFreed : Type 0 where
  of_state : ℕ → StateFreed → FsmFreed
  of_sttable : Freed KeyPtr ℕ → FsmFreed
  sttable pqtable mobj fsm : FsmFreed
  pqdata : List ℕ → FsmFreed
  pqnode : Pqnode → FsmFreed

unfoldable pub of_states : ℕ → List StateFreed → List FsmFreed
of_states p [] = []
of_states p (x ∷ xs) = of_state p x ∷ of_states p xs

unfoldable pub of_sttables : List (Freed KeyPtr ℕ) → List FsmFreed
of_sttables [] = []
of_sttables (x ∷ xs) = of_sttable x ∷ of_sttables xs

unfoldable pub free_queue : List Pqnode → List FsmFreed
free_queue [] = []
free_queue (n ∷ q) = pqdata n.evtdata ∷ pqnode n ∷ free_queue q

unfoldable pub free_queues : List (List Pqnode) → List FsmFreed
free_queues [] = []
free_queues (q ∷ qs) = free_queue q ++ free_queues qs

-- the first loop, which finds the states by an iterator
unfoldable pub free_states : Fsm → Option (List FsmFreed)
unfolding of_states
free_states pfsm =
    for_each_elm pfsm.sttable
      (λ snode out. some (out ++ of_states snode.hn_data (state_free (pfsm.memory snode.hn_data))))
      []

unfoldable pub fsm_free : Fsm → Option (Fsmret × List FsmFreed)
unfolding of_sttables free_queue free_queues
fsm_free pfsm = free_states pfsm >>= λ out. some (
  Fsmret.ok,
  out
      ++ (of_sttables (htable_free_all_obj pfsm.sttable 1)
          ++ (of_sttables (htable_free pfsm.sttable)
              ++ (sttable ∷ (free_queues pfsm.pqtable ++ pqtable ∷ mobj ∷ fsm ∷ [])))),
)
