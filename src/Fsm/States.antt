-- ===== src/Fsm/States.antt =====
-- fsm/states.c: a state and its table of events.
use experimentation.Base.{
  HeapCall, malloced, freed, ℕ, zero, suc, Bool, false, Option, none, some, List, [], ◌∷◌, ◌++◌,
  ◌>>=◌, if◌then◌else◌,
}
use experimentation.Htable.Types.{Htret, Freed}
use experimentation.Htable.Table.{htable_insert, htable_free_obj}
use experimentation.Htable.Walk.{htable_init, htable_print}
use experimentation.Htable.Memory.{htable_free, htable_free_all_obj}
use experimentation.Fsm.Types.{Event, State, Stret, max_evt_desc, state_callbacks}

-- what `state_init` allocates
pub data StateBlock : Type 0 where
  state_block evttable_block ht_table_block st_key_block : StateBlock

-- `strncpy(dst, src, n)` of a text without its end mark: cut to `n`, or filled up with zeros
unfoldable pub strncpy : ℕ → List ℕ → List ℕ
strncpy zero src = []
strncpy (suc n) [] = 0 ∷ strncpy n []
strncpy (suc n) (c ∷ src) = c ∷ strncpy n src

-- what `state_init` answers, the state that it sets up, and its calls of `malloc` and `free`
pub record StateStart : Type 0 where
  pub ret : Stret
  pub ppstate : Option State
  pub calls : List (HeapCall StateBlock)

abbrev fails : List (HeapCall StateBlock) → Option StateStart
fails calls = some (record { ret = Stret.nomem; ppstate = none; calls = calls })

abbrev after_malloc : StateBlock → Option StateStart → Option StateStart
after_malloc b o = o >>= λ s. some (record s { calls = malloced b ∷ s.calls })

-- The arguments are the answers of the four calls of `malloc`, in order; the third is that of
-- `htable_init`. `key` is what the new cell `st_key` happens to hold.
unfoldable pub state_init : Bool → Bool → Bool → Bool → ℕ → ℕ → ℕ → Option StateStart
state_init got_state got_evttable got_table got_key key size factor =
    if got_state
    then after_malloc state_block (
        if got_evttable
        then after_malloc evttable_block (
            htable_init got_table size factor >>= λ r. elim (r.1) [
              | none ↦ fails (freed evttable_block ∷ freed state_block ∷ [])
              | some h ↦ after_malloc ht_table_block (
                  if got_key
                  then after_malloc st_key_block (
                      some (record {
                        ret = Stret.ok;
                        ppstate = some (record { evttable = h; st_key = key; flag = false });
                        calls = [];
                      }))
                  else fails (freed evttable_block ∷ freed state_block ∷ []))
            ])
        else fails (freed state_block ∷ []))
    else fails []

-- the result of `htable_insert` is tested for HT_EXISTS alone
abbrev pub add_ret : Htret → Stret
add_ret Htret.exists = Stret.exists
add_ret Htret.ok = Stret.ok
add_ret Htret.nomem = Stret.ok
add_ret Htret.notfound = Stret.ok

-- the result of `htable_free_obj` is tested for HT_NOTFOUND alone
abbrev pub rem_ret : Htret → Stret
rem_ret Htret.notfound = Stret.notfound
rem_ret Htret.ok = Stret.ok
rem_ret Htret.exists = Stret.ok
rem_ret Htret.nomem = Stret.ok

-- the answers of `malloc` are those for the key, the event, the node of the table and its array
unfoldable pub state_add_evt :
    Bool → Bool → Bool → Bool → State → ℕ → List ℕ → Option ℕ → Option ℕ → Option (Stret × State)
state_add_evt got_key got_evt got_node got_table pstate key pdesc pactionf pnewstate =
    let pevt : Event = record {
      evt_desc = strncpy max_evt_desc pdesc;
      evt_actionf = pactionf;
      evt_newstate = pnewstate;
    } in
    if got_key
    then (if got_evt
        then (htable_insert state_callbacks got_node got_table pstate.evttable key pevt >>= λ r.
            some (add_ret r.0, record pstate { evttable = r.1 }))
        else some (Stret.nomem, pstate))
    else some (Stret.nomem, pstate)

unfoldable pub state_rem_evt : State → ℕ → Option (Stret × State × List (Freed ℕ Event))
state_rem_evt pstate key = htable_free_obj state_callbacks pstate.evttable key 3 >>= λ r.
    some (rem_ret r.0, record pstate { evttable = r.1 }, r.2)

unfoldable pub state_get_key : State → ℕ
state_get_key pstate = pstate.st_key

-- an argument of `free` in `state_free`
pub data StateFreed : Type 0 where
  of_evttable : Freed ℕ Event → StateFreed
  evttable : StateFreed
  state : StateFreed

unfoldable pub of_evttables : List (Freed ℕ Event) → List StateFreed
of_evttables [] = []
of_evttables (x ∷ xs) = of_evttable x ∷ of_evttables xs

unfoldable pub state_free : State → List StateFreed
unfolding of_evttables
state_free pstate =
    of_evttables (htable_free_all_obj pstate.evttable 3)
    ++ (of_evttables (htable_free pstate.evttable) ++ evttable ∷ state ∷ [])

-- what `state_print_evts` writes, given what `printf` writes for an event
unfoldable pub state_print_evts : (ℕ → Event → List ℕ) → State → List ℕ
state_print_evts printf pstate = htable_print printf pstate.evttable
