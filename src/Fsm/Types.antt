-- ===== src/Fsm/Types.antt =====
-- fsm/types.h: events, states, the queues and the machine. A `state_t *` is a number, its address,
-- and `memory` holds what is at each address; pointers to states are never dangling. A key that a
-- table stores for a state is the pointer `st_key` of that state, which the state keeps writing to;
-- a key that a table stores for an event is a private copy, and is taken by its value.
use experimentation.Base.{ℕ, Bool, Option, List, ◌==◌, if◌then◌else◌, ltb, ℤ, pos, negsuc}
use experimentation.Htable.Types.{Htable, Callbacks}

abbrev pub max_evt_desc : ℕ
max_evt_desc = 64

-- `evt_actionf` names a function of the program that uses the library
pub record Event : Type 0 where
  pub evt_desc : List ℕ
  pub evt_actionf : Option ℕ
  pub evt_newstate : Option ℕ

-- `flag` is read and written at its bit STATE_REACHABLE alone
pub record State : Type 0 where
  pub evttable : Htable ℕ Event
  pub st_key : ℕ
  pub flag : Bool

pub data Stret : Type 0 where
  ok exists nomem notfound : Stret

pub record Pqnode : Type 0 where
  pub evtdata : List ℕ
  pub evtkey : ℕ
  pub prio : ℕ

abbrev pub Memory : Type 0
Memory = ℕ → State

-- a `const unsigned int *` that reaches the callbacks of the states' table
pub data KeyPtr : Type 0 where
  stack : ℕ → KeyPtr
  st_key_of : ℕ → KeyPtr

-- `cstate` is `none` until it is first written
pub record Fsm : Type 0 where
  pub memory : Memory
  pub sttable : Htable KeyPtr ℕ
  pub cstate : Option ℕ
  pub nqueues : ℕ
  pub pqtable : List (List Pqnode)

pub data Fsmret : Type 0 where
  clean dirty empty eprio eexists enomem enotfound ok : Fsmret

abbrev pub write : Memory → ℕ → State → Memory
write m p st q = if p == q then st else m q

-- the read through a key pointer
unfoldable pub deref : Memory → KeyPtr → ℕ
deref m (stack key) = key
deref m (st_key_of p) = (m p).st_key

-- `fsm_cmpf` and `state_cmpf`, on what their arguments point to
unfoldable pub key_cmpf : ℕ → ℕ → ℤ
key_cmpf a b = if ltb b a then negsuc 0 else if a == b then pos 0 else pos 1

-- `fsm_hashf` and `fsm_cmpf`, with the memory that they read
unfoldable pub fsm_callbacks : Memory → Callbacks KeyPtr
fsm_callbacks m = record { hashf = deref m; cmpf = λ a b. key_cmpf (deref m a) (deref m b) }

-- `state_hashf` and `state_cmpf`
unfoldable pub state_callbacks : Callbacks ℕ
state_callbacks = record { hashf = λ key. key; cmpf = key_cmpf }
