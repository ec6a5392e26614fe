-- ===== src/Htable/Types.antt =====
-- genstructs/htable/htable.h: the types of the chained hash table. A tail queue is the list of its
-- nodes in order, so that a `hnode_t *` into a chain is the list from that node to the end of the
-- chain, `[]` is NULL, `TAILQ_FIRST` is the chain and `TAILQ_NEXT` its tail.
use experimentation.Base.{ℕ, List, ℤ}

-- `hn_next` is the order of the list that holds the node
pub record Hnode {ℓ} (K V : Type ℓ) : Type ℓ where
  pub hn_key : K
  pub hn_data : V

-- the functions behind `ht_hashf` and `ht_cmpf`
pub record Callbacks {ℓ} (K : Type ℓ) : Type ℓ where
  pub hashf : K → ℕ
  pub cmpf : K → K → ℤ

-- `ht_table` is the array that `malloc` gave, one tail queue for each of the `ht_size` places
pub record Htable {ℓ} (K V : Type ℓ) : Type ℓ where
  pub ht_grows : ℕ
  pub ht_size : ℕ
  pub ht_used : ℕ
  pub ht_factor : ℕ
  pub ht_limit : ℕ
  pub ht_table : List (List (Hnode K V))

pub data Htret : Type 0 where
  ok exists nomem notfound : Htret

-- an argument of `free`
pub data Freed {ℓ} (K V : Type ℓ) : Type ℓ where
  key : K → Freed K V
  datum : V → Freed K V
  node : Hnode K V → Freed K V
  table : Freed K V

-- the bits of `htfree_t`
abbrev pub ht_freekey : ℕ
ht_freekey = 1

abbrev pub ht_freedata : ℕ
ht_freedata = 2

pub record Iterator {ℓ} (K V : Type ℓ) : Type ℓ where
  pub pos : ℕ
  pub pnode : List (Hnode K V)

abbrev pub Chain {ℓ} : Type ℓ → Type ℓ → Type ℓ
Chain K V = List (Hnode K V)
