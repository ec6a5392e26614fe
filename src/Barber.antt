-- ===== src/Barber.antt =====
-- pthreads/sleepbarber.c: the barber, the customers, and their three semaphores. A step is one call
-- of a semaphore or one access to `freeseats`; what is printed is left out.
use experimentation.Base.{
  ◌^◌, ◌%◌, ◌+◌, ◌-◌, ◌≡◌, ◌<◌, ◌==◌, ℕ, zero, suc, none, some, true, false, [], ◌∷◌, ◌++◌, refl,
  inl, inr, Bool, List, Option, if◌then◌else◌, arith, pos, negsuc,
}
pub mod Count
pub mod State
pub mod Invariant
pub mod Progress
pub mod Cost

abbrev pub num_customers : ℕ
num_customers = 10

abbrev pub max_freeseats : ℕ
max_freeseats = 2

-- where `barthread` stands
pub data BarberPc : Type 0 where
  sleeping : BarberPc  -- before sem_wait(&cussem)
  called : BarberPc  -- before sem_wait(&seasem)
  rising : BarberPc  -- before freeseats is read
  raising : ℕ → BarberPc  -- before it is written
  freed : BarberPc  -- before sem_post(&barsem)
  leaving : BarberPc  -- before sem_post(&seasem)

-- where a `custhread` stands
pub data CustomerPc : Type 0 where
  absent : CustomerPc  -- not created
  arrived : CustomerPc  -- before sem_wait(&seasem)
  looking : CustomerPc  -- before the test of freeseats
  taking : CustomerPc  -- before freeseats is read
  sitting : ℕ → CustomerPc  -- before it is written
  seated : CustomerPc  -- before sem_post(&cussem)
  ready : CustomerPc  -- before sem_post(&seasem)
  waiting : CustomerPc  -- before sem_wait(&barsem)
  refused : CustomerPc  -- before sem_post(&seasem), with no seat
  gone : CustomerPc

pub record Shop : Type 0 where
  pub barsem : ℕ
  pub cussem : ℕ
  pub seasem : ℕ
  pub freeseats : ℕ  -- unsigned int
  pub barber : BarberPc
  pub customer : ℕ → CustomerPc
  pub created : ℕ  -- the `i` of `main`

abbrev pub update : (ℕ → CustomerPc) → ℕ → CustomerPc → ℕ → CustomerPc
update f i p j = if j == i then p else f j

pub data Step (s : Shop) : Shop → Type 0 where
  create :
      s.created < num_customers
      → Step s
          (record s { customer = update s.customer s.created arrived; created = suc s.created })
  wake :
      s.barber ≡ sleeping
      → 0 < s.cussem
      → Step s (record s { cussem = s.cussem - 1; barber = called })
  rise :
      s.barber ≡ called
      → 0 < s.seasem
      → Step s (record s { seasem = s.seasem - 1; barber = rising })
  read_seats : s.barber ≡ rising → Step s (record s { barber = raising s.freeseats })
  free_seat :
      {a : ℕ}
      → s.barber ≡ raising a
      → Step s (record s { freeseats = (a + 1) % 2 ^ 32; barber = freed })
  call_in : s.barber ≡ freed → Step s (record s { barsem = s.barsem + 1; barber = leaving })
  cut : s.barber ≡ leaving → Step s (record s { seasem = s.seasem + 1; barber = sleeping })
  enter :
      (i : ℕ)
      → i < num_customers
      → s.customer i ≡ arrived
      → 0 < s.seasem
      → Step s (record s { seasem = s.seasem - 1; customer = update s.customer i looking })
  find_seat :
      (i : ℕ)
      → i < num_customers
      → s.customer i ≡ looking
      → 0 < s.freeseats
      → Step s (record s { customer = update s.customer i taking })
  find_none :
      (i : ℕ)
      → i < num_customers
      → s.customer i ≡ looking
      → s.freeseats ≡ 0
      → Step s (record s { customer = update s.customer i refused })
  load_seats :
      (i : ℕ)
      → i < num_customers
      → s.customer i ≡ taking
      → Step s (record s { customer = update s.customer i (sitting s.freeseats) })
  take_seat :
      (i : ℕ)
      → i < num_customers
      → {a : ℕ} → s.customer i ≡ sitting a
      → Step s (record s {
        freeseats = (a + 2 ^ 32 - 1) % 2 ^ 32;
        customer = update s.customer i seated;
      })
  call_barber :
      (i : ℕ)
      → i < num_customers
      → s.customer i ≡ seated
      → Step s (record s { cussem = s.cussem + 1; customer = update s.customer i ready })
  let_go :
      (i : ℕ)
      → i < num_customers
      → s.customer i ≡ ready
      → Step s (record s { seasem = s.seasem + 1; customer = update s.customer i waiting })
  be_served :
      (i : ℕ)
      → i < num_customers
      → s.customer i ≡ waiting
      → 0 < s.barsem
      → Step s (record s { barsem = s.barsem - 1; customer = update s.customer i gone })
  turn_away :
      (i : ℕ)
      → i < num_customers
      → s.customer i ≡ refused
      → Step s (record s { seasem = s.seasem + 1; customer = update s.customer i gone })

-- `main` once it has started the barber
abbrev pub init : Shop
init = record {
  barsem = 0;
  cussem = 0;
  seasem = 1;
  freeseats = max_freeseats;
  barber = sleeping;
  customer = λ i. absent;
  created = 0;
}

pub data Reach : Shop → Type 0 where
  start : Reach init
  later : {s t : Shop} → Reach s → Step s t → Reach t
