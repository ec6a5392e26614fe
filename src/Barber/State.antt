-- ===== src/Barber/State.antt =====
-- pthreads/sleepbarber.c: who is between the calls of a semaphore, who waits for whom, and what holds
-- whenever a thread is about to move.
use experimentation.Barber.Count.{total}
use experimentation.Base.{◌≤◌, ◌≢◌, ◌≡◌, ◌+◌, ◌<◌, ℕ, arith}
use experimentation.Barber.{
  max_freeseats, num_customers, BarberPc, Shop, CustomerPc, sleeping, called, rising, raising,
  freed, leaving, absent, arrived, looking, taking, sitting, seated, ready, waiting, refused, gone,
}

-- who is between sem_wait(&seasem) and its sem_post
abbrev pub inside_b : BarberPc → ℕ
inside_b sleeping = 0
inside_b called = 0
inside_b _ = 1

abbrev pub inside : CustomerPc → ℕ
inside looking = 1
inside taking = 1
inside (sitting a) = 1
inside seated = 1
inside ready = 1
inside refused = 1
inside _ = 0

-- a seat that is not free and whose customer is not in `cussem`
abbrev pub owed_b : BarberPc → ℕ
owed_b called = 1
owed_b rising = 1
owed_b (raising a) = 1
owed_b _ = 0

abbrev pub owed : CustomerPc → ℕ
owed seated = 1
owed _ = 0

-- a customer that the barber has been told of
abbrev pub waits : CustomerPc → ℕ
waits ready = 1
waits waiting = 1
waits _ = 0

-- a customer that the barber is about to call in
abbrev pub due_b : BarberPc → ℕ
due_b called = 1
due_b rising = 1
due_b (raising a) = 1
due_b freed = 1
due_b _ = 0

-- what a thread has read is still so
abbrev pub BarberKnows : ℕ → BarberPc → Type 0
BarberKnows f (raising a) = a ≡ f
BarberKnows f _ = Unit {0}

abbrev pub Knows : ℕ → CustomerPc → Type 0
Knows f taking = 0 < f
Knows f (sitting a) = (a ≡ f) × (0 < f)
Knows f _ = Unit {0}

pub BarberKnows-outside :
    (f g : ℕ) (p : BarberPc) → inside_b p ≡ 0 → BarberKnows f p → BarberKnows g p
BarberKnows-outside f g sleeping h k = tt
BarberKnows-outside f g called h k = tt
BarberKnows-outside f g rising h k = tt
BarberKnows-outside f g (raising a) h k = absurd (omega arith)
BarberKnows-outside f g freed h k = tt
BarberKnows-outside f g leaving h k = tt

pub Knows-outside : (f g : ℕ) (p : CustomerPc) → inside p ≡ 0 → Knows f p → Knows g p
Knows-outside f g absent h k = tt
Knows-outside f g arrived h k = tt
Knows-outside f g looking h k = tt
Knows-outside f g taking h k = absurd (omega arith)
Knows-outside f g (sitting a) h k = absurd (omega arith)
Knows-outside f g seated h k = tt
Knows-outside f g ready h k = tt
Knows-outside f g waiting h k = tt
Knows-outside f g refused h k = tt
Knows-outside f g gone h k = tt

pub record Inv (s : Shop) : Type 0 where
  pub door : s.seasem + inside_b s.barber + total inside num_customers s.customer ≡ 1
  pub seats :
      s.freeseats + s.cussem + owed_b s.barber + total owed num_customers s.customer ≡ max_freeseats
  pub tokens : total waits num_customers s.customer ≡ s.cussem + s.barsem + due_b s.barber
  pub barber_knows : BarberKnows s.freeseats s.barber
  pub customer_knows : (i : ℕ) → i < num_customers → Knows s.freeseats (s.customer i)
  pub counted : s.created ≤ num_customers
  pub present : (i : ℕ) → i < s.created → s.customer i ≢ absent
  pub not_yet : (i : ℕ) → s.created ≤ i → s.customer i ≡ absent
