-- ===== src/Barber/Progress.antt =====
-- pthreads/sleepbarber.c: what the counts of the semaphores say of the threads, and who can move.
use experimentation.Barber.Count.{total-le, total-zero, total-pair}
use experimentation.Barber.State.{Inv, owed_b, owed, waits, due_b, inside, inside_b}
use experimentation.Barber.Invariant.{Reach-Inv}
use native.Mathlib.Decide.{dec_lt, ℕ_discrete}
use mathlib.Core.Path.{subst}
use experimentation.Base.{sym, zero, suc, ap, ◌⊎◌, ◌≢◌, ◌<◌, ◌≡◌, ◌≤◌, ℕ, refl, inl, inr, arith}
use experimentation.Barber.{
  CustomerPc, num_customers, max_freeseats, Step, Reach, BarberPc, Shop, create, wake, rise,
  read_seats, free_seat, call_in, cut, enter, find_seat, find_none, load_seats, take_seat,
  call_barber, let_go, be_served, turn_away, sleeping, called, rising, raising, freed, leaving,
  absent, arrived, looking, taking, sitting, seated, ready, waiting, refused, gone,
}

pub record Orderly (s : Shop) : Type 0 where
  pub seats : s.freeseats ≤ max_freeseats
  pub told : s.cussem ≤ max_freeseats
  pub alone :
      (i j : ℕ)
      → i < num_customers
      → j < num_customers
      → inside (s.customer i) ≡ 1
      → inside (s.customer j) ≡ 1
      → i ≡ j
  pub barber_alone : (i : ℕ) → i < num_customers → inside_b s.barber ≡ 1 → inside (s.customer i) ≡ 0

-- In every state that the barber, the customers and main can reach, there are at most two free
-- seats and at most two calls that the barber has not answered, at most one customer is between the
-- calls of seasem, and none while the barber is.
pub Reach-Orderly : (s : Shop) → Reach s → Orderly s
Reach-Orderly s r =
    let inv = Reach-Inv r in
    record {
      seats = omega (arith, inv.seats);
      told = omega (arith, inv.seats);
      alone = λ i j li lj in_i in_j. elim (ℕ_discrete i j) [
        | yes same ↦ same
        | no apart ↦
            absurd
              (omega (arith, inv.door, total-pair inside num_customers s.customer i j li lj apart))
      ];
      barber_alone =
          λ i li in_b. omega (arith, inv.door, total-le inside num_customers s.customer i li);
    }

-- each customer is as wanted, or something else is the case
all_or {ℓ ℓ'} :
    {A : Type ℓ} {P : ℕ → Type ℓ'} (n : ℕ)
    → ((i : ℕ) → i < n → A ⊎ P i)
    → A ⊎ ((i : ℕ) → i < n → P i)
all_or zero h = inr (λ i l. absurd (omega arith))
all_or {P = P} (suc n) h = elim (h n (omega arith)) [
  | inl a ↦ inl a
  | inr here ↦ elim (all_or {P = P} n (λ i l. h i (omega arith))) [
    | inl a ↦ inl a
    | inr below ↦ inr (λ i l. elim (ℕ_discrete i n) [
      | yes same ↦ subst P (sym same) here
      | no apart ↦ below i (omega arith)
    ])
  ]
]

module _ (s : Shop) where
  -- some thread has a step
  abbrev pub Moves : Type 0
  Moves = (t : Shop) × Step s t

  customer_out :
      (i : ℕ) → i < num_customers → (p : CustomerPc) → s.customer i ≡ p → Moves ⊎ (inside p ≡ 0)
  customer_out i li absent e = inr refl
  customer_out i li arrived e = inr refl
  customer_out i li looking e = elim (dec_lt 0 s.freeseats) [
    | yes free ↦ inl (_, (find_seat i li e free))
    | no full ↦ inl (_, (find_none i li e (omega arith)))
  ]
  customer_out i li taking e = inl (_, (load_seats i li e))
  customer_out i li (sitting a) e = inl (_, (take_seat i li e))
  customer_out i li seated e = inl (_, (call_barber i li e))
  customer_out i li ready e = inl (_, (let_go i li e))
  customer_out i li waiting e = inr refl
  customer_out i li refused e = inl (_, (turn_away i li e))
  customer_out i li gone e = inr refl

  barber_out : (p : BarberPc) → s.barber ≡ p → Moves ⊎ (inside_b p ≡ 0)
  barber_out sleeping e = inr refl
  barber_out called e = inr refl
  barber_out rising e = inl (_, (read_seats e))
  barber_out (raising a) e = inl (_, (free_seat e))
  barber_out freed e = inl (_, (call_in e))
  barber_out leaving e = inl (_, (cut e))

  barber_sleeps : 0 < s.seasem → (p : BarberPc) → s.barber ≡ p → Moves ⊎ (p ≡ sleeping)
  barber_sleeps free sleeping e = inr refl
  barber_sleeps free called e = inl (_, (rise e free))
  barber_sleeps free rising e = inl (_, (read_seats e))
  barber_sleeps free (raising a) e = inl (_, (free_seat e))
  barber_sleeps free freed e = inl (_, (call_in e))
  barber_sleeps free leaving e = inl (_, (cut e))

  -- with an open door all customers have left, or wait for the barber
  customer_left :
      0 < s.seasem
      → (i : ℕ) → i < num_customers
      → s.customer i ≢ absent
      → (p : CustomerPc) → s.customer i ≡ p
      → Moves ⊎ ((p ≡ gone) ⊎ ((p ≡ waiting) × (s.barsem ≡ 0)))
  customer_left free i li here absent e = absurd (here e)
  customer_left free i li here arrived e = inl (_, (enter i li e free))
  customer_left free i li here waiting e = elim (dec_lt 0 s.barsem) [
    | yes called_in ↦ inl (_, (be_served i li e called_in))
    | no none_called ↦ inr (inr (refl, omega arith))
  ]
  customer_left free i li here gone e = inr (inl refl)
  customer_left free i li here looking e = elim (dec_lt 0 s.freeseats) [
    | yes empty ↦ inl (_, find_seat i li e empty)
    | no full ↦ inl (_, find_none i li e (omega arith))
  ]
  customer_left free i li here taking e = inl (_, (load_seats i li e))
  customer_left free i li here (sitting a) e = inl (_, (take_seat i li e))
  customer_left free i li here seated e = inl (_, (call_barber i li e))
  customer_left free i li here ready e = inl (_, (let_go i li e))
  customer_left free i li here refused e = inl (_, (turn_away i li e))

-- what is left when nobody moves
pub record Closed (s : Shop) : Type 0 where
  pub asleep : s.barber ≡ sleeping
  pub empty : s.freeseats ≡ max_freeseats
  pub served : (i : ℕ) → i < num_customers → s.customer i ≡ gone

module _ (s : Shop) (inv : Inv s) where
  door_open : Moves s ⊎ (0 < s.seasem)
  door_open = elim (all_or num_customers (λ i l. customer_out s i l (s.customer i) refl)) [
    | inl m ↦ inl m
    | inr out ↦ elim (barber_out s s.barber refl) [
      | inl m ↦ inl m
      | inr out_b ↦
          inr (omega (arith, inv.door, total-zero inside num_customers s.customer out, out_b))
    ]
  ]

  all_created : Moves s ⊎ (num_customers ≤ s.created)
  all_created = elim (dec_lt s.created num_customers) [
    | yes few ↦ inl (_, create few)
    | no enough ↦ inr (omega arith)
  ]

  none_called : s.barber ≡ sleeping → Moves s ⊎ (s.cussem ≡ 0)
  none_called sleeps = elim (dec_lt 0 s.cussem) [
    | yes some_left ↦ inl (_, wake sleeps some_left)
    | no none_left ↦ inr (omega arith)
  ]

  all_left :
      0 < s.seasem
      → num_customers ≤ s.created
      → s.barber ≡ sleeping
      → s.cussem ≡ 0
      → Moves s ⊎ ((i : ℕ) → i < num_customers → s.customer i ≡ gone)
  all_left free all sleeps quiet = all_or num_customers (λ i l.
      elim (customer_left s free i l (inv.present i (omega arith)) (s.customer i) refl) [
        | inl m ↦ inl m
        | inr (inl left) ↦ inr left
        | inr (inr (waits_on, none_in)) ↦ absurd (
            omega (
              arith,
              inv.tokens,
              ap due_b sleeps,
              ap waits waits_on,
              total-le waits num_customers s.customer i l,
            ))
      ])

  all_gone :
      s.barber ≡ sleeping
      → s.cussem ≡ 0
      → ((i : ℕ) → i < num_customers → s.customer i ≡ gone)
      → Closed s
  all_gone sleeps quiet served =
      let none_owed = total-zero owed num_customers s.customer (λ i l. ap owed (served i l)) in
      record {
        asleep = sleeps;
        empty = omega (arith, inv.seats, ap owed_b sleeps);
        served = served;
      }

  onward : Moves s ⊎ Closed s
  onward = elim door_open [
    | inl m ↦ inl m
    | inr free ↦ elim all_created [
      | inl m ↦ inl m
      | inr all ↦ elim (barber_sleeps s free s.barber refl) [
        | inl m ↦ inl m
        | inr sleeps ↦ elim (none_called sleeps) [
          | inl m ↦ inl m
          | inr quiet ↦ elim (all_left free all sleeps quiet) [
            | inl m ↦ inl m
            | inr served ↦ inr (all_gone sleeps quiet served)
          ]
        ]
      ]
    ]
  ]

pub Reach-moves : (s : Shop) → Reach s → Moves s ⊎ Closed s
Reach-moves s r = onward s (Reach-Inv r)
