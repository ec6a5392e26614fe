-- ===== src/Barber/Cost.antt =====
-- pthreads/sleepbarber.c: every run comes to an end.
use experimentation.Barber.Progress.{Reach-moves, Closed, Moves}
use experimentation.Barber.Invariant.{Reach-Inv}
use experimentation.Barber.Count.{total-update, total}
use experimentation.Base.{◌⊎◌, ◌≡◌, ◌≤◌, suc, refl, ap, ◌*◌, ◌+◌, ◌<◌, ℕ, arith}
use experimentation.Barber.{
  start, later, init, num_customers, Step, Reach, BarberPc, Shop, CustomerPc, create, wake, rise,
  read_seats, free_seat, call_in, cut, enter, find_seat, find_none, load_seats, take_seat,
  call_barber, let_go, be_served, turn_away, sleeping, called, rising, raising, freed, leaving,
  absent, arrived, looking, taking, sitting, seated, ready, waiting, refused, gone,
}

-- the steps that a customer may still cause, its own and the barber's
abbrev pub rank : CustomerPc → ℕ
rank absent = 15
rank arrived = 14
rank looking = 13
rank taking = 12
rank (sitting a) = 11
rank seated = 10
rank ready = 2
rank waiting = 1
rank refused = 1
rank gone = 0

abbrev pub rank_b : BarberPc → ℕ
rank_b sleeping = 0
rank_b called = 5
rank_b rising = 4
rank_b (raising a) = 3
rank_b freed = 2
rank_b leaving = 1

abbrev pub cost : Shop → ℕ
cost s = total rank num_customers s.customer + 6 * s.cussem + rank_b s.barber

Step-cost : (s t : Shop) → Reach s → Step s t → cost t < cost s
Step-cost s t r (create few) = omega (
  arith,
  total-update rank num_customers s.customer s.created arrived absent few
      ((Reach-Inv r).not_yet s.created (omega arith)),
)
Step-cost s t r (wake e some_left) = omega (arith, ap rank_b e)
Step-cost s t r (rise e free) = omega (arith, ap rank_b e)
Step-cost s t r (read_seats e) = omega (arith, ap rank_b e)
Step-cost s t r (free_seat e) = omega (arith, ap rank_b e)
Step-cost s t r (call_in e) = omega (arith, ap rank_b e)
Step-cost s t r (cut e) = omega (arith, ap rank_b e)
Step-cost s t r (enter i li e free) =
    omega (arith, total-update rank num_customers s.customer i looking arrived li e)
Step-cost s t r (find_seat i li e free) =
    omega (arith, total-update rank num_customers s.customer i taking looking li e)
Step-cost s t r (find_none i li e none_free) =
    omega (arith, total-update rank num_customers s.customer i refused looking li e)
Step-cost s t r (load_seats i li e) =
    omega (arith, total-update rank num_customers s.customer i (sitting s.freeseats) taking li e)
Step-cost s t r (take_seat i li {a} e) =
    omega (arith, total-update rank num_customers s.customer i seated (sitting a) li e)
Step-cost s t r (call_barber i li e) =
    omega (arith, total-update rank num_customers s.customer i ready seated li e)
Step-cost s t r (let_go i li e) =
    omega (arith, total-update rank num_customers s.customer i waiting ready li e)
Step-cost s t r (be_served i li e called_in) =
    omega (arith, total-update rank num_customers s.customer i gone waiting li e)
Step-cost s t r (turn_away i li e) =
    omega (arith, total-update rank num_customers s.customer i gone refused li e)

abbrev pub steps : {s : Shop} → Reach s → ℕ
steps start = 0
steps (later r st) = suc (steps r)

init-cost : cost init ≡ 150
unfolding total
init-cost = refl

Reach-steps : (s : Shop) (r : Reach s) → steps r + cost s ≤ 150
Reach-steps s start = omega (arith, init-cost)
Reach-steps s (later {s = u} r st) = omega (arith, Reach-steps u r, Step-cost u s r st)

-- A run of the barber, the customers and main has at most 150 steps: the steps made and those that
-- the cost of the state still allows are never more. In every state that is reached some thread has
-- a step, or every customer has been served or turned away and is gone, both seats are free, and
-- the barber sleeps.
pub Reach-ends : (s : Shop) (r : Reach s) → (steps r + cost s ≤ 150) × (Moves s ⊎ Closed s)
Reach-ends s r = (Reach-steps s r, Reach-moves s r)
