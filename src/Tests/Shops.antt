-- ===== src/Tests/Shops.antt =====
-- pthreads/sleepbarber.c and cdev/mydev.c: runs of the programs and their theorems.
use experimentation.Cdev.Read.{Delivered, mydevread-Delivered, UiomoveLaws}
use experimentation.Barber.Cost.{Reach-ends, cost, steps}
use experimentation.Barber.Progress.{Moves, Reach-Orderly, Closed, Orderly, Moves}
use experimentation.Base.{
  ◌⊎◌, length, fun_ext, ◌>>=◌, ◌+◌, ◌-◌, ◌≡◌, ltb, ◌<◌, ◌≤◌, ℕ, zero, suc, some, true, false, [],
  ◌∷◌, ◌++◌, refl, List, if◌then◌else◌, arith, pos,
}
use mathlib.Core.Path.{subst}
use experimentation.Cdev.{
  mydevclose, Release, mydevopen, read_loop, mydevattach, mydevread, Uio, mydevioctl, Uiomove,
  object, dictionary, mydevsetprops,
}
use experimentation.Cdev.Exclusive.{
  run-mydevattach, Represents, specified, run, Call, open_call, close_call,
}
use experimentation.Barber.{
  init, Reach, num_customers, update, Shop, CustomerPc, create, wake, rise, read_seats, free_seat,
  call_in, cut, enter, find_seat, load_seats, take_seat, call_barber, let_go, be_served, sleeping,
  absent, arrived, looking, taking, sitting, seated, ready, waiting, gone, start, later,
}

-- the shop when `k` customers have come and left
abbrev quiet : ℕ → Shop
quiet k = record {
  barsem = 0;
  cussem = 0;
  seasem = 1;
  freeseats = 2;
  barber = sleeping;
  customer = λ j. if ltb j k then gone else absent;
  created = k;
}

abbrev set_last : (ℕ → CustomerPc) → ℕ → CustomerPc → ℕ → CustomerPc
set_last f k p = update f k p

-- all that one customer has written to its own place
left_behind :
    (f : ℕ → CustomerPc) (k : ℕ) (p q : CustomerPc) → update (update f k p) k q ≡ update f k q
left_behind f k p q = fun_ext (λ j. ground arith)

here : (f : ℕ → CustomerPc) (k : ℕ) (p : CustomerPc) → update f k p k ≡ p
here f k p = ground arith

abbrev with_customer : ℕ → CustomerPc → Shop → Shop
with_customer k p s = record s { customer = update (quiet k).customer k p; created = suc k }

-- one step of the customer, with the place that it has written before forgotten
forget :
    (k : ℕ) (s : Shop) (p q : CustomerPc)
    → Reach (record s { customer = update (update (quiet k).customer k p) k q; created = suc k })
    → Reach (with_customer k q s)
forget k s p q r =
    subst (λ c. Reach (record s { customer = c; created = suc k }))
      (left_behind (quiet k).customer k p q) r

next-quiet : (k : ℕ) → update (quiet k).customer k gone ≡ (quiet (suc k)).customer
next-quiet k = fun_ext (λ j. ground arith)

serve : (k : ℕ) → k < num_customers → Reach (quiet k) → Reach (quiet (suc k))
serve k l r =
    let f = (quiet k).customer in
    let q = quiet k in
    let r1 : Reach (with_customer k arrived q) = later r (create l) in
    let r2 : Reach (with_customer k looking (record q { seasem = 0 })) =
      forget k (record q { seasem = 0 }) arrived looking
        (later r1 (enter k l (here f k arrived) (omega arith))) in
    let r3 : Reach (with_customer k taking (record q { seasem = 0 })) =
      forget k (record q { seasem = 0 }) looking taking
        (later r2 (find_seat k l (here f k looking) (omega arith))) in
    let r4 : Reach (with_customer k (sitting 2) (record q { seasem = 0 })) =
      forget k (record q { seasem = 0 }) taking (sitting 2)
        (later r3 (load_seats k l (here f k taking))) in
    let r5 : Reach (with_customer k seated (record q { seasem = 0; freeseats = 1 })) =
      forget k (record q { seasem = 0; freeseats = 1 }) (sitting 2) seated
        (later r4 (take_seat k l (here f k (sitting 2)))) in
    let s6 = record q { seasem = 0; freeseats = 1; cussem = 1 } in
    let r6 : Reach (with_customer k ready s6) =
      forget k s6 seated ready (later r5 (call_barber k l (here f k seated))) in
    let s7 = record q { freeseats = 1; cussem = 1 } in
    let r7 : Reach (with_customer k waiting s7) =
      forget k s7 ready waiting (later r6 (let_go k l (here f k ready))) in
    let b1 = later r7 (wake refl (omega arith)) in
    let b2 = later b1 (rise refl (omega arith)) in
    let b3 = later b2 (read_seats refl) in
    let b4 = later b3 (free_seat refl) in
    let b5 = later b4 (call_in refl) in
    let b6 : Reach (with_customer k waiting (record q { barsem = 1 })) = later b5 (cut refl) in
    let r8 = forget k q waiting gone (later b6 (be_served k l (here f k waiting) (omega arith))) in
    subst (λ c. Reach (record q { customer = c; created = suc k })) (next-quiet k) r8

all_served : (k : ℕ) → k ≤ num_customers → Reach (quiet k)
all_served zero l =
    subst (λ c. Reach (record init { customer = c })) (fun_ext (λ j. ground arith)) start
all_served (suc k) l = serve k (omega arith) (all_served k (omega arith))

-- nobody moves in a shop that all have left
Reach-ends_example :
    (steps (all_served num_customers (omega arith)) + cost (quiet num_customers) ≤ 150)
    × (Moves (quiet num_customers) ⊎ Closed (quiet num_customers))
Reach-ends_example = Reach-ends (quiet num_customers) (all_served num_customers (omega arith))

Reach-Orderly_example : Orderly (quiet 3)
Reach-Orderly_example = Reach-Orderly (quiet 3) (all_served 3 (omega arith))

-- the kernel copies the bytes
abbrev copy : Uiomove
copy bytes u = (0, record { uio_resid = u.uio_resid - length bytes; moved = u.moved ++ bytes })

copy-UiomoveLaws : UiomoveLaws copy
copy-UiomoveLaws = record { resid = λ bytes u l e. refl; moved = λ bytes u l e. refl }

mydevread-Delivered_example :
    (r : ℕ × Uio) × (mydevread copy 4 (record { uio_resid = 20; moved = [] }) ≡ some r)
    × Delivered copy (record { uio_resid = 20; moved = [] }) r
mydevread-Delivered_example =
    mydevread-Delivered copy copy-UiomoveLaws 4 (record { uio_resid = 20; moved = [] })
      (omega arith)

read_runs :
    (mydevread copy 2 (record { uio_resid = 4; moved = [] }) >>= λ r. some r.1.moved)
    ≡ some (84 ∷ 104 ∷ 105 ∷ 115 ∷ [])
unfolding mydevread read_loop
read_runs = refl

abbrev calls : List Call
calls = open_call ∷ open_call ∷ close_call ∷ open_call ∷ []

calls_run : (run calls (record { sc_usage = 0 })).0 ≡ 0 ∷ 16 ∷ 0 ∷ 0 ∷ []
unfolding run mydevopen mydevclose
calls_run = refl

run-mydevattach_example :
    ((run calls (mydevattach (record { sc_usage = 7 }))).0 ≡ (specified calls false).0)
    × Represents (run calls (mydevattach (record { sc_usage = 7 }))).1 (specified calls false).1
run-mydevattach_example = run-mydevattach (record { sc_usage = 7 }) calls

ioctl_runs :
    mydevioctl mydevsetprops
      (record { copyin = 0; found = true; is_string = true; got_cstring = true })
    ≡ (pos 0, object ∷ Release.cstring ∷ dictionary ∷ [])
unfolding mydevioctl
ioctl_runs = refl
