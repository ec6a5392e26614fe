-- ===== src/Barber/Invariant.antt =====
-- pthreads/sleepbarber.c: every step keeps what holds between steps.
use experimentation.Barber.Count.{total-pair, total-zero, total-update, total-le}
use experimentation.Base.{
  ◌∙◌, sym, ◌^◌, ◌%◌, ◌==◌, ◌-◌, Bool-cases, ap, ◌≢◌, ◌⊎◌, ◌≡◌, ◌+◌, ◌<◌, ℕ, suc, false, refl, inl,
  inr, arith,
}
use mathlib.Core.Path.{subst}
use experimentation.Barber.{
  Step, init, Reach, create, wake, rise, read_seats, free_seat, call_in, cut, enter, find_seat,
  find_none, load_seats, take_seat, call_barber, let_go, be_served, turn_away, start, later, update,
  num_customers, BarberPc, Shop, CustomerPc, sleeping, called, rising, raising, freed, leaving,
  absent, arrived, looking, taking, sitting, seated, ready, waiting, refused, gone,
}
use experimentation.Barber.State.{
  inside_b, inside, owed_b, owed, waits, due_b, BarberKnows, Knows, Inv, BarberKnows-outside,
  Knows-outside,
}

init-Inv : Inv init
init-Inv =
    let none_in = total-zero inside num_customers init.customer (λ i l. refl) in
    let none_owed = total-zero owed num_customers init.customer (λ i l. refl) in
    let none_wait = total-zero waits num_customers init.customer (λ i l. refl) in
    record {
      door = omega (arith, none_in);
      seats = omega (arith, none_owed);
      tokens = omega (arith, none_wait);
      barber_knows = tt;
      customer_knows = λ i l. tt;
      counted = omega arith;
      present = λ i l. absurd (omega arith);
      not_yet = λ i l. refl;
    }

-- a step of the barber from `q` to `p`
barber-Inv :
    (s : Shop) (q p : BarberPc) (barsem cussem seasem freeseats : ℕ)
    → Inv s
    → s.barber ≡ q
    → seasem + inside_b p ≡ s.seasem + inside_b q
    → freeseats + cussem + owed_b p ≡ s.freeseats + s.cussem + owed_b q
    → cussem + barsem + due_b p ≡ s.cussem + s.barsem + due_b q
    → BarberKnows freeseats p
    → (freeseats ≡ s.freeseats) ⊎ (inside_b q ≡ 1)
    → Inv (record s {
      barsem = barsem;
      cussem = cussem;
      seasem = seasem;
      freeseats = freeseats;
      barber = p;
    })
barber-Inv s q p barsem cussem seasem freeseats inv e door seats tokens knows still = record {
  door = omega (arith, inv.door, ap inside_b e);
  seats = omega (arith, inv.seats, ap owed_b e);
  tokens = omega (arith, inv.tokens, ap due_b e);
  barber_knows = knows;
  customer_knows = λ i l. elim still [
    | inl same ↦ rw same (inv.customer_knows i l)
    | inr in_b ↦
        Knows-outside s.freeseats freeseats (s.customer i)
          (omega (arith, inv.door, ap inside_b e, total-le inside num_customers s.customer i l))
          (inv.customer_knows i l)
  ];
  counted = inv.counted;
  present = inv.present;
  not_yet = inv.not_yet;
}

-- a step of a customer from `q` to `p`
customer-Inv :
    (s : Shop) (i : ℕ) (q p : CustomerPc) (barsem cussem seasem freeseats : ℕ)
    → Inv s
    → i < num_customers
    → s.customer i ≡ q
    → q ≢ absent
    → p ≢ absent
    → seasem + inside p ≡ s.seasem + inside q
    → freeseats + cussem + owed p ≡ s.freeseats + s.cussem + owed q
    → cussem + barsem + waits q ≡ s.cussem + s.barsem + waits p
    → Knows freeseats p
    → (freeseats ≡ s.freeseats) ⊎ (inside q ≡ 1)
    → Inv (record s {
      barsem = barsem;
      cussem = cussem;
      seasem = seasem;
      freeseats = freeseats;
      customer = update s.customer i p;
    })
customer-Inv s i q p barsem cussem seasem freeseats inv li e nq np door seats tokens knows still =
    record {
      door = omega (arith, inv.door, total-update inside num_customers s.customer i p q li e);
      seats = omega (arith, inv.seats, total-update owed num_customers s.customer i p q li e);
      tokens = omega (arith, inv.tokens, total-update waits num_customers s.customer i p q li e);
      barber_knows = elim still [
        | inl same ↦ rw same inv.barber_knows
        | inr in_c ↦
            BarberKnows-outside s.freeseats freeseats s.barber
              (omega (arith, inv.door, ap inside e, total-le inside num_customers s.customer i li))
              inv.barber_knows
      ];
      customer_knows = λ j l. elim (Bool-cases (j == i)) [
        | inl on ↦ rw on knows
        | inr off ↦ rw off (elim still [
          | inl same ↦ rw same (inv.customer_knows j l)
          | inr in_c ↦
              let apart : i ≢ j = λ same. ground arith in
              Knows-outside s.freeseats freeseats (s.customer j)
                (omega (
                  arith,
                  inv.door,
                  ap inside e,
                  total-pair inside num_customers s.customer i j li l apart,
                ))
                (inv.customer_knows j l)
        ])
      ];
      counted = inv.counted;
      present = λ j l. elim (Bool-cases (j == i)) [
        | inl on ↦ rw on np
        | inr off ↦ rw off (inv.present j l)
      ];
      not_yet = λ j l. elim (Bool-cases (j == i)) [
        | inl on ↦
            let same : j ≡ i = ground arith in
            absurd (nq (sym e ∙ ap s.customer (sym same) ∙ inv.not_yet j l))
        | inr off ↦ rw off (inv.not_yet j l)
      ];
    }

create-Inv :
    (s : Shop)
    → Inv s
    → s.created < num_customers
    → Inv (record s { customer = update s.customer s.created arrived; created = suc s.created })
create-Inv s inv few =
    let empty = inv.not_yet s.created (omega arith) in
    record {
      door = omega (
        arith,
        inv.door,
        total-update inside num_customers s.customer s.created arrived absent few empty,
      );
      seats = omega (
        arith,
        inv.seats,
        total-update owed num_customers s.customer s.created arrived absent few empty,
      );
      tokens = omega (
        arith,
        inv.tokens,
        total-update waits num_customers s.customer s.created arrived absent few empty,
      );
      barber_knows = inv.barber_knows;
      customer_knows = λ j l. elim (Bool-cases (j == s.created)) [
        | inl on ↦ rw on tt
        | inr off ↦ rw off (inv.customer_knows j l)
      ];
      counted = few;
      present = λ j l. elim (Bool-cases (j == s.created)) [
        | inl on ↦ rw on (λ e. cc e)
        | inr off ↦ rw off (inv.present j (ground arith))
      ];
      not_yet = λ j l.
          let off : j == s.created ≡ false = ground arith in rw off (inv.not_yet j (omega arith));
    }

Step-Inv : {s t : Shop} → Step s t → Inv s → Inv t
Step-Inv {s} (create few) inv = create-Inv s inv few
Step-Inv {s} (wake e some_left) inv =
    barber-Inv s sleeping called s.barsem (s.cussem - 1) s.seasem s.freeseats inv e refl
      (omega arith) (omega arith) tt (inl refl)
Step-Inv {s} (rise e free) inv =
    barber-Inv s called rising s.barsem s.cussem (s.seasem - 1) s.freeseats inv e (omega arith) refl
      refl tt (inl refl)
Step-Inv {s} (read_seats e) inv =
    barber-Inv s rising (raising s.freeseats) s.barsem s.cussem s.seasem s.freeseats inv e refl refl
      refl refl (inl refl)
Step-Inv {s} (free_seat {a} e) inv =
    let same : a ≡ s.freeseats = subst (BarberKnows s.freeseats) e inv.barber_knows in
    barber-Inv s (raising a) freed s.barsem s.cussem s.seasem ((a + 1) % 2 ^ 32) inv e refl
      (omega (arith, inv.seats)) refl tt (inr refl)
Step-Inv {s} (call_in e) inv =
    barber-Inv s freed leaving (s.barsem + 1) s.cussem s.seasem s.freeseats inv e refl refl
      (omega arith) tt (inl refl)
Step-Inv {s} (cut e) inv =
    barber-Inv s leaving sleeping s.barsem s.cussem (s.seasem + 1) s.freeseats inv e (omega arith)
      refl refl tt (inl refl)
Step-Inv {s} (enter i li e free) inv =
    customer-Inv s i arrived looking s.barsem s.cussem (s.seasem - 1) s.freeseats inv li e
      (λ h. cc h) (λ h. cc h) (omega arith) refl refl tt (inl refl)
Step-Inv {s} (find_seat i li e free) inv =
    customer-Inv s i looking taking s.barsem s.cussem s.seasem s.freeseats inv li e (λ h. cc h)
      (λ h. cc h) refl refl refl free (inl refl)
Step-Inv {s} (find_none i li e none_free) inv =
    customer-Inv s i looking refused s.barsem s.cussem s.seasem s.freeseats inv li e (λ h. cc h)
      (λ h. cc h) refl refl refl tt (inl refl)
Step-Inv {s} (load_seats i li e) inv =
    customer-Inv s i taking (sitting s.freeseats) s.barsem s.cussem s.seasem s.freeseats inv li e
      (λ h. cc h) (λ h. cc h) refl refl refl
      (refl, subst (Knows s.freeseats) e (inv.customer_knows i li)) (inl refl)
Step-Inv {s} (take_seat i li {a} e) inv =
    let (same, free) = subst (Knows s.freeseats) e (inv.customer_knows i li) in
    customer-Inv s i (sitting a) seated s.barsem s.cussem s.seasem ((a + 2 ^ 32 - 1) % 2 ^ 32) inv
      li e (λ h. cc h) (λ h. cc h) refl (omega (arith, inv.seats)) refl tt (inr refl)
Step-Inv {s} (call_barber i li e) inv =
    customer-Inv s i seated ready s.barsem (s.cussem + 1) s.seasem s.freeseats inv li e (λ h. cc h)
      (λ h. cc h) refl (omega arith) (omega arith) tt (inl refl)
Step-Inv {s} (let_go i li e) inv =
    customer-Inv s i ready waiting s.barsem s.cussem (s.seasem + 1) s.freeseats inv li e (λ h. cc h)
      (λ h. cc h) (omega arith) refl refl tt (inl refl)
Step-Inv {s} (be_served i li e called_in) inv =
    customer-Inv s i waiting gone (s.barsem - 1) s.cussem s.seasem s.freeseats inv li e (λ h. cc h)
      (λ h. cc h) refl refl (omega arith) tt (inl refl)
Step-Inv {s} (turn_away i li e) inv =
    customer-Inv s i refused gone s.barsem s.cussem (s.seasem + 1) s.freeseats inv li e (λ h. cc h)
      (λ h. cc h) (omega arith) refl refl tt (inl refl)

pub Reach-Inv : {s : Shop} → Reach s → Inv s
Reach-Inv start = init-Inv
Reach-Inv (later r st) = Step-Inv st (Reach-Inv r)
