-- ===== src/Cdev/Exclusive.antt =====
-- cdev/mydev.c: the device as a flag that one process holds.
use experimentation.Htable.Chains.{to_nat}
use experimentation.Cdev.{mydevclose, ebusy, mydevopen, Softc, mydevattach}
use experimentation.Base.{
  ◌-◌, ◌^◌, ◌%◌, ◌+◌, ap, ltb, ◌≡◌, ℕ, true, false, [], ◌∷◌, refl, Bool, List, arith,
}

pub data Call : Type 0 where
  open_call : Call
  close_call : Call

-- a sequence of calls of the kernel, with their answers
unfoldable pub run : List Call → Softc → List ℕ × Softc
run [] sc = ([], sc)
run (open_call ∷ calls) sc =
    let (ret, sc') = mydevopen sc in let (rets, last) = run calls sc' in (ret ∷ rets, last)
run (close_call ∷ calls) sc =
    let (ret, sc') = mydevclose sc in let (rets, last) = run calls sc' in (ret ∷ rets, last)

-- what the device promises: an open fails exactly while the device is held
pub specified : List Call → Bool → List ℕ × Bool
specified [] held = ([], held)
specified (open_call ∷ calls) true = let (rets, last) = specified calls true in (ebusy ∷ rets, last)
specified (open_call ∷ calls) false = let (rets, last) = specified calls true in (0 ∷ rets, last)
specified (close_call ∷ calls) held = let (rets, last) = specified calls false in (0 ∷ rets, last)

-- how the state of the driver stands for the flag
abbrev pub Represents : Softc → Bool → Type 0
Represents sc held = sc.sc_usage ≡ to_nat held

run-specified :
    (calls : List Call) (sc : Softc) (held : Bool)
    → Represents sc held
    → ((run calls sc).0 ≡ (specified calls held).0)
      × Represents (run calls sc).1 (specified calls held).1
unfolding run specified mydevopen mydevclose
run-specified [] sc held r = (refl, r)
run-specified (open_call ∷ calls) sc true r =
    let (same, r') = run-specified calls sc true r in
    let busy : ltb 0 sc.sc_usage ≡ true = ground arith in rw busy (ap (λ l. ebusy ∷ l) same, r')
run-specified (open_call ∷ calls) sc false r =
    let next = record sc { sc_usage = (sc.sc_usage + 1) % 2 ^ 32 } in
    let (same, r') = run-specified calls next true (omega arith) in
    let free : ltb 0 sc.sc_usage ≡ false = ground arith in rw free (ap (λ l. 0 ∷ l) same, r')
run-specified (close_call ∷ calls) sc true r =
    let next = record sc { sc_usage = sc.sc_usage - 1 } in
    let (same, r') = run-specified calls next false (omega arith) in
    let busy : ltb 0 sc.sc_usage ≡ true = ground arith in rw busy (ap (λ l. 0 ∷ l) same, r')
run-specified (close_call ∷ calls) sc false r =
    let (same, r') = run-specified calls sc false r in
    let free : ltb 0 sc.sc_usage ≡ false = ground arith in rw free (ap (λ l. 0 ∷ l) same, r')

-- After mydevattach every sequence of opens and closes answers as a flag does: an open fails with
-- EBUSY exactly while the device is held, a close always succeeds, and sc_usage is 1 while it is
-- held and else 0.
pub run-mydevattach :
    (sc : Softc) (calls : List Call)
    → ((run calls (mydevattach sc)).0 ≡ (specified calls false).0)
      × Represents (run calls (mydevattach sc)).1 (specified calls false).1
unfolding mydevattach
run-mydevattach sc calls = run-specified calls (mydevattach sc) false refl
