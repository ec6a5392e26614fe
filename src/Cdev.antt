-- ===== src/Cdev.antt =====
-- cdev/mydev.c: a character device that one process at a time may open. A handler takes the state of
-- the driver and returns its answer, an error number or 0, with the new state.
use experimentation.Base.{
  ◌||◌, ◌^◌, not, ◌%◌, ◌-◌, ◌==◌, ◌+◌, ℤ, min, ltb, ℕ, zero, suc, none, some, true, false, [], ◌∷◌,
  ◌++◌, refl, inl, inr, Bool, List, Option, if◌then◌else◌, arith, pos, negsuc,
}
pub mod Exclusive
pub mod Read

pub record Softc : Type 0 where
  pub sc_usage : ℕ  -- unsigned int

abbrev pub ebusy : ℕ
ebusy = 16

unfoldable pub mydevattach : Softc → Softc
mydevattach sc = record sc { sc_usage = 0 }

unfoldable pub mydevopen : Softc → ℕ × Softc
mydevopen sc =
    if ltb 0 sc.sc_usage
    then (ebusy, sc)
    else (0, record sc { sc_usage = (sc.sc_usage + 1) % 2 ^ 32 })

unfoldable pub mydevclose : Softc → ℕ × Softc
mydevclose sc = (0, if ltb 0 sc.sc_usage then record sc { sc_usage = sc.sc_usage - 1 } else sc)

-- "This is a test", with the 0 at its end
abbrev pub mybuffer : List ℕ
mybuffer = 84 ∷ 104 ∷ 105 ∷ 115 ∷ 32 ∷ 105 ∷ 115 ∷ 32 ∷ 97 ∷ 32 ∷ 116 ∷ 101 ∷ 115 ∷ 116 ∷ 0 ∷ []

-- a request to read: the bytes still asked for, and those that the process has got
pub record Uio : Type 0 where
  pub uio_resid : ℕ
  pub moved : List ℕ

abbrev pub take : ℕ → List ℕ → List ℕ
take zero xs = []
take (suc n) [] = []
take (suc n) (x ∷ xs) = x ∷ take n xs

-- uiomove(9) of the kernel: it returns 0 and has moved the bytes, or an error number
abbrev pub Uiomove : Type 0
Uiomove = List ℕ → Uio → ℕ × Uio

-- The loop of `mydevread`. `none`: the fuel is used up.
unfoldable pub read_loop : Uiomove → ℕ → Uio → Option (ℕ × Uio)
read_loop uiomove zero uio = none
read_loop uiomove (suc fuel) uio =
    let nbytes = min uio.uio_resid 15 in
    let (ret, uio') = uiomove (take nbytes mybuffer) uio in
    let rest = read_loop uiomove fuel uio' in
    if ltb 0 uio.uio_resid then (if ret == 0 then rest else some (ret, uio')) else some (0, uio)

unfoldable pub mydevread : Uiomove → ℕ → Uio → Option (ℕ × Uio)
mydevread uiomove fuel uio = read_loop uiomove fuel uio

-- what the kernel may ask for by ioctl(2)
pub data Command : Type 0 where
  mydevoldioctl : Command
  mydevsetprops : Command
  other : Command

-- what a call gives back to the kernel
pub data Release : Type 0 where
  object : Release
  dictionary : Release
  cstring : Release

-- The answers of proplib(3): the error number of prop_dictionary_copyin_ioctl; whether
-- prop_dictionary_get finds an object; whether this is a string; whether prop_string_cstring gets
-- memory.
pub record Answers : Type 0 where
  pub copyin : ℕ
  pub found : Bool
  pub is_string : Bool
  pub got_cstring : Bool

abbrev pub enotty : ℕ
enotty = 25

-- the answer, which may be -1, and what is released, in order
unfoldable pub mydevioctl : Command → Answers → ℤ × List Release
mydevioctl mydevoldioctl a = (pos 0, [])
mydevioctl mydevsetprops a =
    if a.copyin == 0
    then (if not a.found || not a.is_string
        then (negsuc 0, dictionary ∷ [])
        else (if a.got_cstring
            then (pos 0, object ∷ cstring ∷ dictionary ∷ [])
            else (negsuc 0, object ∷ dictionary ∷ [])))
    else (pos a.copyin, [])
mydevioctl other a = (pos enotty, [])
