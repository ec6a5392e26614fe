-- ===== src/Homework/Charfreq.antt =====
-- homework/charfreq.c: a histogram of the letters of a text. `none` is an access outside the array
-- `freq`. An `unsigned int` has 32 bits, and a text is the list of its bytes.
use experimentation.Base.{
  Bool, Bool-cases, List, Option, [], ap, arith, false, get_elem?, get_elem?-get_or, get_or,
  get_or-set, if◌then◌else◌, inl, inr, leb, length, length-set, ltb, none, refl, replicate, set,
  some, suc, true, zero, ℕ, ◌%◌, ◌&&◌, ◌+◌, ◌-◌, ◌<◌, ◌==◌, ◌>>=◌, ◌^◌, ◌∙◌, ◌∷◌, ◌≡◌, ◌≤◌,
}
use experimentation.Htable.Chains.{to_nat}

-- `toupper` in the C locale
abbrev pub toupper : ℕ → ℕ
toupper c = if leb 97 c && leb c 122 then c - 32 else c

-- `freq[c - 'A']++`, where the byte is a letter
unfoldable pub count_byte : ℕ → List ℕ → Option (List ℕ)
count_byte byte freq =
    let c = toupper byte in
    if leb 65 c && leb c 90
    then (get_elem? freq (c - 65) >>= λ f. some (set freq (c - 65) ((f + 1) % 2 ^ 32)))
    else some freq

unfoldable pub count : List ℕ → List ℕ → Option (List ℕ)
count [] freq = some freq
count (byte ∷ text) freq = count_byte byte freq >>= λ freq'. count text freq'

-- the loop for the maximal frequency, from index `i` on
unfoldable pub max_from : ℕ → List ℕ → ℕ → ℕ
max_from i [] maxf = maxf
max_from i (f ∷ freq) maxf = max_from (suc i) freq (if ltb maxf f then i else maxf)

unfoldable pub max_freq : List ℕ → Option ℕ
max_freq [] = none
max_freq (f ∷ freq) = some (max_from 1 freq f)

-- one line of the histogram: for each letter, whether it has a star
unfoldable pub stars : ℕ → List ℕ → List Bool
stars i [] = []
stars i (f ∷ freq) = leb i f ∷ stars i freq

-- the lines for `i` down to 1
unfoldable pub lines : ℕ → List ℕ → List (ℕ × List Bool)
lines zero freq = []
lines (suc i) freq = (suc i, stars (suc i) freq) ∷ lines i freq

-- `main` on a text
unfoldable pub charfreq : List ℕ → Option (List (ℕ × List Bool))
charfreq text = count text (replicate 26 0) >>= λ freq.
    max_freq freq >>= λ maxf. get_elem? freq maxf >>= λ top. some (lines top freq)

-- how often the letter `j`, from 0, stands in a text, in either case
pub occurrences : ℕ → List ℕ → ℕ
occurrences j [] = 0
occurrences j (byte ∷ text) = to_nat (toupper byte == 65 + j) + occurrences j text

-- On an array of 26 frequencies the counting loop stays in its array, and adds to each letter the
-- number of its occurrences in the text, in either case, modulo 2 ^ 32.
pub count-occurrences :
    (text freq : List ℕ)
    → length freq ≡ 26
    → (freq' : List ℕ) × (count text freq ≡ some freq')
      × (length freq' ≡ 26)
      × ((j : ℕ)
          → j < 26
          → get_or freq' j 0 % 2 ^ 32 ≡ (get_or freq j 0 + occurrences j text) % 2 ^ 32)
unfolding count count_byte occurrences
count-occurrences [] freq width = (freq, refl, width, λ j l. ap (λ k. k % 2 ^ 32) (omega arith))
count-occurrences (byte ∷ text) freq width =
    elim (Bool-cases (leb 65 (toupper byte) && leb (toupper byte) 90)) [
      | inr off ↦
          let (freq', run, width', counts) = count-occurrences text freq width in
          (
            freq',
            rw (off, ◌>>=◌) run,
            width',
            λ j l.
                let other : toupper byte == 65 + j ≡ false = ground arith in
                rw other (counts j l ∙ ap (λ k. k % 2 ^ 32) (omega arith)),
          )
      | inl on ↦
          let i = toupper byte - 65 in
          let inside : i < length freq = ground arith in
          let next = set freq i ((get_or freq i 0 + 1) % 2 ^ 32) in
          let (freq', run, width', counts) =
            count-occurrences text next (length-set freq i _ ∙ width) in
          (
            freq',
            rw (on, get_elem?-get_or freq i 0 inside, ◌>>=◌) run,
            width',
            λ j l.
                let value = get_or-set freq i j ((get_or freq i 0 + 1) % 2 ^ 32) 0 inside in
                counts j l ∙ (elim (Bool-cases (i == j)) [
                  | inl e ↦
                      let hit : toupper byte == 65 + j ≡ true = ground arith in
                      let same : i ≡ j = ground arith in
                      let value' : get_or next j 0 ≡ (get_or freq j 0 + 1) % 2 ^ 32 =
                        value ∙ rw (e, same) refl in
                      rw hit (omega (arith, value'))
                  | inr e ↦
                      let miss : toupper byte == 65 + j ≡ false = ground arith in
                      let value' : get_or next j 0 ≡ get_or freq j 0 = value ∙ rw e refl in
                      rw miss (omega (arith, value'))
                ]),
          )
    ]

-- no index is taken as the maximum where no frequency exceeds the first
max_from-first : (i m : ℕ) (freq : List ℕ) → ((j : ℕ) → get_or freq j 0 ≤ m) → max_from i freq m ≡ m
unfolding max_from
max_from-first i m [] le = refl
max_from-first i m (f ∷ freq) le =
    let low : ltb m f ≡ false = ground (arith, le 0) in
    rw low (max_from-first (suc i) m freq (λ j. le (suc j)))

get_elem?-outside : (freq : List ℕ) (i : ℕ) → length freq ≤ i → get_elem? freq i ≡ none
get_elem?-outside [] i l = refl
get_elem?-outside (f ∷ freq) zero l = absurd (omega arith)
get_elem?-outside (f ∷ freq) (suc i) l = get_elem?-outside freq i (omega arith)

-- Where A is counted 26 times or more and no letter more often, the frequency of A is taken for an
-- index, and the histogram reads outside the array.
pub charfreq_outside :
    (text : List ℕ) (f : ℕ) (freq : List ℕ)
    → count text (replicate 26 0) ≡ some (f ∷ freq)
    → length freq ≡ 25
    → 26 ≤ f
    → ((j : ℕ) → get_or freq j 0 ≤ f)
    → charfreq text ≡ none
unfolding charfreq max_freq
charfreq_outside text f freq run width many le =
    rw (run, ◌>>=◌, max_from-first 1 f freq le, get_elem?-outside (f ∷ freq) f (omega arith)) refl
