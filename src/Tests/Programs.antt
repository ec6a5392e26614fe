-- ===== src/Tests/Programs.antt =====
-- homework and genstructs: runs of the programs and their theorems.
use experimentation.Genstructs.Lists.{slinkedlist-tailq, Runs}
use experimentation.Genstructs.{traverse, tailq, insert_after, populate, slinkedlist, Outcome}
use experimentation.Base.{
  ltb, Bool, List, [], arith, false, get_or, get_or-replicate, length, none, refl, replicate, some,
  true, ℕ, ◌%◌, ◌+◌, ◌<◌, ◌>>=◌, ◌^◌, ◌∷◌, ◌≡◌,
}
use experimentation.Homework.Bitmap.{bitmap, flag_all, is_blk_free, narr, print_blks, print_from}
use experimentation.Homework.Charfreq.{
  charfreq, charfreq_outside, count, count-occurrences, count_byte, lines, max_freq, max_from,
  occurrences, stars,
}

program : Unit {0}
unfolding narr is_blk_free print_from print_blks flag_all bitmap count_byte count max_from max_freq
    stars lines charfreq
program = tt

bitmap_runs : bitmap 2 ≡ some (true ∷ true ∷ [], false ∷ false ∷ [])
unfolding program
bitmap_runs = refl

-- a text with two A and a B
charfreq_runs : (charfreq (97 ∷ 65 ∷ 66 ∷ []) >>= λ l. some (length l)) ≡ some 0
unfolding program
charfreq_runs = refl

count-occurrences_example :
    (freq : List ℕ) × (count (97 ∷ 66 ∷ []) (replicate 26 0) ≡ some freq)
    × (length freq ≡ 26)
    × ((j : ℕ)
        → j < 26
        → get_or freq j 0 % 2 ^ 32
          ≡ (get_or (replicate 26 0) j 0 + occurrences j (97 ∷ 66 ∷ [])) % 2 ^ 32)
count-occurrences_example = count-occurrences (97 ∷ 66 ∷ []) (replicate 26 0) refl

many_runs : count (replicate 26 97) (replicate 26 0) ≡ some (26 ∷ replicate 25 0)
unfolding program
many_runs = refl

charfreq_outside_example : charfreq (replicate 26 97) ≡ none
charfreq_outside_example =
    charfreq_outside (replicate 26 97) 26 (replicate 25 0) many_runs refl (omega arith)
      (λ j. let z : ℕ = 0 in rw (get_or-replicate 25 j z) (omega arith))

-- four strings, with memory for two
abbrev two_nodes : ℕ → Bool
two_nodes i = ltb i 2

lists_run :
    (slinkedlist (λ i. true) (7 ∷ 8 ∷ 9 ∷ []) >>= λ o. some o.printed) ≡ some (7 ∷ 8 ∷ 9 ∷ [])
unfolding slinkedlist populate insert_after traverse
lists_run = refl

slinkedlist-tailq_example :
    (o : Outcome) × (slinkedlist two_nodes (7 ∷ 8 ∷ 9 ∷ 7 ∷ []) ≡ some o)
    × Runs two_nodes (7 ∷ 8 ∷ 9 ∷ 7 ∷ []) o (tailq two_nodes (7 ∷ 8 ∷ 9 ∷ 7 ∷ []))
slinkedlist-tailq_example = slinkedlist-tailq two_nodes (7 ∷ 8 ∷ 9 ∷ 7 ∷ [])
