-- ===== src/Tests/Tables.antt =====
-- genstructs/htable: runs of the table and its theorems, on keys that are numbers.
use experimentation.Base.{
  ◌^◌, Option, [], arith, flatten, length, map, none, refl, replicate, some, true, ℕ, ◌++◌, ◌+◌,
  ◌-◌, ◌>>=◌, ◌∷◌, ◌≡◌, ◌≤◌,
}
use experimentation.Fsm.Keys.{state_callbacks-CallbackLaws}
use experimentation.Fsm.Types.{key_cmpf, state_callbacks}
use experimentation.Htable.Effect.{Inserted, htable_insert-Inserted}
use experimentation.Htable.Missed.{for_each_elm-missed, last_chain}
use experimentation.Htable.Iteration.{each_node, for_each_elm-visited, visited}
use experimentation.Htable.Layout.{replicate-Stores, view}
use experimentation.Htable.Load.{htable_insert-le_limit}
use experimentation.Htable.Memory.{free_contents, htable_free, htable_free_all_obj}
use experimentation.Htable.Release.{both_contents, htable_free_complete}
use experimentation.Htable.Removal.{Removed, htable_free_obj-remove, htable_remove-Removed}
use experimentation.Htable.Table.{
  find, grow_if_full, htable_free_obj, htable_grow, htable_insert, htable_remove, htable_search,
  insert_tail, is_same, rehash, rehash_chain, slot, unlink,
}
use experimentation.Htable.Types.{Freed, Htable, Htret}
use experimentation.Htable.Validity.{
  Grown, IsValid, contents, htable_grow-Grown, htable_search-contents,
}
use experimentation.Htable.Walk.{
  for_each_elm, for_each_loop, htable_get_next_elm, htable_init, init_heads, htable_iterator_init,
  next_chain,
}
use mathlib.Core.Path.{subst}

program : Unit {0}
unfolding key_cmpf state_callbacks slot insert_tail find unlink htable_search rehash_chain rehash
    htable_grow grow_if_full htable_insert htable_remove htable_free_obj htable_init next_chain
    htable_iterator_init htable_get_next_elm for_each_loop for_each_elm free_contents flatten
program = tt

abbrev empty : Htable ℕ ℕ
empty = record {
  ht_grows = 0;
  ht_size = 2;
  ht_used = 0;
  ht_factor = 1;
  ht_limit = 2;
  ht_table = replicate 2 [];
}

empty-IsValid : IsValid state_callbacks empty
empty-IsValid =
    let t = replicate-Stores {K = ℕ} {V = ℕ} state_callbacks 2 in
    record {
      nonempty = omega arith;
      sized = omega arith;
      width = t.width;
      counted = t.nodes;
      limited = refl;
      placed = t.placed;
    }

empty_reads : (q : ℕ) → contents state_callbacks empty q ≡ none
empty_reads = (replicate-Stores {K = ℕ} {V = ℕ} state_callbacks 2).reads

-- three insertions, of which the third grows the table, one that is refused, and a removal
abbrev session : Option (ℕ × ℕ × Htret × Option ℕ × Option ℕ × Option ℕ × ℕ)
session = htable_insert state_callbacks true true empty 1 10 >>= λ a.
    htable_insert state_callbacks true true a.1 5 50 >>= λ b.
    htable_insert state_callbacks true true b.1 9 90 >>= λ c.
    htable_insert state_callbacks true true c.1 5 55 >>= λ d.
    htable_remove state_callbacks d.1 1 >>= λ e. htable_search state_callbacks e.1 1 >>= λ one.
    htable_search state_callbacks e.1 5 >>= λ five. htable_search state_callbacks e.1 9 >>= λ nine.
    some (b.1.ht_size, c.1.ht_size, d.0, one, five, nine, e.1.ht_used)

session_runs : session ≡ some (2, 4, Htret.exists, none, some 50, some 90, 2)
unfolding program
session_runs = refl

htable_insert-Inserted_example :
    (r : Htret × Htable ℕ ℕ) × (htable_insert state_callbacks true true empty 3 30 ≡ some r)
    × Inserted state_callbacks true true empty 3 30 r
htable_insert-Inserted_example =
    htable_insert-Inserted state_callbacks state_callbacks-CallbackLaws empty 3 30 empty-IsValid
      (omega arith) (omega arith) true true

abbrev one : Htable ℕ ℕ
one = record {
  ht_grows = 0;
  ht_size = 2;
  ht_used = 1;
  ht_factor = 1;
  ht_limit = 2;
  ht_table = [] ∷ (record { hn_key = 3; hn_data = 30 } ∷ []) ∷ [];
}

one_runs : htable_insert state_callbacks true true empty 3 30 ≡ some (Htret.ok, one)
unfolding program
one_runs = refl

one-IsValid : IsValid state_callbacks one
one-IsValid =
    let (r, run, i) = htable_insert-Inserted_example in
    let same : r ≡ (Htret.ok, one) = cc (run, one_runs) in
    subst (λ x. IsValid state_callbacks (x.1)) same i.valid

has_three : contents state_callbacks one 3 ≡ some 30
unfolding program view
has_three = refl

htable_search-contents_example :
    htable_search state_callbacks one 3 ≡ some (contents state_callbacks one 3)
htable_search-contents_example = htable_search-contents state_callbacks 3 one-IsValid

htable_grow-Grown_example :
    (r : Htret × Htable ℕ ℕ) × (htable_grow state_callbacks true one ≡ some r)
    × Grown state_callbacks true one r
htable_grow-Grown_example =
    htable_grow-Grown state_callbacks state_callbacks-CallbackLaws true one one-IsValid
      (omega arith)

htable_remove-Removed_example :
    (r : Htret × Htable ℕ ℕ) × (htable_remove state_callbacks one 3 ≡ some r)
    × Removed state_callbacks one 3 r
htable_remove-Removed_example =
    htable_remove-Removed state_callbacks state_callbacks-CallbackLaws one 3 one-IsValid
      (omega arith)

htable_free_obj-remove_example :
    (h : Htable ℕ ℕ) × (key : ℕ) × (htable_remove state_callbacks one 3 ≡ some (Htret.ok, h))
    × (htable_free_obj state_callbacks one 3 3
        ≡ some (
          Htret.ok,
          h,
          Freed.key key ∷ Freed.datum 30 ∷ Freed.node (record { hn_key = key; hn_data = 30 }) ∷ [],
        ))
    × (is_same state_callbacks key 3 ≡ true)
htable_free_obj-remove_example =
    htable_free_obj-remove state_callbacks one 3 30 one-IsValid has_three

htable_insert-le_limit_example :
    (r : Htret × Htable ℕ ℕ) × (htable_insert state_callbacks true true empty 3 30 ≡ some r)
    × (r.1.ht_used ≤ r.1.ht_limit)
htable_insert-le_limit_example =
    htable_insert-le_limit state_callbacks state_callbacks-CallbackLaws true empty 3 30
      empty-IsValid (omega arith) (omega arith) (omega arith) (omega arith) (omega arith)

-- a table of two chains, all of whose three nodes are in the last
abbrev crowded : Htable ℕ ℕ
crowded = record {
  ht_grows = 0;
  ht_size = 2;
  ht_used = 3;
  ht_factor = 2;
  ht_limit = 4;
  ht_table =
      []
      ∷ (record { hn_key = 1; hn_data = 10 }
          ∷ record { hn_key = 3; hn_data = 30 }
          ∷ record { hn_key = 5; hn_data = 50 }
          ∷ [])
      ∷ [];
}

for_each_elm-missed_example :
    (n : ℕ) × (for_each_elm crowded (λ _ k. some (k + 1)) 0 ≡ some n)
    × (n + (length (last_chain crowded.ht_table) - 1) ≡ length (flatten crowded.ht_table))
for_each_elm-missed_example = for_each_elm-missed crowded refl (omega arith)

-- the loop runs once
crowded_runs : for_each_elm crowded (λ _ k. some (k + 1)) 0 ≡ some 1
unfolding program
crowded_runs = refl

for_each_elm-visited_example :
    for_each_elm crowded (λ pnode s. some (s + pnode.hn_data)) 0
    ≡ each_node (λ pnode s. some (s + pnode.hn_data)) (visited crowded.ht_table) 0
for_each_elm-visited_example =
    for_each_elm-visited crowded refl (omega arith) (λ pnode s. some (s + pnode.hn_data)) 0

htable_free_complete_example :
    htable_free_all_obj crowded 3 ++ htable_free crowded
    ≡ both_contents (flatten crowded.ht_table)
      ++ (map Freed.node (flatten crowded.ht_table) ++ Freed.table ∷ [])
htable_free_complete_example = htable_free_complete crowded

-- a size whose heads take 2 ^ 64 bytes and 16 more: the block has room for one head
wrapped : htable_init {K = ℕ} {V = ℕ} true (2 ^ 60 + 1) 1 ≡ none
unfolding htable_init init_heads
wrapped = refl
