-- ===== src/Genstructs.antt =====
-- genstructs/slinkedlist.c and genstructs/tailq.c: a list of strings that is filled, printed and freed.
-- The macros of sys/queue.h are taken as their manual page has them, on the list of the nodes from the
-- head on; a node is named by the number of its allocation. A string is a number; what is printed is the
-- strings, without the blanks, arrows and ends of line between them.
use experimentation.Base.{
  ◌>>=◌, ◌==◌, ℕ, zero, suc, none, some, true, false, [], ◌∷◌, ◌++◌, refl, inl, inr, Bool, List,
  Option, if◌then◌else◌, arith, pos, negsuc,
}
pub mod Lists

pub record Node : Type 0 where
  pub name : ℕ
  pub str : ℕ

-- what a program has printed and freed
pub record Outcome : Type 0 where
  pub printed : List ℕ
  pub freed : List ℕ

-- a list that is filled, and whether the loop came to its end
pub record Filled : Type 0 where
  pub list : List Node
  pub complete : Bool

-- SLIST_INSERT_AFTER, which has no meaning for a node that is not in the list
unfoldable pub insert_after : ℕ → Node → List Node → Option (List Node)
insert_after np n [] = none
insert_after np n (m ∷ list) =
    let rest = insert_after np n list in
    if m.name == np then some (m ∷ n ∷ list) else rest >>= (λ list'. some (m ∷ list'))

-- the loop that fills the singly linked list, from the string `i` on; `np` is the node before
unfoldable pub populate : (ℕ → Bool) → ℕ → ℕ → List ℕ → List Node → Option Filled
populate got i np [] list = some (record { list = list; complete = true })
populate got i np (s ∷ strs) list =
    let n : Node = record { name = i; str = s } in
    let inserted = if i == 0 then some (n ∷ list) else insert_after np n list in
    let rest = inserted >>= λ list'. populate got (suc i) i strs list' in
    if got i then rest else some (record { list = list; complete = false })

-- the loop that frees the first node until there is none
unfoldable pub delete_all : List Node → List ℕ
delete_all [] = []
delete_all (n ∷ list) = n.name ∷ delete_all list

-- SLIST_FOREACH and TAILQ_FOREACH
unfoldable pub traverse : List Node → List ℕ
traverse [] = []
traverse (n ∷ list) = n.str ∷ traverse list

-- TAILQ_FOREACH_REVERSE
unfoldable pub traverse_reverse : List Node → List ℕ
traverse_reverse [] = []
traverse_reverse (n ∷ list) = traverse_reverse list ++ n.str ∷ []

unfoldable pub slinkedlist : (ℕ → Bool) → List ℕ → Option Outcome
slinkedlist got strs = populate got 0 0 strs [] >>= λ f.
    some
      (record { printed = if f.complete then traverse f.list else []; freed = delete_all f.list })

-- the loop that fills the tail queue
unfoldable pub populate_tail : (ℕ → Bool) → ℕ → List ℕ → List Node → Filled
populate_tail got i [] list = record { list = list; complete = true }
populate_tail got i (s ∷ strs) list =
    let rest = populate_tail got (suc i) strs (list ++ record { name = i; str = s } ∷ []) in
    if got i then rest else record { list = list; complete = false }

unfoldable pub tailq : (ℕ → Bool) → List ℕ → Outcome
tailq got strs =
    let f = populate_tail got 0 strs [] in
    record {
      printed = if f.complete then traverse f.list ++ traverse_reverse f.list else [];
      freed = delete_all f.list;
    }
