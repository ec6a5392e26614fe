-- ===== src/Genstructs/Lists.antt =====
-- genstructs/slinkedlist.c and genstructs/tailq.c: what is printed, and that all is freed.
use mathlib.Core.List.{reverse, reverse-append}
use experimentation.Genstructs.{
  tailq, slinkedlist, Outcome, traverse_reverse, delete_all, populate, traverse, insert_after,
  populate_tail, Node,
}
use experimentation.Base.{
  ◌∙◌, length, ◌>>=◌, zero, append_assoc, Bool-cases, append-nil, ◌==◌, sym, ◌<◌, ap, ◌≡◌, ℕ, suc,
  some, true, false, [], ◌∷◌, ◌++◌, refl, inl, inr, Bool, List, if◌then◌else◌, arith,
}

-- the nodes for the strings, up to the first that gets no memory
pub nodes : (ℕ → Bool) → ℕ → List ℕ → List Node
nodes got i [] = []
nodes got i (s ∷ strs) =
    let rest = nodes got (suc i) strs in if got i then record { name = i; str = s } ∷ rest else []

-- whether all strings get memory
pub enough : (ℕ → Bool) → ℕ → List ℕ → Bool
enough got i [] = true
enough got i (s ∷ strs) = let rest = enough got (suc i) strs in if got i then rest else false

-- all names are smaller
abbrev Below : ℕ → List Node → Type 0
Below k [] = Unit {0}
Below k (x ∷ xs) = (x.name < k) × Below k xs

Below-next :
    (k : ℕ) (xs : List Node) (m : Node) → Below k xs → m.name ≡ k → Below (suc k) (xs ++ m ∷ [])
Below-next k [] m h e = (omega arith, tt)
Below-next k (x ∷ xs) m (lt, h) e = (omega arith, Below-next k xs m h e)

-- insertion after the last node
insert_after-last :
    (front : List Node) (m n : Node) (k : ℕ)
    → m.name ≡ k
    → Below k front
    → insert_after k n (front ++ m ∷ []) ≡ some ((front ++ m ∷ []) ++ n ∷ [])
unfolding insert_after
insert_after-last [] m n k e below = let on : m.name == k ≡ true = ground arith in rw on refl
insert_after-last (x ∷ front) m n k e (lt, below) =
    let off : x.name == k ≡ false = ground arith in
    rw (off, insert_after-last front m n k e below, ◌>>=◌) refl

populate-nodes :
    (got : ℕ → Bool) (k : ℕ) (strs : List ℕ) (front : List Node) (m : Node)
    → m.name ≡ k
    → Below k front
    → populate got (suc k) k strs (front ++ m ∷ [])
      ≡ some (record {
        list = (front ++ m ∷ []) ++ nodes got (suc k) strs;
        complete = enough got (suc k) strs;
      })
unfolding populate nodes enough
populate-nodes got k [] front m e below =
    ap (λ l. some (record { list = l; complete = true })) (sym (append-nil (front ++ m ∷ [])))
populate-nodes got k (s ∷ strs) front m e below = elim (Bool-cases (got (suc k))) [
  | inl on ↦
      let n : Node = record { name = suc k; str = s } in
      let later_on : suc k == 0 ≡ false = ground arith in
      rw
        (
          on,
          later_on,
          insert_after-last front m n k e below,
          ◌>>=◌,
          populate-nodes got (suc k) strs (front ++ m ∷ []) n refl (Below-next k front m below e),
        )
        (ap (λ l. some (record { list = l; complete = enough got (suc (suc k)) strs }))
          (append_assoc (front ++ m ∷ []) (n ∷ []) (nodes got (suc (suc k)) strs)))
  | inr off ↦
      rw off (
        ap (λ l. some (record { list = l; complete = false })) (sym (append-nil (front ++ m ∷ []))))
]

populate-start :
    (got : ℕ → Bool) (strs : List ℕ)
    → populate got 0 0 strs []
      ≡ some (record { list = nodes got 0 strs; complete = enough got 0 strs })
unfolding populate nodes enough
populate-start got [] = refl
populate-start got (s ∷ strs) = elim (Bool-cases (got 0)) [
  | inl on ↦
      rw (on, ◌>>=◌, populate-nodes got 0 strs [] (record { name = 0; str = s }) refl tt) refl
  | inr off ↦ rw off refl
]

populate_tail-nodes :
    (got : ℕ → Bool) (i : ℕ) (strs : List ℕ) (list : List Node)
    → populate_tail got i strs list
      ≡ record { list = list ++ nodes got i strs; complete = enough got i strs }
unfolding populate_tail nodes enough
populate_tail-nodes got i [] list =
    ap (λ l. record { list = l; complete = true }) (sym (append-nil list))
populate_tail-nodes got i (s ∷ strs) list = elim (Bool-cases (got i)) [
  | inl e ↦
      rw (e, populate_tail-nodes got (suc i) strs (list ++ record { name = i; str = s } ∷ []))
        (ap (λ l. record { list = l; complete = enough got (suc i) strs })
          (append_assoc list (record { name = i; str = s } ∷ []) (nodes got (suc i) strs)))
  | inr e ↦ rw e (ap (λ l. record { list = l; complete = false }) (sym (append-nil list)))
]

enough-on :
    (got : ℕ → Bool) (i s : ℕ) (strs : List ℕ)
    → got i ≡ true
    → enough got i (s ∷ strs) ≡ enough got (suc i) strs
unfolding enough
enough-on got i s strs on = rw on refl

enough-off :
    (got : ℕ → Bool) (i s : ℕ) (strs : List ℕ) → got i ≡ false → enough got i (s ∷ strs) ≡ false
unfolding enough
enough-off got i s strs off = rw off refl

-- what the nodes hold
traverse-nodes :
    (got : ℕ → Bool) (i : ℕ) (strs : List ℕ)
    → enough got i strs ≡ true
    → traverse (nodes got i strs) ≡ strs
unfolding traverse nodes
traverse-nodes got i [] h = refl
traverse-nodes got i (s ∷ strs) h = elim (Bool-cases (got i)) [
  | inl on ↦
      rw on
        (ap (λ l. s ∷ l) (traverse-nodes got (suc i) strs (sym (enough-on got i s strs on) ∙ h)))
  | inr off ↦ absurd (cc (sym (enough-off got i s strs off) ∙ h))
]

traverse_reverse-reverse : (list : List Node) → traverse_reverse list ≡ reverse (traverse list)
unfolding traverse traverse_reverse
traverse_reverse-reverse [] = refl
traverse_reverse-reverse (n ∷ list) =
    ap (λ l. l ++ n.str ∷ []) (traverse_reverse-reverse list)
    ∙ sym (reverse-append (n.str ∷ []) (traverse list))

-- the names of the nodes, which are those of the allocations that succeeded
abbrev pub up_to : ℕ → ℕ → List ℕ
up_to i zero = []
up_to i (suc n) = i ∷ up_to (suc i) n

delete_all-nodes :
    (got : ℕ → Bool) (i : ℕ) (strs : List ℕ)
    → delete_all (nodes got i strs) ≡ up_to i (length (nodes got i strs))
unfolding delete_all nodes
delete_all-nodes got i [] = refl
delete_all-nodes got i (s ∷ strs) = elim (Bool-cases (got i)) [
  | inl on ↦ rw on (ap (λ l. i ∷ l) (delete_all-nodes got (suc i) strs))
  | inr off ↦ rw off refl
]

-- what the two programs do with the same strings and the same memory
pub record Runs (got : ℕ → Bool) (strs : List ℕ) (single double : Outcome) : Type 0 where
  pub single_freed : single.freed ≡ up_to 0 (length (nodes got 0 strs))
  pub double_freed : double.freed ≡ up_to 0 (length (nodes got 0 strs))
  pub single_printed : single.printed ≡ (if enough got 0 strs then strs else [])
  pub double_printed : double.printed ≡ (if enough got 0 strs then strs ++ reverse strs else [])

-- For any strings and any answers of malloc, slinkedlist and tailq end, slinkedlist inserting only
-- after a node that is in its list, and free each node allocated before the first failure once,
-- from the first on. With memory for all, slinkedlist prints the strings in order, and tailq the
-- strings and then the strings in reverse; after a failure nothing is printed.
pub slinkedlist-tailq :
    (got : ℕ → Bool) (strs : List ℕ)
    → (o : Outcome) × (slinkedlist got strs ≡ some o) × Runs got strs o (tailq got strs)
unfolding slinkedlist tailq
slinkedlist-tailq got strs =
    let list = nodes got 0 strs in
    let tail = populate_tail-nodes got 0 strs [] in
    (
      record { printed = if enough got 0 strs then traverse list else []; freed = delete_all list },
      rw (populate-start got strs, ◌>>=◌) refl,
      record {
        single_freed = delete_all-nodes got 0 strs;
        double_freed = rw tail (delete_all-nodes got 0 strs);
        single_printed = elim (Bool-cases (enough got 0 strs)) [
          | inl all ↦ rw (all, traverse-nodes got 0 strs all) refl
          | inr short ↦ rw short refl
        ];
        double_printed = elim (Bool-cases (enough got 0 strs)) [
          | inl all ↦
              rw (tail, all, traverse_reverse-reverse list, traverse-nodes got 0 strs all) refl
          | inr short ↦ rw (tail, short) refl
        ];
      },
    )
