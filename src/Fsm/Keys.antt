-- ===== src/Fsm/Keys.antt =====
-- fsm/fsm.c and fsm/states.c: the callbacks compare and hash what their pointers point to.
use experimentation.Base.{ℕ, ◌≡◌, ◌==◌, is_zero, arith}
use experimentation.Htable.Table.{is_same}
use experimentation.Htable.Chains.{CallbackLaws}
use experimentation.Fsm.Types.{Memory, KeyPtr, deref, key_cmpf, fsm_callbacks, state_callbacks}

pub key_cmpf-eq : (a b : ℕ) → is_zero (key_cmpf a b) ≡ a == b
unfolding key_cmpf
key_cmpf-eq a b = ground arith

pub fsm_callbacks-same :
    (m : Memory) (a b : KeyPtr) → is_same (fsm_callbacks m) a b ≡ deref m a == deref m b
unfolding fsm_callbacks
fsm_callbacks-same m a b = key_cmpf-eq (deref m a) (deref m b)

pub state_callbacks-same : (a b : ℕ) → is_same state_callbacks a b ≡ a == b
unfolding state_callbacks
state_callbacks-same a b = key_cmpf-eq a b

-- The callbacks of the table of states, whatever the memory holds, compare by an equivalence that
-- the hash respects, as the table asks.
pub fsm_callbacks-CallbackLaws : (m : Memory) → CallbackLaws (fsm_callbacks m)
fsm_callbacks-CallbackLaws m = record {
  same_refl = λ a. rw fsm_callbacks-same (ground arith);
  same_symm = λ a b. ground (arith, fsm_callbacks-same m a b, fsm_callbacks-same m b a);
  same_trans = λ a b c.
      ground (arith, fsm_callbacks-same m a b, fsm_callbacks-same m b c, fsm_callbacks-same m a c);
  hash-same = λ a b. unfold fsm_callbacks in ground (arith, fsm_callbacks-same m a b);
}

pub state_callbacks-CallbackLaws : CallbackLaws state_callbacks
state_callbacks-CallbackLaws = record {
  same_refl = λ a. rw state_callbacks-same (ground arith);
  same_symm = λ a b. ground (arith, state_callbacks-same a b, state_callbacks-same b a);
  same_trans = λ a b c.
      ground (arith, state_callbacks-same a b, state_callbacks-same b c, state_callbacks-same a c);
  hash-same = λ a b. unfold state_callbacks in ground (arith, state_callbacks-same a b);
}
