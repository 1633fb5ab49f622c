-- ===== src/Ring/Template.antt =====
-- src/include/bt_lockfree_queue.h: the class templates SPSCQueue and MPSCQueue, whose four fields are
-- those of the rings. The loop of MPSCQueue::push stands with what other threads do between its
-- loads and its exchange.
pub mod Retry
pub mod Stale
mod Tests
use aspira_broker.Prelude.{
  ℕ, zero, suc, ◌+◌, ◌-◌, Bool, true, false, not, ◌&&◌, Option, none, some, List, [], ◌∷◌, bit_and,
  size_add, ◌==◌, if◌then◌else◌, Buffer, write,
}
use aspira_broker.Ring.{RingQueue, next}
use aspira_broker.Ring.Fifo.{Op, push, pop}

module _ {A : Type 0} where
  -- A queue as its initialisers leave it.
  unfoldable pub constructed : Buffer A → ℕ → RingQueue A
  constructed buf n = record { head = 0; tail = 0; buffer = buf; mask = n - 1 }

  -- SPSCQueue::push.
  unfoldable pub push_one : RingQueue A → A → Bool × RingQueue A
  push_one q item =
      let h = q.head in
      let t = q.tail in
      let n = bit_and (size_add t 1) q.mask in
      if n == h then (false, q) else (true, record q { buffer = write q.buffer t item; tail = n })

  -- pop of both classes.
  unfoldable pub pop_one : RingQueue A → Option A × RingQueue A
  pop_one q =
      let h = q.head in
      if h == q.tail
      then (none, q)
      else (some (q.buffer h), record q { head = bit_and (size_add h 1) q.mask })

  -- empty of both classes.
  abbrev pub empty : RingQueue A → Bool
  empty q = q.head == q.tail

  -- Whole calls of other threads, one after the other.
  unfoldable pub others : List (Op A) → RingQueue A → RingQueue A
  others [] q = q
  others (push x ∷ ops) q = others ops (push_one q x).1
  others (pop ∷ ops) q = others ops (pop_one q).1

  -- The stores of a producer whose exchange of the tail `t` succeeded.
  abbrev pub claim : RingQueue A → ℕ → A → RingQueue A
  claim q t item = record q { tail = next q t; buffer = write q.buffer t item }

  -- MPSCQueue::push. For each round of its loop: what other threads do before the exchange, and
  -- whether the weak exchange fails for no reason. A call that needs more rounds gives none.
  unfoldable pub push_among :
      List (List (Op A) × Bool) → RingQueue A → A → Option (Bool × RingQueue A)
  push_among [] q item = none
  push_among ((ops, spurious) ∷ rounds) q item =
      let t = q.tail in
      let h = q.head in
      let q' = others ops q in
      let again = push_among rounds q' item in
      if bit_and (size_add t 1) q.mask == h
      then some (false, q)
      else if q'.tail == t && not spurious
      then some (true, claim q' t item)
      else again
